-- ===== src/Extensions/Service.antt =====
-- The service of the extensions: src/modules/pbx/services/extension.service.ts and the part of
-- asterisk-provisioning.service.ts that it calls.
use comm_care.Prelude.{
  ℕ, zero, suc, ◌+◌, ◌-◌, ◌%◌, ◌/◌, String, not, Option, none, some, List, [], ◌∷◌, if◌then◌else◌,
  ltb, leb, eqb, is_some, holds_text, or_else, length,
}
use Prim.Native.String.{◌++◌}
use comm_care.Entities.{Extension, available, reserved, UserInfo}
use comm_care.Office.{
  Tables, Outside, Task, pure, skip, throw, ◌>>=◌, ◌>>◌, query, write, or_throw, throw_if, for_each,
  ask, request, bad_request, not_found, internal_server_error, catch_with, finally, new_password,
  read_top_extension_id, write_top_extension_id, increment_top_extension_id, acquire_lock,
  release_lock, upsert_pjsip, delete_pjsip, publish_extension_create,
}
use comm_care.Extensions.{
  min_available_extension_threshold, extension_replenish_batch_size, save_extension, delete_row,
  get_extension, get_extensions_by_user_id, get_extension_for_tenant, max_number, count_available,
  reserve_available_for_tenant, assign_reserved_extensions_to_user,
}

pub record CreateExtensionInput : Type 0 where
  pub description : Option String
  pub caller_id_name : Option String

digit : ℕ → String
digit n =
    if ltb n 5
    then if ltb n 2
      then if eqb n 0 then "0" else "1"
      else if eqb n 2
      then "2"
      else if eqb n 3
      then "3"
      else "4"
    else if ltb n 7
    then if eqb n 5 then "5" else "6"
    else if eqb n 7
    then "7"
    else if eqb n 8
    then "8"
    else "9"

-- `n.toString()`; a numeral has fewer digits than its number has units, plus one.
decimal_within : ℕ → ℕ → String
unfolding digit
decimal_within zero n = ""
decimal_within (suc fuel) n =
    let front = decimal_within fuel (n / 10) in
    if ltb n 10 then digit n else front ++ digit (n % 10)

unfoldable pub decimal : ℕ → String
unfolding decimal_within
decimal n = decimal_within (suc n) n

-- The extension's id is the database's.
unfoldable pub build_extension_entity : CreateExtensionInput → ℕ → String → String → Extension
build_extension_entity input number id password = record {
  id = id;
  tenant_id = none;
  user_id = none;
  user_info = none;
  number = number;
  description = input.description;
  status = available;
  pjsip_endpoint = "PJSIP/" ++ decimal number;
  pjsip_username = decimal number;
  pjsip_password = password;
  caller_id_name = input.caller_id_name;
  caller_id_number = none;
}

abbrev pub with_counter : Tables → ℕ → Tables
with_counter t k = record t { top_extension_id = some k }

-- How many creations the pool asks for.
unfoldable pub replenish_count : ℕ → ℕ
replenish_count free =
    if leb min_available_extension_threshold free
    then 0
    else (if ltb (min_available_extension_threshold - free) extension_replenish_batch_size
        then extension_replenish_batch_size
        else min_available_extension_threshold - free)

unfoldable pub without_user : Extension → Extension
without_user e = record e {
  user_id = none;
  user_info = none;
  status = reserved;
  caller_id_name = none;
}

unfoldable pub without_tenant : Extension → Extension
without_tenant e = record e { tenant_id = none; status = available }

module _ (out : Outside) where
  -- `getKey`: a refused read finds nothing.
  unfoldable pub read_counter : Task (Option ℕ)
  unfolding ◌>>=◌
  read_counter = do
    answered ← ask out read_top_extension_id
    query (λ t. if answered then t.top_extension_id else none)

  -- `INCRBY` takes a missing key for 0.
  unfoldable pub increment_counter : Task ℕ
  unfolding ◌>>=◌
  increment_counter = do
    request out increment_top_extension_id
    next ← query (λ t. or_else t.top_extension_id 0 + 1)
    write (λ t. with_counter t next)
    pure next

  unfoldable pub allocate : Task ℕ
  unfolding ◌>>=◌
  allocate = do
    max_extension_id ← query (λ t. max_number t.extensions)
    let next_extension_id = max_extension_id + 1
    request out (write_top_extension_id next_extension_id)
    write (λ t. with_counter t next_extension_id)
    pure next_extension_id

  unfoldable pub allocate_locked : Task ℕ
  unfolding ◌>>=◌ read_counter increment_counter allocate
  allocate_locked = do
    recheck ← read_counter
    if is_some recheck then increment_counter else allocate

  unfoldable pub get_next_extension_id : Task ℕ
  unfolding ◌>>=◌ read_counter increment_counter allocate_locked catch_with finally
  get_next_extension_id = do
    cached_top_id ← read_counter
    if is_some cached_top_id then increment_counter else (do
      locked ← ask out acquire_lock
      if locked
          then finally (catch_with internal_server_error allocate_locked) (request out release_lock)
          else throw internal_server_error)

  unfoldable pub create_pool_extension : CreateExtensionInput → Task Extension
  unfolding ◌>>=◌ get_next_extension_id build_extension_entity
  create_pool_extension input = do
    number ← get_next_extension_id
    id ← query out.new_id
    password ← new_password out
    let extension = build_extension_entity input number id password
    save_extension extension
    request out (upsert_pjsip extension)
    pure extension

  -- `for (let index = 0; index < count; index++)`, from an index
  unfoldable pub publish_creates : String → ℕ → ℕ → Task (Unit {0})
  unfolding ◌>>=◌
  publish_creates batch_id index zero = skip
  publish_creates batch_id index (suc left) =
      request out (publish_extension_create batch_id index)
      >> publish_creates batch_id (index + 1) left

  unfoldable pub ensure_available_extension_pool : Task (Option (String × ℕ))
  unfolding ◌>>=◌ replenish_count
  ensure_available_extension_pool = do
    free ← count_available
    if leb min_available_extension_threshold free then pure none else (do
      let wanted = replenish_count free
      batch_id ← query out.new_id
      publish_creates batch_id 0 wanted
      pure (some (batch_id, wanted)))

  unfoldable pub handle_event_extension_create : CreateExtensionInput → Task (Unit {0})
  unfolding ◌>>=◌
  handle_event_extension_create data_ = create_pool_extension data_ >>= λ _. skip

  unfoldable pub assign_one_available_to_tenant : String → Task Extension
  unfolding ◌>>=◌
  assign_one_available_to_tenant tenant_id = do
    extensions ← reserve_available_for_tenant tenant_id 1
    or_throw bad_request (elim extensions [ [] ↦ none | e ∷ es ↦ some e ])

  unfoldable pub assign_available_to_tenant : String → ℕ → Task (List Extension)
  unfolding ◌>>=◌
  assign_available_to_tenant tenant_id n = do
    extensions ← reserve_available_for_tenant tenant_id n
    throw_if (ltb (length extensions) n) bad_request
    pure extensions

  -- `updateExtension` of the provisioning and of the repository
  unfoldable pub provision_and_save : Extension → Task (Unit {0})
  unfolding ◌>>=◌
  provision_and_save e = request out (upsert_pjsip e) >> save_extension e

  unfoldable pub assign_extensions_to_user : String → List String → UserInfo → Task (List Extension)
  unfolding ◌>>=◌
  assign_extensions_to_user tenant_id ids info = do
    extensions ← assign_reserved_extensions_to_user tenant_id ids info
    for_each (λ e. provision_and_save (record e { caller_id_name = some info.name })) extensions
    pure extensions

  unfoldable pub unassign_extension_from_user : String → String → String → Task Extension
  unfolding ◌>>=◌ without_user
  unassign_extension_from_user tenant_id extension_id user_id = do
    found ← get_extension_for_tenant tenant_id extension_id
    extension ← or_throw not_found found
    throw_if (not (holds_text extension.user_id user_id)) bad_request
    provision_and_save (without_user extension)
    pure (without_user extension)

  unfoldable pub unassign_extension_for_tenant : String → String → Task Extension
  unfolding ◌>>=◌ without_user
  unassign_extension_for_tenant tenant_id extension_id = do
    found ← get_extension_for_tenant tenant_id extension_id
    extension ← or_throw not_found found
    throw_if (not (is_some extension.user_id)) bad_request
    provision_and_save (without_user extension)
    pure (without_user extension)

  unfoldable pub unregister_extension_from_tenant : String → String → Task Extension
  unfolding ◌>>=◌ without_tenant
  unregister_extension_from_tenant tenant_id extension_id = do
    found ← get_extension_for_tenant tenant_id extension_id
    extension ← or_throw not_found found
    throw_if (is_some extension.user_id) bad_request
    save_extension (without_tenant extension)
    ensure_available_extension_pool
    pure (without_tenant extension)

  unfoldable pub sync_user_info_on_extensions : String → String → Task (Unit {0})
  unfolding ◌>>=◌
  sync_user_info_on_extensions user_id name = do
    extensions ← get_extensions_by_user_id user_id
    for_each
        (λ e. provision_and_save (record e {
          user_info = some (record { name = name; user_id = user_id });
          caller_id_name = some name;
        }))
        extensions

  unfoldable pub delete_extension : String → Task (Unit {0})
  unfolding ◌>>=◌
  delete_extension id = do
    found ← get_extension id
    existing ← or_throw not_found found
    request out (delete_pjsip existing.number)
    delete_row id

  -- `for (const extension of extensions) { try { ... synced += 1; } catch { errors += 1; } }`
  unfoldable pub sync_each : List Extension → ℕ → ℕ → Task (ℕ × ℕ)
  unfolding ◌>>=◌
  sync_each [] synced errors = pure (synced, errors)
  sync_each (e ∷ es) synced errors = do
    answered ← ask out (upsert_pjsip e)
    sync_each es (if answered then synced + 1 else synced) (if answered then errors else errors + 1)

  -- How many extensions were provisioned again, and how many were refused.
  unfoldable pub sync_all_to_asterisk : Task (ℕ × ℕ)
  unfolding ◌>>=◌ sync_each
  sync_all_to_asterisk = do extensions ← query (λ t. t.extensions); sync_each extensions 0 0
