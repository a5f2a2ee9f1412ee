-- ===== src/Extensions.antt =====
-- The pool of extensions: src/modules/pbx/repositories/extension.repository.ts. Extensions are created
-- available, reserved for a tenant, and assigned to a user of the tenant.
pub mod Service
pub mod Keys
pub mod Sound
pub mod Kept
pub mod Synced
pub mod Counter
pub mod Assigning
pub mod Lowest
pub mod Replenish
use comm_care.Prelude.{
  ℕ, ◌+◌, String, Bool, true, false, not, ◌&&◌, Option, none, some, List, [], ◌∷◌, map,
  if◌then◌else◌, ltb, leb, eqb, ◌==◌, keep, every, includes, is_some, holds_text, length,
}
use comm_care.Entities.{
  Extension, ExtensionStatus, available, reserved, assigned, disabled, UserInfo,
}
use comm_care.Office.{
  Tables, Task, pure, ◌>>=◌, ◌>>◌, query, write, throw_if, Exception, bad_request, not_found,
}
use comm_care.Office.Rows.{find_by_id, update_all, save, delete, take, count}

abbrev pub base_extension_id : ℕ
base_extension_id = 3000

abbrev pub min_available_extension_threshold : ℕ
min_available_extension_threshold = 100

abbrev pub extension_replenish_batch_size : ℕ
extension_replenish_batch_size = 50

abbrev pub extension_id : Extension → String
extension_id e = e.id

abbrev pub has_status : ExtensionStatus → ExtensionStatus → Bool
has_status available available = true
has_status reserved reserved = true
has_status assigned assigned = true
has_status disabled disabled = true
has_status _ _ = false

abbrev pub with_extensions : Tables → List Extension → Tables
with_extensions t es = record t { extensions = es }

-- `createExtension` and `updateExtension`
unfoldable pub save_extension : Extension → Task (Unit {0})
save_extension e = write (λ t. with_extensions t (save extension_id e t.extensions))

unfoldable pub delete_row : String → Task (Unit {0})
delete_row id = write (λ t. with_extensions t (delete extension_id id t.extensions))

unfoldable pub get_extension : String → Task (Option Extension)
get_extension id = query (λ t. find_by_id extension_id id t.extensions)

abbrev pub of_tenant : String → Extension → Bool
of_tenant tenant_id e = holds_text e.tenant_id tenant_id

abbrev pub of_user : String → Extension → Bool
of_user user_id e = holds_text e.user_id user_id

unfoldable pub get_extensions_by_tenant_id : String → Task (List Extension)
get_extensions_by_tenant_id tenant_id = query (λ t. keep (of_tenant tenant_id) t.extensions)

unfoldable pub get_extensions_by_user_id : String → Task (List Extension)
get_extensions_by_user_id user_id = query (λ t. keep (of_user user_id) t.extensions)

unfoldable pub get_extension_for_tenant : String → String → Task (Option Extension)
get_extension_for_tenant tenant_id id =
    query (λ t. find_by_id extension_id id (keep (of_tenant tenant_id) t.extensions))

-- The largest number, or the base where there is no extension.
abbrev pub largest : ℕ → List Extension → ℕ
largest m [] = m
largest m (e ∷ es) = largest (if ltb m e.number then e.number else m) es

unfoldable pub max_number : List Extension → ℕ
max_number [] = base_extension_id
max_number (e ∷ es) = largest e.number es

-- `status = available AND tenantId IS NULL`
abbrev pub is_free : Extension → Bool
is_free e = has_status e.status available && not (is_some e.tenant_id)

unfoldable pub count_available : Task ℕ
count_available = query (λ t. count is_free t.extensions)

-- `ORDER BY CAST(extension AS INTEGER) ASC`
abbrev pub insert_by_number : Extension → List Extension → List Extension
insert_by_number e [] = e ∷ []
insert_by_number e (f ∷ fs) =
    if leb e.number f.number then e ∷ f ∷ fs else f ∷ insert_by_number e fs

abbrev pub order_by_number : List Extension → List Extension
order_by_number [] = []
order_by_number (e ∷ es) = insert_by_number e (order_by_number es)

-- The extensions that a reservation takes. TypeORM takes a limit of 0 for none, so `n` is at least 1; no
-- caller passes 0.
unfoldable pub chosen : ℕ → List Extension → List Extension
chosen n es = take n (order_by_number (keep is_free es))

unfoldable pub reserved_for : String → Extension → Extension
reserved_for tenant_id e = record e { tenant_id = some tenant_id; status = reserved }

unfoldable pub reserve_available_for_tenant : String → ℕ → Task (List Extension)
unfolding chosen reserved_for ◌>>=◌
reserve_available_for_tenant tenant_id n = do
  extensions ← query (λ t. map (reserved_for tenant_id) (chosen n t.extensions))
  write (λ t. with_extensions t (update_all extension_id extensions t.extensions))
  pure extensions

-- `WHERE id IN (ids) AND tenantId = tenant_id`
abbrev pub is_named : List String → String → Extension → Bool
is_named ids tenant_id e = includes ids e.id && of_tenant tenant_id e

abbrev pub may_be_assigned : Extension → Bool
may_be_assigned e = has_status e.status reserved && not (is_some e.user_id)

unfoldable pub assigned_to : UserInfo → Extension → Extension
assigned_to info e = record e {
  user_id = some info.user_id;
  user_info = some info;
  status = assigned;
  caller_id_name = some info.name;
}

-- A throw inside the transaction leaves the tables as they were.
unfoldable pub assign_reserved_extensions_to_user :
    String → List String → UserInfo → Task (List Extension)
unfolding assigned_to ◌>>=◌
assign_reserved_extensions_to_user tenant_id ids info = do
  found ← query (λ t. keep (is_named ids tenant_id) t.extensions)
  throw_if (not (eqb (length found) (length ids))) not_found
  throw_if (not (every may_be_assigned found)) bad_request
  let extensions = map (assigned_to info) found
  write (λ t. with_extensions t (update_all extension_id extensions t.extensions))
  pure extensions
