-- ===== src/Tenancy.antt =====
-- Tenants, their users and the extensions that they hold: src/modules/tenancy and
-- src/modules/iam/services/user.service.ts. A tenant counts its reserved and its assigned extensions.
pub mod Counting
pub mod Quota
pub mod Changes
pub mod Counted
pub mod Releases
pub mod Saved
pub mod Handover
pub mod Steps
pub mod Quotas
pub mod Sound
pub mod Runs
use comm_care.Prelude.{
  ℕ, zero, suc, ◌+◌, String, Bool, true, false, not, Option, none, some, List, [], ◌∷◌, map,
  if◌then◌else◌, leb, ◌==◌, keep, is_some, holds_text, present, length,
}
use comm_care.Entities.{Extension, UserInfo}
use comm_care.Office.{
  Tables, Tenant, User, UserStatus, active, Outside, Task, pure, skip, throw, ◌>>=◌, ◌>>◌, query,
  write, or_throw, throw_if, for_each, request, Exception, bad_request, forbidden, not_found,
  publish_bulk_assignment,
}
use comm_care.Office.Rows.{ℤ, pos, raise, lower, find_by_id, save, delete}
use comm_care.Extensions.{
  count_available, get_extensions_by_tenant_id, get_extensions_by_user_id, of_user,
}
use comm_care.Extensions.Service

abbrev pub tenant_id_of : Tenant → String
tenant_id_of t = t.id

abbrev pub user_id_of : User → String
user_id_of u = u.id

abbrev pub with_tenants : Tables → List Tenant → Tables
with_tenants t ts = record t { tenants = ts }

abbrev pub with_users : Tables → List User → Tables
with_users t us = record t { users = us }

-- `UPDATE tenants SET ... WHERE id = tenant_id`; without a tenant of that id nothing changes.
unfoldable pub change_tenant : String → (Tenant → Tenant) → List Tenant → List Tenant
change_tenant id f ts = map (λ t. if t.id == id then f t else t) ts

unfoldable pub find_tenant : String → Task (Option Tenant)
find_tenant id = query (λ t. find_by_id tenant_id_of id t.tenants)

unfoldable pub find_by_id_or_throw : String → Task Tenant
unfolding ◌>>=◌ find_tenant
find_by_id_or_throw id = find_tenant id >>= or_throw not_found

unfoldable pub save_tenant : Tenant → Task (Unit {0})
save_tenant x = write (λ t. with_tenants t (save tenant_id_of x t.tenants))

unfoldable pub update_tenancy : String → String → Task Tenant
unfolding ◌>>=◌ find_by_id_or_throw save_tenant
update_tenancy id name = do
  tenant ← find_by_id_or_throw id
  let renamed = record tenant { name = name }
  save_tenant renamed
  pure renamed

unfoldable pub delete_tenancy : String → Task (Unit {0})
unfolding ◌>>=◌ find_by_id_or_throw
delete_tenancy id = do
  tenant ← find_by_id_or_throw id
  write (λ t. with_tenants t (delete tenant_id_of id t.tenants))

-- `adjustExtensionStats`, as the four callers use it
abbrev pub count_reserved : ℕ → Tenant → Tenant
count_reserved n t = record t { reserved_extension_count = raise t.reserved_extension_count n }

abbrev pub count_assigned : ℕ → Tenant → Tenant
count_assigned n t = record t {
  reserved_extension_count = lower t.reserved_extension_count n;
  assigned_extension_count = raise t.assigned_extension_count n;
}

abbrev pub count_unassigned : Tenant → Tenant
count_unassigned t = record t {
  reserved_extension_count = raise t.reserved_extension_count 1;
  assigned_extension_count = lower t.assigned_extension_count 1;
}

abbrev pub count_unregistered : Tenant → Tenant
count_unregistered t = record t { reserved_extension_count = lower t.reserved_extension_count 1 }

unfoldable pub adjust_extension_stats : String → (Tenant → Tenant) → Task (Unit {0})
adjust_extension_stats id f = write (λ t. with_tenants t (change_tenant id f t.tenants))

unfoldable pub on_extensions_reserved : String → Task (Unit {0})
on_extensions_reserved id = adjust_extension_stats id (count_reserved 1)

unfoldable pub on_extensions_assigned : String → ℕ → Task (Unit {0})
on_extensions_assigned id n = adjust_extension_stats id (count_assigned n)

unfoldable pub on_extension_unassigned : String → Task (Unit {0})
on_extension_unassigned id = adjust_extension_stats id count_unassigned

unfoldable pub on_extension_unregistered : String → Task (Unit {0})
on_extension_unregistered id = adjust_extension_stats id count_unregistered

-- `user.service.ts`
unfoldable pub find_user : String → Task (Option User)
find_user id = query (λ t. find_by_id user_id_of id t.users)

unfoldable pub save_user : User → Task (Unit {0})
save_user u = write (λ t. with_users t (save user_id_of u t.users))

unfoldable pub delete_user : User → Task (Unit {0})
delete_user u = write (λ t. with_users t (delete user_id_of u.id t.users))

-- `if (!tenantId) throw`, with the tenant of the session
unfoldable pub require_tenant : Option String → Task String
require_tenant tenant_id = or_throw forbidden (present tenant_id)

-- A user of the tenant.
unfoldable pub find_tenant_user : String → String → Task User
unfolding ◌>>=◌ find_user
find_tenant_user tenant_id user_id = do
  found ← find_user user_id
  user ← or_throw not_found found
  throw_if (not (holds_text user.tenant_id tenant_id)) not_found
  pure user

pub record UpdateTenantUserDto : Type 0 where
  pub name : Option String
  pub status : Option UserStatus

-- What `listTenantUsers` shows of a user.
pub record ListedUser : Type 0 where
  pub user : User
  pub extensions : List Extension

abbrev new_tenant : String → String → Tenant
new_tenant id name = record {
  id = id;
  name = name;
  assigned_extension_count = pos 0;
  reserved_extension_count = pos 0;
}

abbrev new_user : String → String → String → User
new_user id name tenant_id = record {
  id = id;
  name = name;
  tenant_id = some tenant_id;
  status = active;
}

module _ (out : Outside) where
  unfoldable pub create_tenancy : String → Task Tenant
  unfolding ◌>>=◌ save_tenant
  create_tenancy name = do
    id ← query out.new_id
    let tenant = new_tenant id name
    save_tenant tenant
    pure tenant

  unfoldable pub create_user : String → String → Task User
  unfolding ◌>>=◌ save_user
  create_user name tenant_id = do
    id ← query out.new_id
    let user = new_user id name tenant_id
    save_user user
    pure user

  unfoldable pub enqueue_bulk_extension_assignment : ℕ → String → Task (Unit {0})
  unfolding ◌>>=◌
  enqueue_bulk_extension_assignment n tenant_id = do
    find_by_id_or_throw tenant_id
    free ← count_available
    throw_if (leb free n) bad_request
    batch_id ← query out.new_id
    request out (publish_bulk_assignment batch_id tenant_id n)

  -- `for (let index = 0; index < data.count; index++)`
  unfoldable pub assign_one_by_one : String → ℕ → Task (Unit {0})
  unfolding ◌>>=◌
  assign_one_by_one tenant_id zero = skip
  assign_one_by_one tenant_id (suc left) =
      Service.assign_one_available_to_tenant out tenant_id
      >> (on_extensions_reserved tenant_id >> assign_one_by_one tenant_id left)

  unfoldable pub handle_event_bulk_extension_assignment : String → ℕ → Task (Unit {0})
  unfolding ◌>>=◌
  handle_event_bulk_extension_assignment tenant_id n = do
    assign_one_by_one tenant_id n
    Service.ensure_available_extension_pool out
    skip

  unfoldable pub unassign_extension : String → Option String → Task Extension
  unfolding ◌>>=◌
  unassign_extension extension_id tenant = do
    tenant_id ← require_tenant tenant
    extension ← Service.unassign_extension_for_tenant out tenant_id extension_id
    on_extension_unassigned tenant_id
    pure extension

  unfoldable pub unregister_extension : String → Option String → Task Extension
  unfolding ◌>>=◌
  unregister_extension extension_id tenant = do
    tenant_id ← require_tenant tenant
    extension ← Service.unregister_extension_from_tenant out tenant_id extension_id
    on_extension_unregistered tenant_id
    pure extension

  -- The extensions go to the user and are counted.
  unfoldable pub hand_over : String → List String → UserInfo → Task (List Extension)
  unfolding ◌>>=◌
  hand_over tenant_id ids info = do
    extensions ← Service.assign_extensions_to_user out tenant_id ids info
    on_extensions_assigned tenant_id (length extensions)
    pure extensions

  unfoldable pub create_tenant_user : Option String → String → List String → Task (List Extension)
  unfolding ◌>>=◌ hand_over create_user
  create_tenant_user tenant name ids = do
    tenant_id ← require_tenant tenant
    user ← create_user name tenant_id
    hand_over tenant_id ids (record { name = name; user_id = user.id })

  unfoldable pub assign_extensions_to_user :
      Option String → String → List String → Task (List Extension)
  unfolding ◌>>=◌ hand_over find_tenant_user
  assign_extensions_to_user tenant user_id ids = do
    tenant_id ← require_tenant tenant
    user ← find_tenant_user tenant_id user_id
    hand_over tenant_id ids (record { name = user.name; user_id = user.id })

  -- `dto.name !== undefined`
  unfoldable pub rename : Option String → User → Task User
  unfolding ◌>>=◌
  rename none user = pure user
  rename (some name) user =
      save_user (record user { name = name })
      >> (Service.sync_user_info_on_extensions out user.id name
          >> pure (record user { name = name }))

  unfoldable pub restatus : Option UserStatus → User → Task User
  unfolding ◌>>=◌
  restatus none user = pure user
  restatus (some status) user =
      save_user (record user { status = status }) >> pure (record user { status = status })

  unfoldable pub update_tenant_user : Option String → String → UpdateTenantUserDto → Task User
  unfolding ◌>>=◌ rename restatus
  update_tenant_user tenant user_id dto = do
    tenant_id ← require_tenant tenant
    user ← find_tenant_user tenant_id user_id
    renamed ← rename dto.name user
    restatus dto.status renamed

  unfoldable pub list_tenant_users : Option String → Task (List ListedUser)
  unfolding ◌>>=◌
  list_tenant_users tenant = do
    tenant_id ← require_tenant tenant
    users ← query (λ t. keep (λ u. holds_text u.tenant_id tenant_id) t.users)
    extensions ← get_extensions_by_tenant_id tenant_id
    pure (map (λ u. record { user = u; extensions = keep (of_user u.id) extensions }) users)

  unfoldable pub take_back : String → Extension → Task (Unit {0})
  unfolding ◌>>=◌
  take_back tenant_id e =
      Service.unassign_extension_for_tenant out tenant_id e.id >> on_extension_unassigned tenant_id

  unfoldable pub delete_tenant_user : Option String → String → Task (Unit {0})
  unfolding ◌>>=◌ take_back find_tenant_user
  delete_tenant_user tenant user_id = do
    tenant_id ← require_tenant tenant
    user ← find_tenant_user tenant_id user_id
    extensions ← get_extensions_by_user_id user_id
    for_each (take_back tenant_id) extensions
    delete_user user
