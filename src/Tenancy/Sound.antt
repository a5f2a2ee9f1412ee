-- ===== src/Tenancy/Sound.antt =====
-- The operations of the tenants keep the table of extensions sound, whether they return or throw.
use comm_care.Prelude.{ℕ, zero, suc, String, Option, none, some, List, leb}
use comm_care.Entities.{UserInfo}
use comm_care.Office.{
  Tables, Tenant, User, UserStatus, Outside, Task, pure, ◌>>=◌, query, write, bad_request,
  forbidden, not_found,
}
use comm_care.Office.Rules.{
  Contract-pure, Contract-query, Contract-or_throw, Contract-write, Contract-throw_if,
  Contract-bind, Contract-request, Contract-for_each,
}
use comm_care.Extensions.{count_available, get_extensions_by_user_id}
use comm_care.Extensions.Kept.{
  Keeps, unassign_extension_for_tenant-Keeps, unregister_extension_from_tenant-Keeps,
  ensure_available_extension_pool-Keeps, sync_user_info_on_extensions-Keeps,
}
use comm_care.Extensions.Assigning.{
  assign_one_available_to_tenant-Keeps, assign_extensions_to_user-Keeps,
}
use comm_care.Tenancy
use comm_care.Tenancy.{
  with_tenants, with_users, find_by_id_or_throw, find_tenant, save_tenant, adjust_extension_stats,
  on_extensions_reserved, on_extensions_assigned, on_extension_unassigned,
  on_extension_unregistered, find_user, save_user, delete_user, require_tenant, find_tenant_user,
  UpdateTenantUserDto,
}

then_Keeps :
    {A B : Type 0} (m : Task A) (f : A → Task B)
    → Keeps m
    → ((a : A) → Keeps (f a))
    → Keeps (m >>= f)
then_Keeps m f c k = Contract-bind m f c k

query-Keeps : {A : Type 0} (f : Tables → A) → Keeps (query f)
query-Keeps f = Contract-query f (λ t s. s)

tenants-Keeps : (f : Tables → List Tenant) → Keeps (write (λ t. with_tenants t (f t)))
tenants-Keeps f = Contract-write _ (λ t s. record { tidy = s.tidy; keyed = s.keyed })

users-Keeps : (f : Tables → List User) → Keeps (write (λ t. with_users t (f t)))
users-Keeps f = Contract-write _ (λ t s. record { tidy = s.tidy; keyed = s.keyed })

done-Keeps : {A : Type 0} (a : A) → Keeps (pure a)
done-Keeps a = Contract-pure a (λ t s. s)

require_tenant-Keeps : (tenant : Option String) → Keeps (require_tenant tenant)
unfolding require_tenant
require_tenant-Keeps tenant = Contract-or_throw forbidden _ (λ t s e. s) (λ a t s e. s)

adjust-Keeps : (id : String) (f : Tenant → Tenant) → Keeps (adjust_extension_stats id f)
unfolding adjust_extension_stats
adjust-Keeps id f = tenants-Keeps _

find_by_id_or_throw-Keeps : (id : String) → Keeps (find_by_id_or_throw id)
unfolding find_by_id_or_throw find_tenant
find_by_id_or_throw-Keeps id =
    then_Keeps _ _ (query-Keeps _) (λ o. Contract-or_throw not_found o (λ t s e. s) (λ a t s e. s))

find_tenant_user-Keeps : (tenant_id user_id : String) → Keeps (find_tenant_user tenant_id user_id)
unfolding find_tenant_user find_user
find_tenant_user-Keeps tenant_id user_id = then_Keeps _ _ (query-Keeps _) (λ o.
    then_Keeps _ _ (Contract-or_throw not_found o (λ t s e. s) (λ a t s e. s)) (λ user.
      then_Keeps _ _ (Contract-throw_if _ not_found (λ t s e. s) (λ t s e. s))
        (λ _. done-Keeps user)))

save_user-Keeps : (u : User) → Keeps (save_user u)
unfolding save_user
save_user-Keeps u = users-Keeps _

pub update_tenancy-Keeps : (id name : String) → Keeps (Tenancy.update_tenancy id name)
unfolding Tenancy.update_tenancy save_tenant
update_tenancy-Keeps id name =
    then_Keeps _ _ (find_by_id_or_throw-Keeps id)
      (λ tenant. then_Keeps _ _ (tenants-Keeps _) (λ _. done-Keeps (record tenant { name = name })))

pub delete_tenancy-Keeps : (id : String) → Keeps (Tenancy.delete_tenancy id)
unfolding Tenancy.delete_tenancy
delete_tenancy-Keeps id = then_Keeps _ _ (find_by_id_or_throw-Keeps id) (λ tenant. tenants-Keeps _)

module _ (out : Outside) where
  pub create_tenancy-Keeps : (name : String) → Keeps (Tenancy.create_tenancy out name)
  unfolding Tenancy.create_tenancy save_tenant
  create_tenancy-Keeps name =
      then_Keeps _ _ (query-Keeps _) (λ id. then_Keeps _ _ (tenants-Keeps _) (λ _. done-Keeps _))

  pub enqueue_bulk_extension_assignment-Keeps :
      (n : ℕ) (tenant_id : String)
      → Keeps (Tenancy.enqueue_bulk_extension_assignment out n tenant_id)
  unfolding Tenancy.enqueue_bulk_extension_assignment count_available
  enqueue_bulk_extension_assignment-Keeps n tenant_id =
      then_Keeps _ _ (find_by_id_or_throw-Keeps tenant_id) (λ _.
        then_Keeps _ _ (query-Keeps _) (λ free.
          then_Keeps _ _ (Contract-throw_if (leb free n) bad_request (λ t s e. s) (λ t s e. s))
            (λ _. then_Keeps _ _ (query-Keeps _) (λ batch_id. Contract-request out _ (λ t s. s)))))

  assign_one_by_one-Keeps :
      (tenant_id : String) (n : ℕ) → Keeps (Tenancy.assign_one_by_one out tenant_id n)
  unfolding Tenancy.assign_one_by_one on_extensions_reserved
  assign_one_by_one-Keeps tenant_id zero = done-Keeps tt
  assign_one_by_one-Keeps tenant_id (suc left) =
      then_Keeps _ _ (assign_one_available_to_tenant-Keeps out tenant_id) (λ _.
        then_Keeps _ _ (adjust-Keeps tenant_id _) (λ _. assign_one_by_one-Keeps tenant_id left))

  pub handle_event_bulk_extension_assignment-Keeps :
      (tenant_id : String) (n : ℕ)
      → Keeps (Tenancy.handle_event_bulk_extension_assignment out tenant_id n)
  unfolding Tenancy.handle_event_bulk_extension_assignment
  handle_event_bulk_extension_assignment-Keeps tenant_id n =
      then_Keeps _ _ (assign_one_by_one-Keeps tenant_id n)
        (λ _. then_Keeps _ _ (ensure_available_extension_pool-Keeps out) (λ _. done-Keeps tt))

  pub unassign_extension-Keeps :
      (id : String) (tenant : Option String) → Keeps (Tenancy.unassign_extension out id tenant)
  unfolding Tenancy.unassign_extension on_extension_unassigned
  unassign_extension-Keeps id tenant = then_Keeps _ _ (require_tenant-Keeps tenant) (λ tenant_id.
      then_Keeps _ _ (unassign_extension_for_tenant-Keeps out tenant_id id)
        (λ e. then_Keeps _ _ (adjust-Keeps tenant_id _) (λ _. done-Keeps e)))

  pub unregister_extension-Keeps :
      (id : String) (tenant : Option String) → Keeps (Tenancy.unregister_extension out id tenant)
  unfolding Tenancy.unregister_extension on_extension_unregistered
  unregister_extension-Keeps id tenant = then_Keeps _ _ (require_tenant-Keeps tenant) (λ tenant_id.
      then_Keeps _ _ (unregister_extension_from_tenant-Keeps out tenant_id id)
        (λ e. then_Keeps _ _ (adjust-Keeps tenant_id _) (λ _. done-Keeps e)))

  hand_over-Keeps :
      (tenant_id : String) (ids : List String) (info : UserInfo)
      → Keeps (Tenancy.hand_over out tenant_id ids info)
  unfolding Tenancy.hand_over on_extensions_assigned
  hand_over-Keeps tenant_id ids info =
      then_Keeps _ _ (assign_extensions_to_user-Keeps out tenant_id ids info)
        (λ es. then_Keeps _ _ (adjust-Keeps tenant_id _) (λ _. done-Keeps es))

  pub create_tenant_user-Keeps :
      (tenant : Option String) (name : String) (ids : List String)
      → Keeps (Tenancy.create_tenant_user out tenant name ids)
  unfolding Tenancy.create_tenant_user Tenancy.create_user
  create_tenant_user-Keeps tenant name ids =
      then_Keeps _ _ (require_tenant-Keeps tenant) (λ tenant_id.
        then_Keeps _ _
          (then_Keeps _ _ (query-Keeps _)
            (λ id. then_Keeps _ _ (save_user-Keeps _) (λ _. done-Keeps _)))
          (λ user. hand_over-Keeps tenant_id ids (record { name = name; user_id = user.id })))

  pub assign_to_user-Keeps :
      (tenant : Option String) (user_id : String) (ids : List String)
      → Keeps (Tenancy.assign_extensions_to_user out tenant user_id ids)
  unfolding Tenancy.assign_extensions_to_user
  assign_to_user-Keeps tenant user_id ids =
      then_Keeps _ _ (require_tenant-Keeps tenant) (λ tenant_id.
        then_Keeps _ _ (find_tenant_user-Keeps tenant_id user_id)
          (λ user. hand_over-Keeps tenant_id ids (record { name = user.name; user_id = user.id })))

  rename-Keeps : (name : Option String) (u : User) → Keeps (Tenancy.rename out name u)
  unfolding Tenancy.rename
  rename-Keeps none u = done-Keeps u
  rename-Keeps (some name) u =
      then_Keeps _ _ (save_user-Keeps _)
        (λ _. then_Keeps _ _ (sync_user_info_on_extensions-Keeps out u.id name) (λ _. done-Keeps _))

  restatus-Keeps : (status : Option UserStatus) (u : User) → Keeps (Tenancy.restatus out status u)
  unfolding Tenancy.restatus
  restatus-Keeps none u = done-Keeps u
  restatus-Keeps (some status) u = then_Keeps _ _ (save_user-Keeps _) (λ _. done-Keeps _)

  pub update_tenant_user-Keeps :
      (tenant : Option String) (user_id : String) (dto : UpdateTenantUserDto)
      → Keeps (Tenancy.update_tenant_user out tenant user_id dto)
  unfolding Tenancy.update_tenant_user
  update_tenant_user-Keeps tenant user_id dto =
      then_Keeps _ _ (require_tenant-Keeps tenant) (λ tenant_id.
        then_Keeps _ _ (find_tenant_user-Keeps tenant_id user_id) (λ user.
          then_Keeps _ _ (rename-Keeps dto.name user)
            (λ renamed. restatus-Keeps dto.status renamed)))

  pub delete_tenant_user-Keeps :
      (tenant : Option String) (user_id : String)
      → Keeps (Tenancy.delete_tenant_user out tenant user_id)
  unfolding Tenancy.delete_tenant_user get_extensions_by_user_id Tenancy.take_back
      on_extension_unassigned delete_user
  delete_tenant_user-Keeps tenant user_id =
      then_Keeps _ _ (require_tenant-Keeps tenant) (λ tenant_id.
        then_Keeps _ _ (find_tenant_user-Keeps tenant_id user_id) (λ user.
          then_Keeps _ _ (query-Keeps _) (λ es.
            then_Keeps _ _
              (Contract-for_each _ es (λ e.
                then_Keeps _ _ (unassign_extension_for_tenant-Keeps out tenant_id e.id)
                  (λ _. adjust-Keeps tenant_id _)))
              (λ _. users-Keeps _))))
