-- ===== src/Tenancy/Steps.antt =====
-- The operations of the tenants keep the counters in step with the table of extensions.
use comm_care.Prelude.{ℕ, zero, suc, String, Option, none, some, List}
use comm_care.Entities.{Extension}
use comm_care.Office.{
  Tenant, Tables, Outside, Task, pure, ◌>>=◌, query, write, forbidden, not_found, User, UserStatus,
}
use comm_care.Office.Rules.{
  Contract, Contract-pure, Contract-query, Contract-or_throw, Contract-write, Contract-throw_if,
  Contract-bind, Contract-for_each,
}
use comm_care.Extensions.{get_extensions_by_user_id}
use comm_care.Tenancy
use comm_care.Tenancy.{
  tenant_id_of, with_tenants, with_users, change_tenant, UpdateTenantUserDto, count_reserved,
  count_assigned, count_unassigned, count_unregistered, adjust_extension_stats,
}
use comm_care.Tenancy.Counted.{InStepAfter, InStep, in_step, adjust-Contract, ensure-Contract}
use comm_care.Tenancy.Releases.{
  assign_one-InStepAfter, unassign-InStepAfter, unregister-InStepAfter,
}
use comm_care.Tenancy.Handover.{hand_over-InStep, sync_user_info-InStep}

abbrev pub Steps : {A : Type 0} → Task A → Type 0
Steps m = Contract in_step InStep m (λ _. InStep)

pub then_Steps :
    {A B : Type 0} (m : Task A) (f : A → Task B)
    → Steps m
    → ((a : A) → Steps (f a))
    → Steps (m >>= f)
then_Steps m f c k = Contract-bind m f c k

pub query-Steps : {A : Type 0} (f : Tables → A) → Steps (query f)
query-Steps f = Contract-query f (λ t s. s)

pub pure-Steps : {A : Type 0} (a : A) → Steps (pure a)
pure-Steps a = Contract-pure a (λ t s. s)

users-Steps : (f : Tables → List User) → Steps (write (λ t. with_users t (f t)))
users-Steps f = Contract-write _ (λ t s. (record { tidy = s.0.tidy; keyed = s.0.keyed }, s.1))

require_tenant-Steps : (tenant : Option String) → Steps (Tenancy.require_tenant tenant)
unfolding Tenancy.require_tenant
require_tenant-Steps tenant = Contract-or_throw forbidden _ (λ t s e. s) (λ a t s e. s)

find_tenant_user-Steps :
    (tenant_id user_id : String) → Steps (Tenancy.find_tenant_user tenant_id user_id)
unfolding Tenancy.find_tenant_user Tenancy.find_user
find_tenant_user-Steps tenant_id user_id = then_Steps _ _ (query-Steps _) (λ o.
    then_Steps _ _ (Contract-or_throw not_found o (λ t s e. s) (λ a t s e. s)) (λ user.
      then_Steps _ _ (Contract-throw_if _ not_found (λ t s e. s) (λ t s e. s))
        (λ _. pure-Steps user)))

-- What follows the count of a change starts in step.
count_then :
    {A : Type 0} (id : String) (f : Tenant → Tenant) (k : Unit {0} → Task A)
    → ((u : Unit {0}) → Steps (k u))
    → Contract in_step
        (InStepAfter (change_tenant id f))
        (adjust_extension_stats id f >>= k)
        (λ _. InStep)
count_then id f k c = Contract-bind _ k (adjust-Contract id f) c

module _ (out : Outside) where
  assign_one_by_one-Steps :
      (tenant_id : String) (n : ℕ) → Steps (Tenancy.assign_one_by_one out tenant_id n)
  unfolding Tenancy.assign_one_by_one Tenancy.on_extensions_reserved
  assign_one_by_one-Steps tenant_id zero = pure-Steps tt
  assign_one_by_one-Steps tenant_id (suc left) =
      Contract-bind _ _ (assign_one-InStepAfter tenant_id out) (λ e.
        count_then tenant_id (count_reserved 1) _ (λ _. assign_one_by_one-Steps tenant_id left))

  pub bulk-Steps :
      (tenant_id : String) (n : ℕ)
      → Steps (Tenancy.handle_event_bulk_extension_assignment out tenant_id n)
  unfolding Tenancy.handle_event_bulk_extension_assignment
  bulk-Steps tenant_id n =
      then_Steps _ _ (assign_one_by_one-Steps tenant_id n)
        (λ _. then_Steps _ _ (ensure-Contract out) (λ _. pure-Steps tt))

  pub unassign-Steps :
      (id : String) (tenant : Option String) → Steps (Tenancy.unassign_extension out id tenant)
  unfolding Tenancy.unassign_extension Tenancy.on_extension_unassigned
  unassign-Steps id tenant = then_Steps _ _ (require_tenant-Steps tenant) (λ tenant_id.
      Contract-bind _ _ (unassign-InStepAfter tenant_id out id)
        (λ e. count_then tenant_id count_unassigned _ (λ _. pure-Steps e)))

  pub unregister-Steps :
      (id : String) (tenant : Option String) → Steps (Tenancy.unregister_extension out id tenant)
  unfolding Tenancy.unregister_extension Tenancy.on_extension_unregistered
  unregister-Steps id tenant = then_Steps _ _ (require_tenant-Steps tenant) (λ tenant_id.
      Contract-bind _ _ (unregister-InStepAfter tenant_id out id)
        (λ e. count_then tenant_id count_unregistered _ (λ _. pure-Steps e)))

  pub create_user-Steps :
      (tenant : Option String) (name : String) (ids : List String)
      → Steps (Tenancy.create_tenant_user out tenant name ids)
  unfolding Tenancy.create_tenant_user Tenancy.create_user Tenancy.save_user
  create_user-Steps tenant name ids = then_Steps _ _ (require_tenant-Steps tenant) (λ tenant_id.
      then_Steps _ _
        (then_Steps _ _ (query-Steps _) (λ id. then_Steps _ _ (users-Steps _) (λ _. pure-Steps _)))
        (λ user. hand_over-InStep tenant_id ids (record { name = name; user_id = user.id }) out))

  pub assign_to_user-Steps :
      (tenant : Option String) (user_id : String) (ids : List String)
      → Steps (Tenancy.assign_extensions_to_user out tenant user_id ids)
  unfolding Tenancy.assign_extensions_to_user
  assign_to_user-Steps tenant user_id ids =
      then_Steps _ _ (require_tenant-Steps tenant) (λ tenant_id.
        then_Steps _ _ (find_tenant_user-Steps tenant_id user_id) (λ user.
          hand_over-InStep tenant_id ids (record { name = user.name; user_id = user.id }) out))

  rename-Steps : (name : Option String) (u : User) → Steps (Tenancy.rename out name u)
  unfolding Tenancy.rename Tenancy.save_user
  rename-Steps none u = pure-Steps u
  rename-Steps (some name) u =
      then_Steps _ _ (users-Steps _)
        (λ _. then_Steps _ _ (sync_user_info-InStep out u.id name) (λ _. pure-Steps _))

  restatus-Steps : (status : Option UserStatus) (u : User) → Steps (Tenancy.restatus out status u)
  unfolding Tenancy.restatus Tenancy.save_user
  restatus-Steps none u = pure-Steps u
  restatus-Steps (some status) u = then_Steps _ _ (users-Steps _) (λ _. pure-Steps _)

  pub update_user-Steps :
      (tenant : Option String) (user_id : String) (dto : UpdateTenantUserDto)
      → Steps (Tenancy.update_tenant_user out tenant user_id dto)
  unfolding Tenancy.update_tenant_user
  update_user-Steps tenant user_id dto = then_Steps _ _ (require_tenant-Steps tenant) (λ tenant_id.
      then_Steps _ _ (find_tenant_user-Steps tenant_id user_id) (λ user.
        then_Steps _ _ (rename-Steps dto.name user) (λ renamed. restatus-Steps dto.status renamed)))

  take_back-Steps : (tenant_id : String) (e : Extension) → Steps (Tenancy.take_back out tenant_id e)
  unfolding Tenancy.take_back Tenancy.on_extension_unassigned
  take_back-Steps tenant_id e =
      Contract-bind _ _ (unassign-InStepAfter tenant_id out e.id)
        (λ x. adjust-Contract tenant_id count_unassigned)

  pub delete_user-Steps :
      (tenant : Option String) (user_id : String)
      → Steps (Tenancy.delete_tenant_user out tenant user_id)
  unfolding Tenancy.delete_tenant_user get_extensions_by_user_id Tenancy.delete_user
  delete_user-Steps tenant user_id = then_Steps _ _ (require_tenant-Steps tenant) (λ tenant_id.
      then_Steps _ _ (find_tenant_user-Steps tenant_id user_id) (λ user.
        then_Steps _ _ (query-Steps _) (λ es.
          then_Steps _ _ (Contract-for_each _ es (λ e. take_back-Steps tenant_id e))
            (λ _. users-Steps _))))
