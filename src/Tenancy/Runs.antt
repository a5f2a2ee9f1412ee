-- ===== src/Tenancy/Runs.antt =====
-- Sequences of operations on extensions, tenants and users, in any order and with any requests refused.
use comm_care.Prelude.{ℕ, String, Option, List, [], ◌∷◌}
use comm_care.Office.{Office, Outside, Outcome, done, thrown, office_after, Task, ◌>>=◌, skip}
use comm_care.Office.Rules.{Post, Contract-bind, Contract-pure}
use comm_care.Extensions.Service
use comm_care.Extensions.Service.{CreateExtensionInput}
use comm_care.Extensions.Sound.{IsSound, IsFresh}
use comm_care.Extensions.Kept.{
  Keeps, unassign_extension_from_user-Keeps, ensure_available_extension_pool-Keeps,
  delete_extension-Keeps,
}
use comm_care.Extensions.Synced.{sync_all_to_asterisk-Contract}
use comm_care.Extensions.Counter.{handle_event_extension_create-Keeps}
use comm_care.Extensions.Assigning.{assign_available_to_tenant-Keeps}
use comm_care.Tenancy
use comm_care.Tenancy.{UpdateTenantUserDto}
use comm_care.Tenancy.Sound.{
  create_tenancy-Keeps, update_tenancy-Keeps, delete_tenancy-Keeps,
  enqueue_bulk_extension_assignment-Keeps, handle_event_bulk_extension_assignment-Keeps,
  unassign_extension-Keeps, unregister_extension-Keeps, create_tenant_user-Keeps,
  assign_to_user-Keeps, update_tenant_user-Keeps, delete_tenant_user-Keeps,
}

-- A request of a client, or an event of the queue.
pub data Command : Type 0 where
  extension_create : CreateExtensionInput → Command
  pool_maintenance sync_all : Command
  delete_extension : String → Command
  assign_available : String → ℕ → Command
  unassign_from_user : String → String → String → Command
  create_tenancy : String → Command
  update_tenancy : String → String → Command
  delete_tenancy : String → Command
  bulk_request : ℕ → String → Command
  bulk_assignment : String → ℕ → Command
  unassign : String → Option String → Command
  unregister : String → Option String → Command
  create_user : Option String → String → List String → Command
  assign_to_user : Option String → String → List String → Command
  update_user : Option String → String → UpdateTenantUserDto → Command
  delete_user : Option String → String → Command

module _ (out : Outside) where
  unfoldable pub operation : Command → Task (Unit {0})
  unfolding ◌>>=◌
  operation (extension_create input) = Service.handle_event_extension_create out input
  operation pool_maintenance = Service.ensure_available_extension_pool out >>= λ _. skip
  operation sync_all = Service.sync_all_to_asterisk out >>= λ _. skip
  operation (delete_extension id) = Service.delete_extension out id
  operation (assign_available tenant_id n) =
      Service.assign_available_to_tenant out tenant_id n >>= λ _. skip
  operation (unassign_from_user tenant_id id user_id) =
      Service.unassign_extension_from_user out tenant_id id user_id >>= λ _. skip
  operation (create_tenancy name) = Tenancy.create_tenancy out name >>= λ _. skip
  operation (update_tenancy id name) = Tenancy.update_tenancy id name >>= λ _. skip
  operation (delete_tenancy id) = Tenancy.delete_tenancy id
  operation (bulk_request n tenant_id) = Tenancy.enqueue_bulk_extension_assignment out n tenant_id
  operation (bulk_assignment tenant_id n) =
      Tenancy.handle_event_bulk_extension_assignment out tenant_id n
  operation (unassign id tenant) = Tenancy.unassign_extension out id tenant >>= λ _. skip
  operation (unregister id tenant) = Tenancy.unregister_extension out id tenant >>= λ _. skip
  operation (create_user tenant name ids) =
      Tenancy.create_tenant_user out tenant name ids >>= λ _. skip
  operation (assign_to_user tenant user_id ids) =
      Tenancy.assign_extensions_to_user out tenant user_id ids >>= λ _. skip
  operation (update_user tenant user_id dto) =
      Tenancy.update_tenant_user out tenant user_id dto >>= λ _. skip
  operation (delete_user tenant user_id) = Tenancy.delete_tenant_user out tenant user_id

  unfoldable pub run : List Command → Office → Office
  run [] o = o
  run (c ∷ cs) o = run cs (office_after (operation c o))

  and_skip : {A : Type 0} {m : Task A} → Keeps m → Keeps (m >>= λ _. skip)
  and_skip k = Contract-bind _ _ k (λ _. Contract-pure tt (λ t s. s))

  operation-Keeps : IsFresh out → (c : Command) → Keeps (operation c)
  unfolding operation
  operation-Keeps fresh (extension_create input) =
      handle_event_extension_create-Keeps out fresh input
  operation-Keeps fresh pool_maintenance = and_skip (ensure_available_extension_pool-Keeps out)
  operation-Keeps fresh sync_all = and_skip (sync_all_to_asterisk-Contract out)
  operation-Keeps fresh (delete_extension id) = delete_extension-Keeps out id
  operation-Keeps fresh (assign_available tenant_id n) =
      and_skip (assign_available_to_tenant-Keeps out tenant_id n)
  operation-Keeps fresh (unassign_from_user tenant_id id user_id) =
      and_skip (unassign_extension_from_user-Keeps out tenant_id id user_id)
  operation-Keeps fresh (create_tenancy name) = and_skip (create_tenancy-Keeps out name)
  operation-Keeps fresh (update_tenancy id name) = and_skip (update_tenancy-Keeps id name)
  operation-Keeps fresh (delete_tenancy id) = delete_tenancy-Keeps id
  operation-Keeps fresh (bulk_request n tenant_id) =
      enqueue_bulk_extension_assignment-Keeps out n tenant_id
  operation-Keeps fresh (bulk_assignment tenant_id n) =
      handle_event_bulk_extension_assignment-Keeps out tenant_id n
  operation-Keeps fresh (unassign id tenant) = and_skip (unassign_extension-Keeps out id tenant)
  operation-Keeps fresh (unregister id tenant) = and_skip (unregister_extension-Keeps out id tenant)
  operation-Keeps fresh (create_user tenant name ids) =
      and_skip (create_tenant_user-Keeps out tenant name ids)
  operation-Keeps fresh (assign_to_user tenant user_id ids) =
      and_skip (assign_to_user-Keeps out tenant user_id ids)
  operation-Keeps fresh (update_user tenant user_id dto) =
      and_skip (update_tenant_user-Keeps out tenant user_id dto)
  operation-Keeps fresh (delete_user tenant user_id) = delete_tenant_user-Keeps out tenant user_id

IsSound-office_after :
    (r : Outcome (Unit {0}))
    → Post (λ x. IsSound) (λ a. IsSound) r
    → IsSound (office_after r).tables
IsSound-office_after (done a o) h = h
IsSound-office_after (thrown x o) h = h

-- If the database makes new ids, then from sound tables, over any operations on extensions, tenants and
-- users, whether they return or throw and whatever requests are refused, the tables stay sound: an
-- available extension has neither tenant nor user, a reserved one a tenant and no user, an assigned one
-- both, and none is disabled; no two extensions have one id or one number, and the counter is not below
-- any number.
pub run-IsSound :
    (out : Outside) (cs : List Command) (o : Office)
    → IsFresh out
    → IsSound o.tables
    → IsSound (run out cs o).tables
unfolding run
run-IsSound out [] o fresh s = s
run-IsSound out (c ∷ cs) o fresh s =
    run-IsSound out cs (office_after (operation out c o)) fresh
      (IsSound-office_after (operation out c o) ((operation-Keeps out fresh c).at o s))
