-- ===== src/Tenancy/Quotas.antt =====
-- The abstract view of the tenants, kept by every run: the counters of a tenant are the numbers of its
-- extensions.
use comm_care.Prelude.{
  ℕ, String, ◌≡◌, sym, ap, arith, Bool, true, false, ◌&&◌, some, List, [], ◌∷◌, All, All-keep, leb,
}
use comm_care.Entities.{ExtensionStatus, reserved, assigned}
use comm_care.Office.{
  Tables, Tenant, Outside, Task, skip, ◌>>=◌, write, bad_request, forbidden, not_found, conflict,
  internal_server_error, refused, Office, Outcome, done, thrown, office_after,
}
use comm_care.Office.Rows.{All-find_by_id, All-save, delete, pos, count}
use comm_care.Office.Rules.{
  Contract, Contract-query, Contract-or_throw, Contract-write, Contract-throw_if, Contract-bind,
  Contract-weaken, Contract-request, Post,
}
use comm_care.Extensions.{count_available}
use comm_care.Tenancy
use comm_care.Tenancy.{
  tenant_id_of, with_tenants, with_users, change_tenant, UpdateTenantUserDto, count_reserved,
  count_assigned, count_unassigned, count_unregistered, adjust_extension_stats,
}
use comm_care.Tenancy.Counting.{held}
use comm_care.Tenancy.Quota.{Counts}
use comm_care.Tenancy.Counted.{InStep, in_step, ensure-Contract}
use comm_care.Extensions.Synced.{sync_all_to_asterisk-Contract}
use comm_care.Tenancy.Runs.{
  Command, extension_create, pool_maintenance, sync_all, create_tenancy, update_tenancy,
  delete_tenancy, bulk_request, bulk_assignment, unassign, unregister, create_user, assign_to_user,
  update_user, delete_user, delete_extension, assign_available, unassign_from_user, operation, run,
}
use comm_care.Tenancy.Steps.{
  Steps, then_Steps, query-Steps, pure-Steps, bulk-Steps, unassign-Steps, unregister-Steps,
  create_user-Steps, assign_to_user-Steps, update_user-Steps, delete_user-Steps,
}

-- The operations of the tenancy services.
abbrev pub IsTenancyCommand : Command → Type 0
IsTenancyCommand (extension_create input) = ⊥
IsTenancyCommand (delete_extension id) = ⊥
IsTenancyCommand (assign_available tenant_id n) = ⊥
IsTenancyCommand (unassign_from_user tenant_id id user_id) = ⊥
IsTenancyCommand _ = Unit

-- A new tenant holds nothing.
abbrev pub IsNewTenant : Outside → Type 0
IsNewTenant out =
    (t : Tables) (s : ExtensionStatus) → count (held s (out.new_id t)) t.extensions ≡ 0

tenants-Steps :
    (f : Tables → List Tenant)
    → ((t : Tables) → InStep t → All (Counts t.extensions) (f t))
    → Steps (write (λ t. with_tenants t (f t)))
tenants-Steps f c = Contract-write _ (λ t s. (record { tidy = s.0.tidy; keyed = s.0.keyed }, c t s))

find_tenant-Contract :
    (id : String)
    → Contract in_step InStep
        (Tenancy.find_by_id_or_throw id)
        (λ tenant t. InStep t × Counts t.extensions tenant)
unfolding Tenancy.find_by_id_or_throw Tenancy.find_tenant
find_tenant-Contract id =
    Contract-bind {Q = λ o t. InStep t × ((x : Tenant) → o ≡ some x → Counts t.extensions x)} _ _
      (Contract-query _ (λ t s.
        (s, λ x found. All-find_by_id tenant_id_of (Counts t.extensions) id t.tenants x s.1 found)))
      (λ o. Contract-or_throw not_found o (λ t p e. p.0) (λ x t p e. (p.0, p.1 x e)))

update_tenancy-Steps : (id name : String) → Steps (Tenancy.update_tenancy id name)
unfolding Tenancy.update_tenancy Tenancy.save_tenant
update_tenancy-Steps id name = Contract-bind _ _ (find_tenant-Contract id) (λ tenant.
    Contract-bind {Q = λ _. InStep} _ _
      (Contract-write _ (λ t p. (
        record { tidy = p.0.0.tidy; keyed = p.0.0.keyed },
        All-save tenant_id_of (Counts t.extensions) (record tenant { name = name }) t.tenants p.1
            p.0.1,
      )))
      (λ _. pure-Steps (record tenant { name = name })))

delete_tenancy-Steps : (id : String) → Steps (Tenancy.delete_tenancy id)
unfolding Tenancy.delete_tenancy delete
delete_tenancy-Steps id = Contract-bind _ _ (find_tenant-Contract id) (λ tenant.
    Contract-write _ (λ t p. (
      record { tidy = p.0.0.tidy; keyed = p.0.0.keyed },
      All-keep (Counts t.extensions) _ t.tenants p.0.1,
    )))

-- The operation returned, or threw for a reason of its own.
abbrev pub is_answered : Outcome (Unit {0}) → Bool
is_answered (done a o) = true
is_answered (thrown refused o) = false
is_answered (thrown internal_server_error o) = false
is_answered (thrown x o) = true

module _ (out : Outside) where
  create_tenancy-Steps : IsNewTenant out → (name : String) → Steps (Tenancy.create_tenancy out name)
  unfolding Tenancy.create_tenancy Tenancy.save_tenant
  create_tenancy-Steps new name =
      Contract-bind
        {Q = λ id t. InStep t × ((s : ExtensionStatus) → count (held s id) t.extensions ≡ 0)} _ _
        (Contract-query _ (λ t s. (s, new t)))
        (λ id.
          Contract-bind {Q = λ _. InStep} _ _
            (Contract-write _ (λ t p. (
              record { tidy = p.0.0.tidy; keyed = p.0.0.keyed },
              All-save tenant_id_of (Counts t.extensions) _ t.tenants
                  (ap pos (sym (p.1 reserved)), ap pos (sym (p.1 assigned))) p.0.1,
            )))
            (λ _. pure-Steps _))

  bulk_request-Steps :
      (n : ℕ) (tenant_id : String)
      → Steps (Tenancy.enqueue_bulk_extension_assignment out n tenant_id)
  unfolding Tenancy.enqueue_bulk_extension_assignment count_available
  bulk_request-Steps n tenant_id =
      Contract-bind {Q = λ _. InStep} _ _
        (Contract-weaken _ (λ t s. s) (λ x t p. p.0) (find_tenant-Contract tenant_id))
        (λ _. then_Steps _ _ (query-Steps _) (λ free.
          then_Steps _ _ (Contract-throw_if (leb free n) bad_request (λ t s e. s) (λ t s e. s))
            (λ _. then_Steps _ _ (query-Steps _) (λ batch_id. Contract-request out _ (λ t s. tt)))))

  and_skip : {A : Type 0} {m : Task A} → Steps m → Steps (m >>= λ _. skip)
  and_skip k = Contract-bind _ _ k (λ _. pure-Steps tt)

  operation-Steps : IsNewTenant out → (c : Command) → IsTenancyCommand c → Steps (operation out c)
  unfolding operation
  operation-Steps new (extension_create input) h = absurd h
  operation-Steps new pool_maintenance h = and_skip (ensure-Contract out)
  operation-Steps new sync_all h = and_skip (sync_all_to_asterisk-Contract out)
  operation-Steps new (delete_extension id) h = absurd h
  operation-Steps new (assign_available tenant_id n) h = absurd h
  operation-Steps new (unassign_from_user tenant_id id user_id) h = absurd h
  operation-Steps new (create_tenancy name) h = and_skip (create_tenancy-Steps new name)
  operation-Steps new (update_tenancy id name) h = and_skip (update_tenancy-Steps id name)
  operation-Steps new (delete_tenancy id) h = delete_tenancy-Steps id
  operation-Steps new (bulk_request n tenant_id) h = bulk_request-Steps n tenant_id
  operation-Steps new (bulk_assignment tenant_id n) h = bulk-Steps out tenant_id n
  operation-Steps new (unassign id tenant) h = and_skip (unassign-Steps out id tenant)
  operation-Steps new (unregister id tenant) h = and_skip (unregister-Steps out id tenant)
  operation-Steps new (create_user tenant name ids) h =
      and_skip (create_user-Steps out tenant name ids)
  operation-Steps new (assign_to_user tenant user_id ids) h =
      and_skip (assign_to_user-Steps out tenant user_id ids)
  operation-Steps new (update_user tenant user_id dto) h =
      and_skip (update_user-Steps out tenant user_id dto)
  operation-Steps new (delete_user tenant user_id) h = delete_user-Steps out tenant user_id

  -- No operation of a run threw because a request was refused.
  unfoldable pub all_answered : List Command → Office → Bool
  all_answered [] o = true
  all_answered (c ∷ cs) o =
      is_answered (operation out c o) && all_answered cs (office_after (operation out c o))

InStep-office_after :
    (r : Outcome (Unit {0}))
    → is_answered r ≡ true
    → Post in_step (λ a. InStep) r
    → InStep (office_after r).tables
InStep-office_after (done a o) e h = h
InStep-office_after (thrown bad_request o) e h = h
InStep-office_after (thrown forbidden o) e h = h
InStep-office_after (thrown not_found o) e h = h
InStep-office_after (thrown conflict o) e h = h
InStep-office_after (thrown refused o) e h = cc
InStep-office_after (thrown internal_server_error o) e h = cc

-- If a new tenant holds nothing, and no operation throws because a request is refused, then from sound
-- tables whose counters are in step, over any operations of the tenancy services and any maintenance of
-- the pool, those that throw for a reason of their own included, the tables stay sound, and the counters
-- of every tenant stay the numbers of its reserved and of its assigned extensions.
pub run-InStep :
    (out : Outside) (cs : List Command) (o : Office)
    → IsNewTenant out
    → All IsTenancyCommand cs
    → all_answered out cs o ≡ true
    → InStep o.tables
    → InStep (run out cs o).tables
unfolding run all_answered
run-InStep out [] o new tenancy answered s = s
run-InStep out (c ∷ cs) o new tenancy answered s =
    run-InStep out cs (office_after (operation out c o)) new tenancy.1 (ground arith) (
      InStep-office_after (operation out c o) (ground arith)
        ((operation-Steps out new c tenancy.0).at o s))
