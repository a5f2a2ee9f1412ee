-- ===== src/Tenancy/Handover.antt =====
-- Handing extensions over to a user is counted, and a new name of the user leaves the counts.
use comm_care.Prelude.{
  String, ◌≡◌, refl, sym, subst, arith, true, not, List, map, keep, every, length, All, All-keep,
  All-kept, All-weaken, All-both, All-map, eqb,
}
use comm_care.Entities.{Extension, UserInfo}
use comm_care.Office.{Tables, Tenant, Outside, bad_request, not_found}
use comm_care.Office.Rows.{update_all}
use comm_care.Office.Rules.{
  Contract, Contract-pure, Contract-query, Contract-write, Contract-throw_if, Contract-bind,
}
use comm_care.Extensions.{
  extension_id, with_extensions, get_extensions_by_user_id, of_user, is_named, may_be_assigned,
  assigned_to, assign_reserved_extensions_to_user,
}
use comm_care.Extensions.Service
use comm_care.Extensions.Service.{
  publish_creates, ensure_available_extension_pool, replenish_count, without_user, without_tenant,
}
use comm_care.Extensions.Keys.{key, Known}
use comm_care.Extensions.Sound.{IsTidy, IsSound, update_all-IsSound}
use comm_care.Extensions.Assigning.{named-tenant}
use comm_care.Tenancy
use comm_care.Tenancy.{
  with_tenants, change_tenant, count_reserved, count_assigned, count_unassigned, count_unregistered,
  adjust_extension_stats,
}
use comm_care.Tenancy.Counting.{update-kept, IsKeyed-Alone}
use comm_care.Tenancy.Quota.{Counts, count_assigned-Counts}
use comm_care.Tenancy.Changes.{assign-Moves}
use comm_care.Tenancy.Counted.{InStepAfter, InStep, in_step, IsHere, rows-IsHere, adjust-Contract}
use comm_care.Tenancy.Saved.{provision_each-InStepAfter, kept-changed, length-map, All-every}

module _ (id : String) (ids : List String) (info : UserInfo) where
  -- The tenant's counters after the extensions are counted.
  abbrev handed : List Extension → List Tenant → List Tenant
  handed es ts = change_tenant id (count_assigned (length es)) ts

  named_rows : Tables → List Extension
  named_rows t = keep (is_named ids id) t.extensions

  abbrev with_assigned : Tables → List Extension → Tables
  with_assigned t found =
      with_extensions t (update_all extension_id (map (assigned_to info) found) t.extensions)

  assign-IsSound : (t : Tables) → InStep t → IsSound (with_assigned t (named_rows t))
  unfolding assigned_to named_rows
  assign-IsSound t s =
      let p = is_named ids id in
      let rows =
        All-both (λ x. IsHere x t) (λ x. p x ≡ true) (keep p t.extensions)
          (All-keep (λ x. IsHere x t) p t.extensions (rows-IsHere t s.0))
          (All-kept p t.extensions) in
      (update_all-IsSound t s.0 (map (assigned_to info) (keep p t.extensions))
        (All-map (assigned_to info) (Known (map key t.extensions)) (keep p t.extensions)
          (All-weaken _ _ (keep p t.extensions) (λ x r. r.0.known) rows))
        (All-map (assigned_to info) IsTidy (keep p t.extensions)
          (All-weaken _ _ (keep p t.extensions) (λ x r. (named-tenant ids id x r.1, refl)) rows))).0

  assign-IsHere :
      (t : Tables)
      → InStep t
      → All (λ e. IsHere e (with_assigned t (named_rows t))) (map (assigned_to info) (named_rows t))
  unfolding assigned_to named_rows
  assign-IsHere t s =
      let p = is_named ids id in
      let t' = with_assigned t (keep p t.extensions) in
      kept-changed (λ e. IsHere e t') (assigned_to info) p t.extensions
        (subst (All (λ e. IsHere e t'))
          (update-kept (assigned_to info) (λ x. refl) p t.extensions
            (IsKeyed-Alone t.extensions s.0.keyed))
          (rows-IsHere t' (assign-IsSound t s)))

  assign-InStepAfter :
      (t : Tables)
      → InStep t
      → every may_be_assigned (named_rows t) ≡ true
      → InStepAfter
          (handed (map (assigned_to info) (named_rows t)))
          (with_assigned t (named_rows t))
  unfolding named_rows
  assign-InStepAfter t s free =
      let found = keep (is_named ids id) t.extensions in
      (
        assign-IsSound t s,
        subst
            (λ n.
              All (Counts (with_assigned t found).extensions)
                (change_tenant id (count_assigned n) t.tenants))
            (sym (length-map (assigned_to info) found))
            (count_assigned-Counts id t.extensions _ (length found) t.tenants
              (assign-Moves id t.extensions (IsKeyed-Alone t.extensions s.0.keyed) ids info
                (All-every may_be_assigned found free))
              s.1),
      )

  -- The rows that the transaction returns are in the table, and are to be counted.
  assign_reserved-After :
      Contract in_step InStep
        (assign_reserved_extensions_to_user id ids info)
        (λ es t. InStepAfter (handed es) t × All (λ e. IsHere e t) es)
  unfolding assign_reserved_extensions_to_user named_rows
  assign_reserved-After =
      Contract-bind {Q = λ found t. InStep t × (found ≡ named_rows t)} _ _
        (Contract-query _ (λ t s. (s, refl)))
        (λ found.
          Contract-bind {Q = λ _ t. InStep t × (found ≡ named_rows t)} _ _
            (Contract-throw_if (not (eqb (length found) (length ids))) not_found (λ t p h. p.0)
              (λ t p h. p))
            (λ _.
              Contract-bind
                {Q = λ _ t.
                  (InStep t × (found ≡ named_rows t)) × (every may_be_assigned found ≡ true)}
                _ _
                (Contract-throw_if (not (every may_be_assigned found)) bad_request (λ t p h. p.0)
                  (λ t p h. (p, ground arith)))
                (λ _.
                  Contract-bind
                    {Q = λ _ t.
                      InStepAfter (handed (map (assigned_to info) found)) t
                      × All (λ e. IsHere e t) (map (assigned_to info) found)}
                    _ _ (Contract-write _ (λ t p. assigned_rows t found p.0.0 p.0.1 p.1))
                    (λ _. Contract-pure (map (assigned_to info) found) (λ t p. p)))))
    where
      assigned_rows :
          (t : Tables) (found : List Extension)
          → InStep t
          → found ≡ named_rows t
          → every may_be_assigned found ≡ true
          → InStepAfter (handed (map (assigned_to info) found)) (with_assigned t found)
            × All (λ e. IsHere e (with_assigned t found)) (map (assigned_to info) found)
      assigned_rows t found s e free =
          subst
            (λ l.
              InStepAfter (handed (map (assigned_to info) l)) (with_assigned t l)
              × All (λ x. IsHere x (with_assigned t l)) (map (assigned_to info) l))
            (sym e)
            (
              assign-InStepAfter t s (subst (λ l. every may_be_assigned l ≡ true) e free),
              assign-IsHere t s,
            )

  pub hand_over-InStep :
      (out : Outside) → Contract in_step InStep (Tenancy.hand_over out id ids info) (λ _. InStep)
  unfolding Tenancy.hand_over Service.assign_extensions_to_user Tenancy.on_extensions_assigned
  hand_over-InStep out =
      Contract-bind {Q = λ es. InStepAfter (handed es)} _ _
        (Contract-bind {Q = λ es t. InStepAfter (handed es) t × All (λ e. IsHere e t) es} _ _
          assign_reserved-After
          (λ es.
            Contract-bind {Q = λ _. InStepAfter (handed es)} _ _
              (provision_each-InStepAfter (handed es) out _ (λ keys states e row. row) es)
              (λ _. Contract-pure es (λ t a. a))))
        (λ es.
          Contract-bind {Q = λ _. InStep} _ _ (adjust-Contract id (count_assigned (length es)))
            (λ _. Contract-pure es (λ t s. s)))

pub sync_user_info-InStep :
    (out : Outside) (user_id name : String)
    → Contract in_step InStep (Service.sync_user_info_on_extensions out user_id name) (λ _. InStep)
unfolding Service.sync_user_info_on_extensions get_extensions_by_user_id
sync_user_info-InStep out user_id name =
    Contract-bind {Q = λ es t. InStep t × All (λ e. IsHere e t) es} _ _
      (Contract-query _
        (λ t s. (s, All-keep (λ e. IsHere e t) (of_user user_id) t.extensions (rows-IsHere t s.0))))
      (λ es. provision_each-InStepAfter (λ ts. ts) out _ (λ keys states e row. row) es)
