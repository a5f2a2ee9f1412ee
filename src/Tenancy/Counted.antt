-- ===== src/Tenancy/Counted.antt =====
-- The operations keep the counters of the tenants in step with the table of extensions, unless a request
-- is refused between a change and its count.
use comm_care.Prelude.{
  ℕ, zero, suc, ◌+◌, String, ◌≡◌, sym, subst, none, some, List, [], ◌∷◌, map, All, All-weaken,
  All-both, leb,
}
use comm_care.Entities.{Extension}
use comm_care.Office.{
  Tables, Tenant, Outside, bad_request, forbidden, not_found, conflict, internal_server_error,
  refused,
}
use comm_care.Office.Rows.{update_all, find_by_id}
use comm_care.Office.Rules.{
  Throwing, Contract, Contract-pure, Contract-query, Contract-write, Contract-bind,
  Contract-request, Contract-if,
}
use comm_care.Extensions.{extension_id, with_extensions, save_extension, count_available}
use comm_care.Extensions.Service.{publish_creates, ensure_available_extension_pool, replenish_count}
use comm_care.Extensions.Keys.{key, Known, save-Known}
use comm_care.Extensions.Sound.{IsTidy, IsSound, IsSound-Known, update_all-IsSound}
use comm_care.Tenancy.{change_tenant, adjust_extension_stats}
use comm_care.Tenancy.Counting.{Alone, All-found, IsKeyed-Alone}
use comm_care.Tenancy.Quota.{Counts}

-- Sound tables whose counters are in step once `count` has been applied to them.
abbrev pub InStepAfter : (List Tenant → List Tenant) → Tables → Type 0
InStepAfter counting t = IsSound t × All (Counts t.extensions) (counting t.tenants)

abbrev pub InStep : Tables → Type 0
InStep = InStepAfter (λ ts. ts)

-- What holds where an operation throws: nothing is said of a request that was refused.
abbrev pub in_step : Throwing
in_step refused t = Unit
in_step internal_server_error t = Unit
in_step bad_request t = InStep t
in_step forbidden t = InStep t
in_step not_found t = InStep t
in_step conflict t = InStep t

-- A row that is found by its id.
pub record IsHere (e : Extension) (t : Tables) : Type 0 where
  pub found : find_by_id extension_id e.id t.extensions ≡ some e
  pub known : Known (map key t.extensions) e
  pub tidy : IsTidy e

pub rows-IsHere : (t : Tables) → IsSound t → All (λ e. IsHere e t) t.extensions
rows-IsHere t s =
    All-weaken _ (λ e. IsHere e t) t.extensions
      (λ e r. record { found = r.0; known = r.1.0; tidy = r.1.1 })
      (All-both _ _ t.extensions (All-found t.extensions (IsKeyed-Alone t.extensions s.keyed))
        (All-both _ _ t.extensions (IsSound-Known s) s.tidy))

pub adjust-Contract :
    (id : String) (f : Tenant → Tenant)
    → Contract in_step
        (InStepAfter (change_tenant id f))
        (adjust_extension_stats id f)
        (λ _. InStep)
unfolding adjust_extension_stats
adjust-Contract id f =
    Contract-write _ (λ t a. (record { tidy = a.0.tidy; keyed = a.0.keyed }, a.1))

module _ {P : Tables → Type 0} (out : Outside) where
  publish-Contract :
      (batch_id : String) (index left : ℕ)
      → Contract in_step P (publish_creates out batch_id index left) (λ _. P)
  unfolding publish_creates
  publish-Contract batch_id index zero = Contract-pure tt (λ t p. p)
  publish-Contract batch_id index (suc left) =
      Contract-bind _ _ (Contract-request out _ (λ t p. tt))
        (λ _. publish-Contract batch_id (index + 1) left)

  -- The maintenance of the pool only sends requests.
  pub ensure-Contract : Contract in_step P (ensure_available_extension_pool out) (λ _. P)
  unfolding ensure_available_extension_pool count_available
  ensure-Contract = Contract-bind {Q = λ _. P} _ _ (Contract-query _ (λ t p. p)) (λ free.
      Contract-if (leb 100 free) (λ many. Contract-pure none (λ t p. p))
        (λ few. Contract-bind {Q = λ _. P} _ _ (Contract-query _ (λ t p. p)) (λ batch_id.
          Contract-bind {Q = λ _. P} _ _ (publish-Contract batch_id 0 _)
            (λ _. Contract-pure (some (batch_id, replenish_count free)) (λ t p. p)))))

-- A change of one row, in tables that are in step, and the count that follows it.
module _ (id : String) (counting : List Tenant → List Tenant) (x e : Extension)
    (same_id : e.id ≡ x.id) (same_number : e.number ≡ x.number) (tidy : IsTidy e)
    (moved : (es : List Extension) (ts : List Tenant)
      → Alone es
      → find_by_id extension_id x.id es ≡ some x
      → All (Counts es) ts
      → All (Counts (update_all extension_id (e ∷ []) es)) (counting ts)) where
  Known-e : (t : Tables) → IsHere x t → Known (map key t.extensions) e
  Known-e t here = rw (same_id, same_number) (here.known)

  pub update-InStepAfter :
      (t : Tables)
      → InStep t
      → IsHere x t
      → InStepAfter counting (with_extensions t (update_all extension_id (e ∷ []) t.extensions))
  update-InStepAfter t s here = (
    (update_all-IsSound t s.0 (e ∷ []) (Known-e t here, tt) (tidy, tt)).0,
    moved t.extensions t.tenants (IsKeyed-Alone t.extensions s.0.keyed) here.found s.1,
  )

  pub save-InStepAfter :
      Contract in_step (λ t. InStep t × IsHere x t) (save_extension e) (λ _. InStepAfter counting)
  unfolding save_extension
  save-InStepAfter = Contract-write _ (λ t p.
      subst (λ es. InStepAfter counting (with_extensions t es))
        (sym (save-Known e t.extensions (Known-e t p.1))) (update-InStepAfter t p.0 p.1))
