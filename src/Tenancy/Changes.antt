-- ===== src/Tenancy/Changes.antt =====
-- What each change of the extensions adds to the quota of a tenant, and what it takes away.
use comm_care.Prelude.{
  ◌+◌, String, ◌≡◌, refl, subst, arith, Bool, true, false, ◌&&◌, Option, none, some, List, [], ◌∷◌,
  map, if◌then◌else◌, ◌==◌, eq_iff, holds_text, keep, length, All, All-kept, All-weaken, All-both,
}
use comm_care.Entities.{
  Extension, ExtensionStatus, available, reserved, assigned, disabled, UserInfo,
}
use comm_care.Office.Rows.{count, update_all, find_by_id}
use comm_care.Extensions.{
  extension_id, has_status, of_tenant, is_named, may_be_assigned, reserved_for, assigned_to,
}
use comm_care.Extensions.Service.{without_user, without_tenant}
use comm_care.Tenancy.Counting.{held, Alone, count-update_one, update-kept, count-changed}
use comm_care.Tenancy.Quota.{Moves}

held-at :
    (s st : ExtensionStatus) (u : String) (tn : Option String) (e : Extension)
    → e.status ≡ st
    → e.tenant_id ≡ tn
    → held s u e ≡ (has_status st s && holds_text tn u)
held-at s st u tn e p q = cc

-- One row with state `st`, `tn` becomes a row with state `st'`, `tn'`.
module _ (es : List Extension) (alone : Alone es) (x e : Extension)
    (found : find_by_id extension_id e.id es ≡ some x) (st st' : ExtensionStatus)
    (tn tn' : Option String) (x_st : x.status ≡ st) (x_tn : x.tenant_id ≡ tn)
    (e_st : e.status ≡ st') (e_tn : e.tenant_id ≡ tn') where
  count-one :
      (s : ExtensionStatus) (u : String)
      → count (held s u) (update_all extension_id (e ∷ []) es)
          + (if has_status st s && holds_text tn u then 1 else 0)
        ≡ count (held s u) es + (if has_status st' s && holds_text tn' u then 1 else 0)
  count-one s u =
      subst
        (λ b.
          count (held s u) (update_all extension_id (e ∷ []) es) + (if b then 1 else 0)
          ≡ count (held s u) es + (if has_status st' s && holds_text tn' u then 1 else 0))
        (held-at s st u tn x x_st x_tn)
        (subst
          (λ b.
            count (held s u) (update_all extension_id (e ∷ []) es) + (if held s u x then 1 else 0)
            ≡ count (held s u) es + (if b then 1 else 0))
          (held-at s st' u tn' e e_st e_tn) (count-update_one (held s u) e x es alone found))

only_reserved : (s : ExtensionStatus) → has_status s reserved ≡ true → has_status s assigned ≡ false
only_reserved available h = refl
only_reserved reserved h = refl
only_reserved assigned h = cc
only_reserved disabled h = refl

names_tenant :
    (ids : List String) (id : String) (x : Extension)
    → is_named ids id x ≡ true
    → of_tenant id x ≡ true
names_tenant ids id x h = ground arith

not_other :
    (tenant : Option String) (id other : String)
    → other == id ≡ false
    → holds_text tenant id ≡ true
    → holds_text tenant other ≡ false
not_other none id other h m = refl
not_other (some t) id other h m = ground (arith, eq_iff t id, eq_iff t other, eq_iff other id)

and-true : (a b : Bool) → a ≡ true → b ≡ true → (a && b) ≡ true
and-true a b p q = ground arith

and-false : {a : Bool} (b : Bool) → a ≡ false → (a && b) ≡ false
and-false b p = ground arith

and-false' : (a : Bool) {b : Bool} → b ≡ false → (a && b) ≡ false
and-false' a p = ground arith

is-reserved : (a b : Bool) → (a && b) ≡ true → a ≡ true
is-reserved a b p = ground arith

module _ (id : String) (es : List Extension) (alone : Alone es) where
  not_turned : (other : String) → other == id ≡ false → id == other ≡ false
  not_turned other h = ground (arith, eq_iff id other, eq_iff other id)

  -- Nobody else holds a row of the tenant.
  held-none :
      (st s : ExtensionStatus) (other : String)
      → id == other ≡ false
      → (has_status st s && holds_text (some id) other) ≡ false
  held-none st s other h = ground arith

  pub reserve-Moves :
      (x : Extension)
      → find_by_id extension_id x.id es ≡ some x
      → x.status ≡ available
      → x.tenant_id ≡ none
      → Moves id es (update_all extension_id (reserved_for id x ∷ []) es) 1 0 0 0
  unfolding reserved_for
  reserve-Moves x found st tn =
      let one =
        count-one es alone x (reserved_for id x) found available reserved none (some id) st tn refl
          refl in
      record {
        of_reserved = ground (arith, one reserved id, eq_iff id id);
        of_assigned = ground (arith, one assigned id);
        of_others = λ s other h.
            let no = held-none reserved s other (not_turned other h) in ground (arith, one s other);
      }

  pub unassign-Moves :
      (x : Extension)
      → find_by_id extension_id x.id es ≡ some x
      → x.status ≡ assigned
      → x.tenant_id ≡ some id
      → Moves id es (update_all extension_id (without_user x ∷ []) es) 1 0 0 1
  unfolding without_user
  unassign-Moves x found st tn =
      let one =
        count-one es alone x (without_user x) found assigned reserved (some id) (some id) st tn refl
          tn in
      record {
        of_reserved = ground (arith, one reserved id, eq_iff id id);
        of_assigned = ground (arith, one assigned id, eq_iff id id);
        of_others = λ s other h.
            let no = held-none reserved s other (not_turned other h) in
            let no' = held-none assigned s other (not_turned other h) in
            ground (arith, one s other);
      }

  pub unregister-Moves :
      (x : Extension)
      → find_by_id extension_id x.id es ≡ some x
      → x.status ≡ reserved
      → x.tenant_id ≡ some id
      → Moves id es (update_all extension_id (without_tenant x ∷ []) es) 0 1 0 0
  unfolding without_tenant
  unregister-Moves x found st tn =
      let one =
        count-one es alone x (without_tenant x) found reserved available (some id) none st tn refl
          refl in
      record {
        of_reserved = ground (arith, one reserved id, eq_iff id id);
        of_assigned = ground (arith, one assigned id, eq_iff id id);
        of_others = λ s other h.
            let no = held-none reserved s other (not_turned other h) in ground (arith, one s other);
      }

  -- The rows that are named and reserved are assigned together.
  pub assign-Moves :
      (ids : List String) (info : UserInfo)
      → All (λ x. may_be_assigned x ≡ true) (keep (is_named ids id) es)
      → let n = length (keep (is_named ids id) es) in
        Moves id es
          (update_all extension_id (map (assigned_to info) (keep (is_named ids id) es)) es)
          0
          n
          n
          0
  unfolding assigned_to
  assign-Moves ids info free =
      let p = is_named ids id in
      let rows = All-both _ _ (keep p es) (All-kept p es) free in
      let together = update-kept (assigned_to info) (λ x. refl) p es alone in
      let at =
        λ (s : ExtensionStatus) (u : String) (b c : Bool)
            (h : All (λ x. (held s u x ≡ b) × (held s u (assigned_to info x) ≡ c)) (keep p es)).
          count-changed (assigned_to info) (λ x. refl) p (held s u) b c es h in
      rw together (record {
        of_reserved = omega (
          arith,
          at reserved id true false (
              All-weaken _ _ (keep p es)
                (λ x r. (and-true _ _ (is-reserved _ _ r.1) (names_tenant ids id x r.0), refl))
                rows),
        );
        of_assigned = omega (
          arith,
          at assigned id false true (
              All-weaken _ _ (keep p es)
                (λ x r. (
                  and-false _ (only_reserved x.status (is-reserved _ _ r.1)),
                  names_tenant ids id x r.0,
                ))
                rows),
        );
        of_others = λ s other h. omega (
          arith,
          at s other false false (
              All-weaken _ _ (keep p es)
                (λ x r. (
                  and-false' (has_status x.status s)
                      (not_other x.tenant_id id other h (names_tenant ids id x r.0)),
                  and-false' (has_status assigned s)
                      (not_other x.tenant_id id other h (names_tenant ids id x r.0)),
                ))
                rows),
        );
      })
