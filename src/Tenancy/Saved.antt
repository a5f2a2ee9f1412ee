-- ===== src/Tenancy/Saved.antt =====
-- Rows that were found may be provisioned and saved again: the keys and the states stay, so what is to be
-- counted stays the same.
use comm_care.Prelude.{
  ℕ, String, ◌≡◌, refl, sym, ap, ◌∙◌, subst, arith, Bool, true, ◌&&◌, Bool-cases, inl, inr, Option,
  some, List, [], ◌∷◌, map, if◌then◌else◌, ◌==◌, holds_text, keep, every, length, All, All-weaken,
  lookup,
}
use comm_care.Entities.{Extension, ExtensionStatus, reserved, assigned}
use comm_care.Office.{Tables, Tenant, Outside, for_each, upsert_pjsip}
use comm_care.Office.Rows.{pos, save, find_by_id}
use comm_care.Office.Rules.{
  Contract, Contract-pure, Contract-write, Contract-bind, Contract-weaken, Contract-request,
}
use comm_care.Extensions.{extension_id, has_status, save_extension}
use comm_care.Extensions.Service
use comm_care.Extensions.Service.{
  publish_creates, ensure_available_extension_pool, replenish_count, without_user, without_tenant,
}
use comm_care.Extensions.Keys.{key, Known, save-Known, entry, Holds, entry-update_all}
use comm_care.Extensions.Sound.{IsTidy, save-IsSound}
use comm_care.Tenancy.Counting.{state_of, count-states, held}
use comm_care.Tenancy.Quota.{Counts}
use comm_care.Tenancy.Counted.{InStepAfter, in_step, IsHere, rows-IsHere}

lookup-found :
    {V : Type 0} (value : Extension → V) (id : String) (es : List Extension) (x : Extension)
    → find_by_id extension_id id es ≡ some x
    → lookup id (map (entry value) es) ≡ some (value x)
unfolding lookup find_by_id
lookup-found value id [] x found = cc
lookup-found value id (e ∷ es) x found = elim (Bool-cases (e.id == id)) [
  | inl same ↦
      let this : some e ≡ some x = rw same at found in
      let row : e ≡ x = cc in rw same (ap (λ r. some (value r)) row)
  | inr other ↦ rw other (lookup-found value id es x (rw other at found))
]

abbrev pub States : Type 0
States = List (String × (ExtensionStatus × Option String))

-- The counts are counts of states.
Counts-states :
    (es es' : List Extension)
    → map (entry state_of) es' ≡ map (entry state_of) es
    → (ts : List Tenant) → All (Counts es) ts
    → All (Counts es') ts
Counts-states es es' same [] h = tt
Counts-states es es' same (t ∷ ts) h =
    let counted = λ (s : ExtensionStatus).
      count-states (held s t.id) es' es
        (λ x y e.
          ap (λ (st : ExtensionStatus × Option String). has_status st.0 s && holds_text st.1 t.id)
            e)
        same in
    (
      (h.0.0 ∙ ap pos (sym (counted reserved)), h.0.1 ∙ ap pos (sym (counted assigned))),
      Counts-states es es' same ts h.1,
    )

-- Tables to be counted, with these keys and states.
record IsStill (counting : List Tenant → List Tenant) (keys : List (String × ℕ)) (states : States)
    (t : Tables) : Type 0 where
  pub after : InStepAfter counting t
  pub same_keys : map key t.extensions ≡ keys
  pub same_states : map (entry state_of) t.extensions ≡ states

-- A row that may be saved without a change of either.
abbrev pub IsRow : List (String × ℕ) → States → Extension → Type 0
IsRow keys states e = Known keys e × (Holds state_of states e × IsTidy e)

here-IsRow :
    (t : Tables) (e : Extension)
    → IsHere e t
    → IsRow (map key t.extensions) (map (entry state_of) t.extensions) e
here-IsRow t e here =
    (here.known, (lookup-found state_of e.id t.extensions e here.found, here.tidy))

module _ (counting : List Tenant → List Tenant) (keys : List (String × ℕ)) (states : States) where
  save-IsStill :
      (e : Extension)
      → IsRow keys states e
      → Contract in_step
          (IsStill counting keys states)
          (save_extension e)
          (λ _. IsStill counting keys states)
  unfolding save_extension
  save-IsStill e row = Contract-write _ (λ t a.
      let known = subst (λ ks. Known ks e) (sym a.same_keys) row.0 in
      let here =
        All-weaken (λ x. IsHere x t) (λ x. Holds state_of states x) t.extensions
          (λ x h.
            subst (λ ss. Holds state_of ss x) a.same_states
              (lookup-found state_of x.id t.extensions x h.found))
          (rows-IsHere t a.after.0) in
      let kept = save-IsSound t a.after.0 e known row.1.1 in
      let unchanged : map (entry state_of) (save extension_id e t.extensions)
          ≡ map (entry state_of) t.extensions =
        rw (save-Known e t.extensions known)
          (entry-update_all state_of states (e ∷ []) t.extensions (row.1.0, tt) here) in
      record {
        after = (kept.0, Counts-states t.extensions _ unchanged (counting t.tenants) a.after.1);
        same_keys = kept.1 ∙ a.same_keys;
        same_states = unchanged ∙ a.same_states;
      })

  provision_each-IsStill :
      (out : Outside) (g : Extension → Extension) (es : List Extension)
      → All (λ e. IsRow keys states (g e)) es
      → Contract in_step
          (IsStill counting keys states)
          (for_each (λ e. Service.provision_and_save out (g e)) es)
          (λ _. IsStill counting keys states)
  unfolding for_each Service.provision_and_save
  provision_each-IsStill out g [] rows = Contract-pure tt (λ t a. a)
  provision_each-IsStill out g (e ∷ es) rows =
      Contract-bind _ _
        (Contract-bind _ _ (Contract-request out (upsert_pjsip (g e)) (λ t a. tt))
          (λ _. save-IsStill (g e) rows.0))
        (λ _. provision_each-IsStill out g es rows.1)

-- Rows that were found are provisioned and saved; the change leaves their keys and states.
pub provision_each-InStepAfter :
    (counting : List Tenant → List Tenant) (out : Outside) (g : Extension → Extension)
    → ((keys : List (String × ℕ)) (states : States) (e : Extension)
        → IsRow keys states e
        → IsRow keys states (g e))
    → (es : List Extension)
    → Contract in_step
        (λ t. InStepAfter counting t × All (λ e. IsHere e t) es)
        (for_each (λ e. Service.provision_and_save out (g e)) es)
        (λ _. InStepAfter counting)
provision_each-InStepAfter counting out g same es = record {
  at = λ o p.
      (Contract-weaken {Q = λ _. InStepAfter counting} _ (λ t a. a) (λ _ t a. a.after)
          (provision_each-IsStill counting _ _ out g es
            (All-weaken _ _ es (λ e here. same _ _ e (here-IsRow o.tables e here)) p.1))).at
        o (record { after = p.0; same_keys = refl; same_states = refl });
}

pub kept-changed :
    (P : Extension → Type 0) (f : Extension → Extension) (p : Extension → Bool)
    (xs : List Extension)
    → All P (map (λ x. if p x then f x else x) xs)
    → All P (map f (keep p xs))
kept-changed P f p [] h = tt
kept-changed P f p (x ∷ xs) h = elim (Bool-cases (p x)) [
  | inl kept ↦
      let all : P (f x) × All P (map (λ y. if p y then f y else y) xs) = rw kept at h in
      rw kept (all.0, kept-changed P f p xs all.1)
  | inr skipped ↦ rw skipped (kept-changed P f p xs h.1)
]

pub length-map : (f : Extension → Extension) (xs : List Extension) → length (map f xs) ≡ length xs
length-map f [] = refl
length-map f (x ∷ xs) = omega (arith, length-map f xs)

pub All-every :
    (p : Extension → Bool) (xs : List Extension) → every p xs ≡ true → All (λ x. p x ≡ true) xs
All-every p [] h = tt
All-every p (x ∷ xs) h = (ground arith, All-every p xs (ground arith))
