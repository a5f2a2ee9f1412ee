-- ===== src/Tenancy/Counting.antt =====
-- How many extensions a tenant holds, counted on the entries of the table.
use comm_care.Prelude.{
  ℕ, ◌+◌, String, ◌≡◌, refl, sym, ap, ◌∙◌, subst, arith, Bool, true, false, ◌&&◌, Bool-cases, inl,
  inr, Option, none, some, List, [], ◌∷◌, map, if◌then◌else◌, ◌==◌, eq_iff, keep, length, All,
  lookup,
}
use comm_care.Entities.{Extension, ExtensionStatus}
use comm_care.Office.Rows.{find_by_id, update_all, Distinct, count}
use comm_care.Extensions.{extension_id, has_status, of_tenant}
use comm_care.Extensions.Keys.{key, entry}
use comm_care.Extensions.Sound.{IsKeyed}

-- The extensions of a tenant with a status.
abbrev pub held : ExtensionStatus → String → Extension → Bool
held s tenant_id e = has_status e.status s && of_tenant tenant_id e

-- What the counts read of an extension.
abbrev pub state_of : Extension → ExtensionStatus × Option String
state_of e = (e.status, e.tenant_id)

-- Rows with one id are one row.
abbrev pub Alone : List Extension → Type 0
Alone xs = Distinct (map extension_id xs)

module _ (p : Extension → Bool) where
  -- Where the test is of the state, equal states give equal counts.
  pub count-states :
      (xs ys : List Extension)
      → ((x y : Extension) → state_of x ≡ state_of y → p x ≡ p y)
      → map (entry state_of) xs ≡ map (entry state_of) ys
      → count p xs ≡ count p ys
  count-states [] [] same e = refl
  count-states [] (y ∷ ys) same e = cc
  count-states (x ∷ xs) [] same e = cc
  count-states (x ∷ xs) (y ∷ ys) same e =
      let heads : state_of x ≡ state_of y = cc in
      let tails : map (entry state_of) xs ≡ map (entry state_of) ys = cc in
      rw (same x y heads, count-states xs ys same tails)

  -- Rows that no entity names stay.
  count-other :
      (e : Extension) (xs : List Extension)
      → All (λ i. e.id ≡ i → ⊥) (map extension_id xs)
      → count p (update_all extension_id (e ∷ []) xs) ≡ count p xs
  unfolding update_all find_by_id
  count-other e [] h = refl
  count-other e (x ∷ xs) h = elim (Bool-cases (e.id == x.id)) [
    | inl same ↦ absurd (h.0 ((eq_iff e.id x.id).0 same))
    | inr other ↦ rw (other, count-other e xs h.1)
  ]

  -- One row becomes another.
  pub count-update_one :
      (e x : Extension) (xs : List Extension)
      → Alone xs
      → find_by_id extension_id e.id xs ≡ some x
      → count p (update_all extension_id (e ∷ []) xs) + (if p x then 1 else 0)
        ≡ count p xs + (if p e then 1 else 0)
  unfolding update_all find_by_id
  count-update_one e x [] alone found = cc
  count-update_one e x (y ∷ ys) alone found = elim (Bool-cases (y.id == e.id)) [
    | inl same ↦
        let ids : y.id ≡ e.id = (eq_iff y.id e.id).0 same in
        let turned : (e.id == y.id) ≡ true = (eq_iff e.id y.id).1 (sym ids) in
        let found' : some y ≡ some x = rw same at found in
        let row : y ≡ x = cc in
        let others =
          count-other e ys (subst (λ i. All (λ j. i ≡ j → ⊥) (map extension_id ys)) ids alone.0) in
        rw (turned, others, row) (omega arith)
    | inr other ↦
        let turned : (e.id == y.id) ≡ false = ground (arith, eq_iff e.id y.id, eq_iff y.id e.id) in
        let found' : find_by_id extension_id e.id ys ≡ some x = rw other at found in
        rw turned (omega (arith, count-update_one e x ys alone.1 found'))
  ]

-- Keyed rows have different ids.
others-differ :
    (keys : List (String × ℕ)) (x : Extension) (xs : List Extension)
    → lookup x.id keys ≡ some x.number
    → All (λ k. lookup k.0 keys ≡ some k.1) (map key xs)
    → All (λ n. x.number ≡ n → ⊥) (map (λ (k : String × ℕ). k.1) (map key xs))
    → All (λ i. x.id ≡ i → ⊥) (map extension_id xs)
others-differ keys x [] h hs ns = tt
others-differ keys x (y ∷ ys) h hs ns = (
  (λ e.
      let numbers : some x.number ≡ some y.number = sym h ∙ ap (λ i. lookup i keys) e ∙ hs.0 in
      ns.0 (cc)),
  others-differ keys x ys h hs.1 ns.1,
)

keyed-Alone :
    (keys : List (String × ℕ)) (xs : List Extension)
    → All (λ k. lookup k.0 keys ≡ some k.1) (map key xs)
    → Distinct (map (λ (k : String × ℕ). k.1) (map key xs))
    → Alone xs
keyed-Alone keys [] h d = tt
keyed-Alone keys (x ∷ xs) h d = (others-differ keys x xs h.0 h.1 d.0, keyed-Alone keys xs h.1 d.1)

pub IsKeyed-Alone : {top : Option ℕ} (xs : List Extension) → IsKeyed top (map key xs) → Alone xs
IsKeyed-Alone xs k = keyed-Alone (map key xs) xs k.same_id k.numbers

-- Every row is found by its id.
found-skip :
    (x : Extension) (xs : List Extension) (ys : List Extension)
    → All (λ i. x.id ≡ i → ⊥) (map extension_id ys)
    → All (λ y. find_by_id extension_id y.id xs ≡ some y) ys
    → All (λ y. find_by_id extension_id y.id (x ∷ xs) ≡ some y) ys
unfolding find_by_id
found-skip x xs [] h f = tt
found-skip x xs (y ∷ ys) h f = elim (Bool-cases (x.id == y.id)) [
  | inl same ↦ absurd (h.0 ((eq_iff x.id y.id).0 same))
  | inr other ↦ (rw (other, find_by_id) f.0, found-skip x xs ys h.1 f.1)
]

pub All-found :
    (xs : List Extension) → Alone xs → All (λ x. find_by_id extension_id x.id xs ≡ some x) xs
unfolding find_by_id
All-found [] alone = tt
All-found (x ∷ xs) alone =
    (ground (arith, eq_iff x.id x.id), found-skip x xs xs alone.0 (All-found xs alone.1))

-- Rows that satisfy a test are changed and saved together.
module _ (f : Extension → Extension) (same_id : (x : Extension) → (f x).id ≡ x.id)
    (p : Extension → Bool) where
  abbrev changed : Extension → Extension
  changed x = if p x then f x else x

  update-other :
      (e : Extension) (es xs : List Extension)
      → All (λ i. e.id ≡ i → ⊥) (map extension_id xs)
      → update_all extension_id (e ∷ es) xs ≡ update_all extension_id es xs
  unfolding update_all find_by_id
  update-other e es [] h = refl
  update-other e es (x ∷ xs) h = elim (Bool-cases (e.id == x.id)) [
    | inl same ↦ absurd (h.0 ((eq_iff e.id x.id).0 same))
    | inr other ↦ rw (other, update-other e es xs h.1)
  ]

  find-absent :
      (x : Extension) (xs : List Extension)
      → All (λ i. x.id ≡ i → ⊥) (map extension_id xs)
      → find_by_id extension_id x.id (map f (keep p xs)) ≡ none
  unfolding find_by_id
  find-absent x [] h = refl
  find-absent x (y ∷ ys) h = elim (Bool-cases (p y)) [
    | inr skipped ↦ rw skipped (find-absent x ys h.1)
    | inl kept ↦
        let differ : (f y).id == x.id ≡ false =
          rw (same_id y) (ground (arith, eq_iff y.id x.id, h.0)) in
        rw (kept, differ) (find-absent x ys h.1)
  ]

  pub update-kept :
      (xs : List Extension)
      → Alone xs
      → update_all extension_id (map f (keep p xs)) xs ≡ map changed xs
  unfolding update_all find_by_id
  update-kept [] alone = refl
  update-kept (x ∷ xs) alone = elim (Bool-cases (p x)) [
    | inl kept ↦
        let mine : (f x).id == x.id ≡ true = (eq_iff (f x).id x.id).1 (same_id x) in
        let entities : map f (keep p (x ∷ xs)) ≡ f x ∷ map f (keep p xs) = rw kept in
        let rest : update_all extension_id (f x ∷ map f (keep p xs)) xs ≡ map changed xs =
          update-other (f x) (map f (keep p xs)) xs
            (subst (λ i. All (λ j. i ≡ j → ⊥) (map extension_id xs)) (sym (same_id x)) alone.0)
          ∙ update-kept xs alone.1 in
        subst (λ es. update_all extension_id es (x ∷ xs) ≡ changed x ∷ map changed xs)
          (sym entities) (rw (mine, kept) (ap (λ r. f x ∷ r) rest))
    | inr skipped ↦
        let entities : map f (keep p (x ∷ xs)) ≡ map f (keep p xs) = rw skipped in
        let rest = update-kept xs alone.1 in
        subst (λ es. update_all extension_id es (x ∷ xs) ≡ changed x ∷ map changed xs)
          (sym entities) (rw (find-absent x xs alone.0, skipped) (ap (λ r. x ∷ r) rest))
  ]

  -- Where the test has one value on the changed rows, and one on what they become.
  pub count-changed :
      (q : Extension → Bool) (before after : Bool) (xs : List Extension)
      → All (λ x. (q x ≡ before) × (q (f x) ≡ after)) (keep p xs)
      → count q (map changed xs) + (if before then length (keep p xs) else 0)
        ≡ count q xs + (if after then length (keep p xs) else 0)
  count-changed q before after [] h = ground arith
  count-changed q before after (x ∷ xs) h = elim (Bool-cases (p x)) [
    | inl kept ↦
        let all : All (λ y. (q y ≡ before) × (q (f y) ≡ after)) (x ∷ keep p xs) = rw kept at h in
        let rest = count-changed q before after xs all.1 in
        rw (kept, all.0.0, all.0.1) (ground arith)
    | inr skipped ↦
        let rest = count-changed q before after xs (rw skipped at h) in
        rw skipped (omega (arith, rest))
  ]
