-- ===== src/Extensions/Sound.antt =====
-- Every operation on extensions, however it ends, leaves a sound table: an extension's status says
-- whether it has a tenant and a user, numbers and ids differ, and the counter is above all numbers.
use comm_care.Prelude.{
  ℕ, ◌≤◌, ◌<◌, String, ◌≡◌, sym, ap, ◌∙◌, subst, arith, true, false, Bool-cases, inl, inr, Option,
  none, some, List, [], ◌∷◌, ◌++◌, map, if◌then◌else◌, ◌==◌, eq_iff, ltb, is_some, All, All-keep,
  All-append_one, All-weaken, All-map, lookup, remove, lookup-remove,
}
use mathlib.Core.List.{map-append}
use comm_care.Entities.{Extension, ExtensionStatus, available, reserved, assigned, disabled}
use comm_care.Office.{Tables, Outside}
use comm_care.Office.Rows.{find_by_id, update_all, save, delete, Distinct, Distinct-append_one}
use comm_care.Extensions.{extension_id, with_extensions, max_number, largest}
use comm_care.Extensions.Keys.{
  key, Known, lookup-key, key-update_all, All-update_all, save-Known, save-new, key-delete,
}

abbrev pub StatusFits : ExtensionStatus → Option String → Option String → Type 0
StatusFits available tenant user = (tenant ≡ none) × (user ≡ none)
StatusFits reserved tenant user = (is_some tenant ≡ true) × (user ≡ none)
StatusFits assigned tenant user = (is_some tenant ≡ true) × (is_some user ≡ true)
StatusFits disabled tenant user = ⊥

abbrev pub IsTidy : Extension → Type 0
IsTidy e = StatusFits e.status e.tenant_id e.user_id

pub record IsKeyed (top : Option ℕ) (keys : List (String × ℕ)) : Type 0 where
  pub same_id : All (λ k. lookup k.0 keys ≡ some k.1) keys
  pub numbers : Distinct (map (λ (k : String × ℕ). k.1) keys)
  pub below : (n : ℕ) → top ≡ some n → All (λ k. k.1 ≤ n) keys

pub record IsSound (t : Tables) : Type 0 where
  pub tidy : All IsTidy t.extensions
  pub keyed : IsKeyed t.top_extension_id (map key t.extensions)

-- The ids that the database generates are new.
abbrev pub IsFresh : Outside → Type 0
IsFresh out = (t : Tables) → find_by_id extension_id (out.new_id t) t.extensions ≡ none

pub All-Known :
    (keys : List (String × ℕ)) (es : List Extension)
    → All (λ k. lookup k.0 keys ≡ some k.1) (map key es)
    → All (Known keys) es
All-Known keys [] h = tt
All-Known keys (e ∷ es) h = (h.0, All-Known keys es h.1)

pub IsSound-Known : {t : Tables} → IsSound t → All (Known (map key t.extensions)) t.extensions
IsSound-Known {t} s = All-Known (map key t.extensions) t.extensions s.keyed.same_id

module _ (t : Tables) (s : IsSound t) where
  pub update_all-IsSound :
      (es : List Extension)
      → All (Known (map key t.extensions)) es
      → All IsTidy es
      → IsSound (with_extensions t (update_all extension_id es t.extensions))
        × (map key (update_all extension_id es t.extensions) ≡ map key t.extensions)
  update_all-IsSound es known tidy =
      let same = key-update_all (map key t.extensions) es t.extensions known (IsSound-Known s) in
      (
        record {
          tidy = All-update_all IsTidy es t.extensions tidy s.tidy;
          keyed = subst (IsKeyed t.top_extension_id) (sym same) s.keyed;
        },
        same,
      )

  pub save-IsSound :
      (e : Extension)
      → Known (map key t.extensions) e
      → IsTidy e
      → IsSound (with_extensions t (save extension_id e t.extensions))
        × (map key (save extension_id e t.extensions) ≡ map key t.extensions)
  save-IsSound e known tidy =
      rw (save-Known e t.extensions known) (update_all-IsSound (e ∷ []) (known, tt) (tidy, tt))

module _ (keys : List (String × ℕ)) (id : String) where
  All-remove {ℓ} :
      (P : (String × ℕ) → Type ℓ) (ks : List (String × ℕ)) → All P ks → All P (remove id ks)
  unfolding remove
  All-remove P [] h = tt
  All-remove P ((j, n) ∷ ks) h = elim (Bool-cases (j == id)) [
    | inl e ↦ rw e (All-remove P ks h.1)
    | inr e ↦ rw e (h.0, All-remove P ks h.1)
  ]

  same_id-remove :
      (ks : List (String × ℕ))
      → All (λ k. lookup k.0 keys ≡ some k.1) ks
      → All (λ k. lookup k.0 (remove id keys) ≡ some k.1) (remove id ks)
  unfolding remove
  same_id-remove [] h = tt
  same_id-remove ((j, n) ∷ ks) h = elim (Bool-cases (j == id)) [
    | inl e ↦ rw e (same_id-remove ks h.1)
    | inr e ↦
        rw e
          (ground (arith, lookup-remove id j keys, eq_iff id j, eq_iff j id), same_id-remove ks h.1)
  ]

  -- The numbers of what is left.
  All-numbers :
      (n : ℕ) (ks : List (String × ℕ))
      → All (λ m. n ≡ m → ⊥) (map (λ (k : String × ℕ). k.1) ks)
      → All (λ m. n ≡ m → ⊥) (map (λ (k : String × ℕ). k.1) (remove id ks))
  unfolding remove
  All-numbers n [] h = tt
  All-numbers n ((j, m) ∷ ks) h = elim (Bool-cases (j == id)) [
    | inl e ↦ rw e (All-numbers n ks h.1)
    | inr e ↦ rw e (h.0, All-numbers n ks h.1)
  ]

  numbers-remove :
      (ks : List (String × ℕ))
      → Distinct (map (λ (k : String × ℕ). k.1) ks)
      → Distinct (map (λ (k : String × ℕ). k.1) (remove id ks))
  unfolding remove
  numbers-remove [] h = tt
  numbers-remove ((j, n) ∷ ks) h = elim (Bool-cases (j == id)) [
    | inl e ↦ rw e (numbers-remove ks h.1)
    | inr e ↦ rw e (All-numbers n ks h.0, numbers-remove ks h.1)
  ]

pub delete-IsSound :
    (t : Tables) (id : String)
    → IsSound t
    → IsSound (with_extensions t (delete extension_id id t.extensions))
unfolding delete
delete-IsSound t id s =
    let keys = map key t.extensions in
    let left : IsKeyed t.top_extension_id (remove id keys) = record {
      same_id = same_id-remove keys id keys s.keyed.same_id;
      numbers = numbers-remove keys id keys s.keyed.numbers;
      below = λ n e. All-remove keys id (λ k. k.1 ≤ n) keys (s.keyed.below n e);
    } in
    record {
      tidy = All-keep IsTidy _ t.extensions s.tidy;
      keyed = subst (IsKeyed t.top_extension_id) (sym (key-delete id t.extensions)) left;
    }

-- A new key: its id is not in use, and its number is above the others.
module _ (keys : List (String × ℕ)) (id : String) (n : ℕ) where
  lookup-append_one :
      (j : String) (ks : List (String × ℕ)) (m : ℕ)
      → lookup j ks ≡ some m
      → lookup j (ks ++ (id, n) ∷ []) ≡ some m
  unfolding lookup
  lookup-append_one j [] m h = cc
  lookup-append_one j ((i, k) ∷ ks) m h = elim (Bool-cases (i == j)) [
    | inl e ↦ rw (e, lookup) (rw e at h)
    | inr e ↦ rw (e, lookup) (lookup-append_one j ks m (rw e at h))
  ]

  lookup-append_new :
      (ks : List (String × ℕ))
      → is_some (lookup id ks) ≡ false
      → lookup id (ks ++ (id, n) ∷ []) ≡ some n
  unfolding lookup
  lookup-append_new [] h = ground (arith, eq_iff id id)
  lookup-append_new ((i, k) ∷ ks) h = elim (Bool-cases (i == id)) [
    | inl e ↦ absurd (ground arith)
    | inr e ↦ rw e (lookup-append_new ks (ground arith))
  ]

  pub IsKeyed-append_one :
      {top : Option ℕ}
      → IsKeyed top keys
      → is_some (lookup id keys) ≡ false
      → All (λ k. k.1 < n) keys
      → IsKeyed (some n) (keys ++ (id, n) ∷ [])
  IsKeyed-append_one s new above = record {
    same_id =
        All-append_one _ keys (id, n)
          (All-weaken _ _ keys (λ k h. lookup-append_one k.0 keys k.1 h) s.same_id)
          (lookup-append_new keys new);
    numbers = subst Distinct (sym (map-append (λ (k : String × ℕ). k.1) keys ((id, n) ∷ []))) (
        Distinct-append_one _ n s.numbers (
          All-map (λ (k : String × ℕ). k.1) (λ m. m ≡ n → ⊥) keys
            (All-weaken (λ k. k.1 < n) (λ k. k.1 ≡ n → ⊥) keys (λ k h e. omega arith) above)));
    below = λ m e.
        All-append_one _ keys (id, n)
          (All-weaken (λ k. k.1 < n) (λ k. k.1 ≤ m) keys (λ k h. ground arith) above)
          (ground arith);
  }

pub insert-IsSound :
    (t : Tables) (e : Extension)
    → IsSound t
    → find_by_id extension_id e.id t.extensions ≡ none
    → IsTidy e
    → All (λ k. k.1 < e.number) (map key t.extensions)
    → t.top_extension_id ≡ some e.number
    → IsSound (with_extensions t (save extension_id e t.extensions))
insert-IsSound t e s new tidy above top = rw (save-new e t.extensions new) (record {
  tidy = All-append_one IsTidy t.extensions e s.tidy tidy;
  keyed =
      rw (top, map-append key t.extensions (e ∷ []))
        (IsKeyed-append_one (map key t.extensions) e.id e.number s.keyed
          (lookup-key e.id t.extensions ∙ ap is_some new) above);
})

-- `MAX(extension)` bounds every number.
largest-bounds :
    (m : ℕ) (es : List Extension) → (m ≤ largest m es) × All (λ k. k.1 ≤ largest m es) (map key es)
largest-bounds m [] = (omega arith, tt)
largest-bounds m (e ∷ es) =
    let larger = if ltb m e.number then e.number else m in
    let ih = largest-bounds larger es in
    let old : m ≤ larger = ground arith in
    let new : e.number ≤ larger = ground arith in (omega (arith, ih.0), (omega (arith, ih.0), ih.1))

pub max_number-bounds : (es : List Extension) → All (λ k. k.1 ≤ max_number es) (map key es)
unfolding max_number
max_number-bounds [] = tt
max_number-bounds (e ∷ es) = largest-bounds e.number es
