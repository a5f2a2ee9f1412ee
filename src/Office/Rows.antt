-- ===== src/Office/Rows.antt =====
-- Tables as lists of rows, and the integer columns: what TypeORM's `save`, `delete`, `findOne`, `count` and
-- `increment` do to them.
use comm_care.Prelude.{
  some, subst, Bool-cases, inl, inr, ℕ, suc, zero, ◌+◌, ◌-◌, String, ◌≡◌, Bool, not, Option, List,
  [], ◌∷◌, ◌++◌, if◌then◌else◌, leb, ◌==◌, find_first, keep, is_some, or_else, All, All-append_one,
}

-- An integer column.
pub data ℤ : Type 0 where
  pos negsuc : ℕ → ℤ

-- `increment` by `k`, and by `-k`
unfoldable pub raise : ℤ → ℕ → ℤ
raise (pos n) k = pos (n + k)
raise (negsuc n) k = if leb k n then negsuc (n - k) else pos (k - n - 1)

unfoldable pub lower : ℤ → ℕ → ℤ
lower (pos n) k = if leb k n then pos (n - k) else negsuc (k - n - 1)
lower (negsuc n) k = negsuc (n + k)

abbrev pub take {ℓ} : {A : Type ℓ} → ℕ → List A → List A
take zero xs = []
take (suc n) [] = []
take (suc n) (x ∷ xs) = x ∷ take n xs

-- All entries differ.
abbrev pub Distinct {ℓ} : {K : Type ℓ} → List K → Type ℓ
Distinct [] = Unit
Distinct (x ∷ xs) = All (λ y. x ≡ y → ⊥) xs × Distinct xs

abbrev pub count {ℓ} : {A : Type ℓ} → (A → Bool) → List A → ℕ
count p [] = 0
count p (x ∷ xs) = (if p x then 1 else 0) + count p xs

module _ {ℓ} {A : Type ℓ} (id_of : A → String) where
  unfoldable pub find_by_id : String → List A → Option A
  find_by_id id rows = find_first (λ x. id_of x == id) rows

  -- Saving entities that were loaded: the row with an entity's id becomes the entity.
  unfoldable pub update_all : List A → List A → List A
  unfolding find_by_id
  update_all entities [] = []
  update_all entities (x ∷ xs) = or_else (find_by_id (id_of x) entities) x ∷ update_all entities xs

  -- Saving an entity whose id is new inserts it.
  unfoldable pub save : A → List A → List A
  unfolding find_by_id update_all
  save e rows =
      if is_some (find_by_id (id_of e) rows) then update_all (e ∷ []) rows else rows ++ e ∷ []

  unfoldable pub delete : String → List A → List A
  delete id rows = keep (λ x. not (id_of x == id)) rows

module _ {ℓ} {A : Type ℓ} where
  pub Distinct-append_one :
      (xs : List A) (y : A) → Distinct xs → All (λ x. x ≡ y → ⊥) xs → Distinct (xs ++ y ∷ [])
  Distinct-append_one [] y d n = (tt, tt)
  Distinct-append_one (x ∷ xs) y d n =
      (All-append_one (λ z. x ≡ z → ⊥) xs y d.0 n.0, Distinct-append_one xs y d.1 n.1)

module _ {A : Type 0} (id_of : A → String) (P : A → Type 0) where
  pub All-find_by_id :
      (id : String) (xs : List A) (x : A) → All P xs → find_by_id id_of id xs ≡ some x → P x
  unfolding find_by_id
  All-find_by_id id [] x h found = cc
  All-find_by_id id (y ∷ ys) x h found = elim (Bool-cases (id_of y == id)) [
    | inl same ↦
        let this : some y ≡ some x = rw same at found in let row : y ≡ x = cc in subst P row h.0
    | inr other ↦ All-find_by_id id ys x h.1 (rw other at found)
  ]

  pub All-update_one : (e : A) (xs : List A) → P e → All P xs → All P (update_all id_of (e ∷ []) xs)
  unfolding update_all find_by_id
  All-update_one e [] p h = tt
  All-update_one e (x ∷ xs) p h = elim (Bool-cases (id_of e == id_of x)) [
    | inl same ↦ rw same (p, All-update_one e xs p h.1)
    | inr other ↦ rw other (h.0, All-update_one e xs p h.1)
  ]

  pub All-save : (e : A) (xs : List A) → P e → All P xs → All P (save id_of e xs)
  unfolding save
  All-save e xs p h = elim (Bool-cases (is_some (find_by_id id_of (id_of e) xs))) [
    | inl old ↦ rw old (All-update_one e xs p h)
    | inr new ↦ rw new (All-append_one P xs e h p)
  ]
