-- ===== src/Extensions/Keys.antt =====
-- The ids and the numbers of the extensions: saving an extension that is known changes none of them.
use comm_care.Prelude.{
  ℕ, String, ◌≡◌, refl, sym, ap, ◌∙◌, arith, true, Bool-cases, inl, inr, none, some, List, [], ◌∷◌,
  ◌++◌, map, ◌==◌, eq_iff, is_some, or_else, All, lookup, remove,
}
use comm_care.Entities.{Extension}
use comm_care.Office.Rows.{find_by_id, update_all, save, delete}
use comm_care.Extensions.{extension_id}

abbrev pub key : Extension → String × ℕ
key e = (e.id, e.number)

-- The table has an extension with this id, and with this number.
abbrev pub Known : List (String × ℕ) → Extension → Type 0
Known keys e = lookup e.id keys ≡ some e.number

pub lookup-key :
    (id : String) (es : List Extension)
    → is_some (lookup id (map key es)) ≡ is_some (find_by_id extension_id id es)
unfolding lookup find_by_id
lookup-key id [] = refl
lookup-key id (e ∷ es) = ground (arith, eq_iff e.id id, lookup-key id es)

-- What is known of a row by its id, whatever is read of it.
module _ {V : Type 0} (value : Extension → V) where
  abbrev pub entry : Extension → String × V
  entry e = (e.id, value e)

  abbrev pub Holds : List (String × V) → Extension → Type 0
  Holds entries e = lookup e.id entries ≡ some (value e)

  found-same_value :
      (entries : List (String × V)) (x : Extension) (es : List Extension)
      → Holds entries x
      → All (Holds entries) es
      → entry (or_else (find_by_id extension_id x.id es) x) ≡ entry x
  unfolding find_by_id
  found-same_value entries x [] k ks = refl
  found-same_value entries x (e ∷ es) k ks = elim (Bool-cases (e.id == x.id)) [
    | inl same ↦
        let ids : e.id ≡ x.id = (eq_iff e.id x.id).0 same in
        let values : some (value e) ≡ some (value x) =
          sym ks.0 ∙ ap (λ i. lookup i entries) ids ∙ k in
        rw same (ground arith)
    | inr other ↦ rw other (found-same_value entries x es k ks.1)
  ]

  pub entry-update_all :
      (entries : List (String × V)) (es xs : List Extension)
      → All (Holds entries) es
      → All (Holds entries) xs
      → map entry (update_all extension_id es xs) ≡ map entry xs
  unfolding update_all
  entry-update_all entries es [] ke kx = refl
  entry-update_all entries es (x ∷ xs) ke kx =
      cc (found-same_value entries x es kx.0 ke, entry-update_all entries es xs ke kx.1)

pub key-update_all :
    (keys : List (String × ℕ)) (es xs : List Extension)
    → All (Known keys) es
    → All (Known keys) xs
    → map key (update_all extension_id es xs) ≡ map key xs
key-update_all = entry-update_all (λ e. e.number)

module _ (P : Extension → Type 0) where
  All-find :
      (id : String) (es : List Extension) (x : Extension)
      → All P es
      → P x
      → P (or_else (find_by_id extension_id id es) x)
  unfolding find_by_id
  All-find id [] x ps p = p
  All-find id (e ∷ es) x ps p = elim (Bool-cases (e.id == id)) [
    | inl same ↦ rw same (ps.0)
    | inr other ↦ rw other (All-find id es x ps.1 p)
  ]

  pub All-update_all :
      (es xs : List Extension) → All P es → All P xs → All P (update_all extension_id es xs)
  unfolding update_all
  All-update_all es [] pe px = tt
  All-update_all es (x ∷ xs) pe px = (All-find x.id es x pe px.0, All-update_all es xs pe px.1)

pub save-Known :
    (e : Extension) (xs : List Extension)
    → Known (map key xs) e
    → save extension_id e xs ≡ update_all extension_id (e ∷ []) xs
unfolding save
save-Known e xs k =
    let found : is_some (find_by_id extension_id e.id xs) ≡ true =
      sym (lookup-key e.id xs) ∙ ap is_some k in
    rw found

pub save-new :
    (e : Extension) (xs : List Extension)
    → find_by_id extension_id e.id xs ≡ none
    → save extension_id e xs ≡ xs ++ e ∷ []
unfolding save
save-new e xs new = rw new

pub key-delete :
    (id : String) (xs : List Extension)
    → map key (delete extension_id id xs) ≡ remove id (map key xs)
unfolding delete remove
key-delete id [] = refl
key-delete id (x ∷ xs) = ground (arith, eq_iff x.id id, eq_iff id x.id, key-delete id xs)
