-- ===== src/Extensions/Lowest.antt =====
-- Which extensions a reservation takes.
use comm_care.Prelude.{
  ℕ, zero, suc, ◌≤◌, ◌≡◌, refl, arith, Bool, true, false, Bool-cases, inl, inr, ◌⊎◌, ap, ◌∙◌,
  All-of_mem, All-kept, List, [], ◌∷◌, if◌then◌else◌, leb, keep, All, All-weaken, Memᴰ, length,
}
use comm_care.Entities.{Extension}
use comm_care.Office.Rows.{take, count}
use comm_care.Extensions.Assigning.{All-chosen}
use comm_care.Extensions.{is_free, order_by_number, insert_by_number, chosen}

-- What a reservation leaves, in the order of the numbers.
abbrev drop : ℕ → List Extension → List Extension
drop zero es = es
drop (suc n) [] = []
drop (suc n) (e ∷ es) = drop n es

abbrev pub lesser : ℕ → ℕ → ℕ
lesser a b = if leb a b then a else b

abbrev IsOrdered : List Extension → Type 0
IsOrdered [] = Unit
IsOrdered (e ∷ es) = All (λ f. e.number ≤ f.number) es × IsOrdered es

All-insert :
    (k : ℕ) (e : Extension) (es : List Extension)
    → k ≤ e.number
    → All (λ f. k ≤ f.number) es
    → All (λ f. k ≤ f.number) (insert_by_number e es)
All-insert k e [] p h = (p, tt)
All-insert k e (f ∷ fs) p h = elim (Bool-cases (leb e.number f.number)) [
  | inl first ↦ rw first (p, h)
  | inr later ↦ rw later (h.0, All-insert k e fs p h.1)
]

insert-IsOrdered :
    (e : Extension) (es : List Extension) → IsOrdered es → IsOrdered (insert_by_number e es)
insert-IsOrdered e [] h = (tt, tt)
insert-IsOrdered e (f ∷ fs) h = elim (Bool-cases (leb e.number f.number)) [
  | inl first ↦
      let le : e.number ≤ f.number = ground arith in
      rw first (
        (
          le,
          All-weaken (λ g. f.number ≤ g.number) (λ g. e.number ≤ g.number) fs (λ g p. omega arith)
              h.0,
        ),
        h,
      )
  | inr later ↦
      let le : f.number ≤ e.number = ground arith in
      rw later (All-insert f.number e fs le h.0, insert-IsOrdered e fs h.1)
]

order-IsOrdered : (es : List Extension) → IsOrdered (order_by_number es)
order-IsOrdered [] = tt
order-IsOrdered (e ∷ es) = insert-IsOrdered e (order_by_number es) (order-IsOrdered es)

length-insert :
    (e : Extension) (es : List Extension) → length (insert_by_number e es) ≡ suc (length es)
length-insert e [] = refl
length-insert e (f ∷ fs) = ground (arith, length-insert e fs)

length-order : (es : List Extension) → length (order_by_number es) ≡ length es
length-order [] = refl
length-order (e ∷ es) = omega (arith, length-insert e (order_by_number es), length-order es)

length-take : (n : ℕ) (es : List Extension) → length (take n es) ≡ lesser n (length es)
length-take zero es = ground arith
length-take (suc n) [] = ground arith
length-take (suc n) (e ∷ es) = ground (arith, length-take n es)

length-keep : (es : List Extension) → length (keep is_free es) ≡ count is_free es
length-keep [] = refl
length-keep (e ∷ es) = elim (Bool-cases (is_free e)) [
  | inl free ↦ rw free (omega (arith, length-keep es))
  | inr taken ↦ rw taken (omega (arith, length-keep es))
]

All-drop : (P : Extension → Type 0) (n : ℕ) (es : List Extension) → All P es → All P (drop n es)
All-drop P zero es h = h
All-drop P (suc n) [] h = tt
All-drop P (suc n) (e ∷ es) h = All-drop P n es h.1

-- Every taken one is below every one that is left.
taken-below :
    (n : ℕ) (es : List Extension)
    → IsOrdered es
    → All (λ e. All (λ f. e.number ≤ f.number) (drop n es)) (take n es)
taken-below zero es h = tt
taken-below (suc n) [] h = tt
taken-below (suc n) (e ∷ es) h = (All-drop _ n es h.0, taken-below n es h.1)

module _ (Q : Extension → Type 0) where
  insert-All :
      (e : Extension) (es : List Extension) → All Q (insert_by_number e es) → Q e × All Q es
  insert-All e [] h = h
  insert-All e (f ∷ fs) h = elim (Bool-cases (leb e.number f.number)) [
    | inl first ↦ let all : All Q (e ∷ f ∷ fs) = rw first at h in (all.0, all.1)
    | inr later ↦
        let all : All Q (f ∷ insert_by_number e fs) = rw later at h in
        let rest = insert-All e fs all.1 in (rest.0, (all.0, rest.1))
  ]

  order-All : (es : List Extension) → All Q (order_by_number es) → All Q es
  order-All [] h = tt
  order-All (e ∷ es) h =
      let both = insert-All e (order_by_number es) h in (both.0, order-All es both.1)

  take-drop-All : (n : ℕ) (es : List Extension) → All Q (take n es) → All Q (drop n es) → All Q es
  take-drop-All zero es h k = k
  take-drop-All (suc n) [] h k = tt
  take-drop-All (suc n) (e ∷ es) h k = (h.0, take-drop-All n es h.1 k)

  keep-All : (es : List Extension) → All Q (keep is_free es) → All (λ e. is_free e ≡ true → Q e) es
  keep-All [] h = tt
  keep-All (e ∷ es) h = elim (Bool-cases (is_free e)) [
    | inl free ↦
        let all : All Q (e ∷ keep is_free es) = rw free at h in ((λ f. all.0), keep-All es all.1)
    | inr taken ↦ ((λ f. absurd (true-false f taken)), keep-All es (rw taken at h))
  ]
    where
      true-false : {b : Bool} → b ≡ true → b ≡ false → ⊥
      true-false p q = cc

-- All entries of `es` are at most `f` where all of `es` are below all of `fs`.
above_others :
    (es fs : List Extension)
    → All (λ e. All (λ f. e.number ≤ f.number) fs) es
    → All (λ f. All (λ e. e.number ≤ f.number) es) fs
above_others es [] h = tt
above_others es (f ∷ fs) h =
    (All-weaken _ _ es (λ e p. p.0) h, above_others es fs (All-weaken _ _ es (λ e p. p.1) h))

-- What is taken is part of what is there, each as often as it is there at most.
module _ (p : Extension → Bool) where
  count-insert :
      (e : Extension) (es : List Extension) → count p (insert_by_number e es) ≡ count p (e ∷ es)
  count-insert e [] = refl
  count-insert e (f ∷ fs) = elim (Bool-cases (leb e.number f.number)) [
    | inl first ↦ rw first refl
    | inr later ↦ rw later (ground (arith, count-insert e fs))
  ]

  count-order : (es : List Extension) → count p (order_by_number es) ≡ count p es
  count-order [] = refl
  count-order (e ∷ es) = ground (arith, count-insert e (order_by_number es), count-order es)

  count-take : (n : ℕ) (es : List Extension) → count p (take n es) ≤ count p es
  count-take zero es = omega arith
  count-take (suc n) [] = omega arith
  count-take (suc n) (e ∷ es) = ground (arith, count-take n es)

  count-keep : (es : List Extension) → count p (keep is_free es) ≤ count p es
  count-keep [] = omega arith
  count-keep (e ∷ es) = elim (Bool-cases (is_free e)) [
    | inl free ↦ rw free (ground (arith, count-keep es))
    | inr taken ↦ rw taken (ground (arith, count-keep es))
  ]

  count-chosen : (n : ℕ) (es : List Extension) → count p (chosen n es) ≤ count p es
  unfolding chosen
  count-chosen n es =
      let some_free = keep is_free es in
      omega (arith, count-take n (order_by_number some_free), count-order some_free, count-keep es)

chosen-free : (n : ℕ) (es : List Extension) → All (λ e. is_free e ≡ true) (chosen n es)
chosen-free n es =
    All-weaken _ _ _ (λ e p. p.1)
      (All-chosen (λ e. Unit {0}) n es
        (All-weaken _ _ _ (λ e free. (tt, free)) (All-kept is_free es)))

-- A reservation of `n` takes as many extensions as there are free ones, up to `n`. All that it takes are
-- free, and are rows of the table, none more often than it stands there; and every free extension is
-- taken or has a number that is not less than any number that is taken. A count is at least 1, as every
-- caller's is.
pub chosen-lowest :
    (n : ℕ) (es : List Extension)
    → 1 ≤ n
    → (length (chosen n es) ≡ lesser n (count is_free es))
      × All (λ e. is_free e ≡ true) (chosen n es)
      × ((p : Extension → Bool) → count p (chosen n es) ≤ count p es)
      × All
          (λ f.
            is_free f ≡ true → Memᴰ f (chosen n es) ⊎ All (λ e. e.number ≤ f.number) (chosen n es))
          es
unfolding chosen
chosen-lowest n es pos =
    let free = keep is_free es in
    let ordered = order_by_number free in
    let Taken = λ (f : Extension).
      Memᴰ f (take n ordered) ⊎ All (λ e. e.number ≤ f.number) (take n ordered) in
    let lengths : length (take n ordered) ≡ lesser n (count is_free es) =
      length-take n ordered ∙ ap (lesser n) (length-order free ∙ length-keep es) in
    let taken : All Taken (take n ordered) = All-of_mem _ (λ f m. inl m) in
    let left : All Taken (drop n ordered) =
      All-weaken _ Taken _ (λ f p. inr p)
        (above_others (take n ordered) _ (taken-below n ordered (order-IsOrdered free))) in
    (
      lengths,
      chosen-free n es,
      (λ p. count-chosen p n es),
      keep-All Taken es (order-All Taken free (take-drop-All Taken n ordered taken left)),
    )
