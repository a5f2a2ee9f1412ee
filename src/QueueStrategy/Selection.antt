-- ===== src/QueueStrategy/Selection.antt =====
-- Who is rung: somebody eligible, nobody twice in a cycle, and the best by the strategy's measure.
use comm_care.Prelude.{
  ℕ, zero, suc, ◌%◌, ◌<◌, String, ◌≡◌, refl, ◌≢◌, inl, inr, ap, ◌∙◌, arith, Bool, Option, none,
  some, List, [], ◌∷◌, length, get_elem?, keep, All, Bool-cases,
}
use comm_care.QueueStrategy.{
  QueueStrategy, ring_all, round_robin, least_recent, fewest_calls, random_pick, QueueMember,
  QueueMemberAggregate, ResolveDialSetInput, untried, or_all, exclude_already_tried, next_index,
  the_one, moved_to, pick_round_robin, insert_sorted, sort_members, first_of_sorted,
  pick_by_sorted_aggregate, pick_random, pick, resolve_from, resolve_dial_set,
}

-- `Math.floor(Math.random() * n)` is an index of a list of n entries.
abbrev pub IsIndex : (ℕ → ℕ) → Type 0
IsIndex random = (n : ℕ) → 0 < n → random n < n

module _ (P : QueueMember → Type 0) where
  All-get_elem? : (ms : List QueueMember) (i : ℕ) → All P ms → All P (the_one (get_elem? ms i))
  All-get_elem? [] i h = tt
  All-get_elem? (m ∷ ms) zero h = (h.0, tt)
  All-get_elem? (m ∷ ms) (suc i) h = All-get_elem? ms i h.1

  All-moved_to : (o : Option QueueMember) → All P (the_one o) → All P (moved_to o).members_to_ring
  All-moved_to none h = tt
  All-moved_to (some m) h = h

  All-insert_sorted :
      (before : QueueMember → QueueMember → Bool) (m : QueueMember) (ms : List QueueMember)
      → P m
      → All P ms
      → All P (insert_sorted before m ms)
  unfolding insert_sorted
  All-insert_sorted before m [] p h = (p, tt)
  All-insert_sorted before m (x ∷ xs) p h = elim (Bool-cases (before m x)) [
    | inl e ↦ rw e (p, h)
    | inr e ↦ rw e (h.0, All-insert_sorted before m xs p h.1)
  ]

  All-sort_members :
      (before : QueueMember → QueueMember → Bool) (ms : List QueueMember)
      → All P ms
      → All P (sort_members before ms)
  unfolding sort_members
  All-sort_members before [] h = tt
  All-sort_members before (m ∷ ms) h =
      All-insert_sorted before m (sort_members before ms) h.0 (All-sort_members before ms h.1)

  All-first_of_sorted : (ms : List QueueMember) → All P ms → All P (first_of_sorted ms)
  All-first_of_sorted [] h = tt
  All-first_of_sorted (m ∷ ms) h = (h.0, tt)

  pub All-pick :
      (random : ℕ → ℕ) (s : QueueStrategy) (ms : List QueueMember) (ags : List QueueMemberAggregate)
      (cursor : Option String)
      → All P ms
      → All P (pick random s ms ags cursor).members_to_ring
  unfolding pick pick_round_robin pick_by_sorted_aggregate pick_random
  All-pick random ring_all ms ags cursor h = h
  All-pick random round_robin ms ags cursor h = All-moved_to _ (All-get_elem? ms _ h)
  All-pick random least_recent ms ags cursor h = All-first_of_sorted _ (All-sort_members _ ms h)
  All-pick random fewest_calls ms ags cursor h = All-first_of_sorted _ (All-sort_members _ ms h)
  All-pick random random_pick ms ags cursor h = All-get_elem? ms _ h

  All-keep : (p : QueueMember → Bool) (ms : List QueueMember) → All P ms → All P (keep p ms)
  All-keep p [] h = tt
  All-keep p (m ∷ ms) h = elim (Bool-cases (p m)) [
    | inl e ↦ rw e (h.0, All-keep p ms h.1)
    | inr e ↦ rw e (All-keep p ms h.1)
  ]

  All-or_all : (ms ns : List QueueMember) → All P ms → All P ns → All P (or_all ms ns)
  All-or_all [] ns h k = k
  All-or_all (m ∷ ms) ns h k = h

  pub All-exclude_already_tried :
      (ms : List QueueMember) (order : List String)
      → All P ms
      → All P (exclude_already_tried ms order)
  unfolding exclude_already_tried
  All-exclude_already_tried ms order h = All-or_all _ ms (All-keep _ ms h) h

  All-resolve_from :
      (random : ℕ → ℕ) (input : ResolveDialSetInput) (ms : List QueueMember)
      → All P ms
      → All P (resolve_from random input ms).members_to_ring
  All-resolve_from random input [] h = tt
  All-resolve_from random input (m ∷ ms) h =
      All-pick random input.strategy _ input.aggregates input.cursor_member_id
        (All-exclude_already_tried (m ∷ ms) input.attempt_order h)

  -- What holds of every eligible member holds of every member that is rung.
  pub All-resolve_dial_set :
      (random : ℕ → ℕ) (input : ResolveDialSetInput)
      → All P input.eligible_members
      → All P (resolve_dial_set random input).members_to_ring
  unfolding resolve_dial_set
  All-resolve_dial_set random input h = All-resolve_from random input input.eligible_members h

mod-lt_length : (n k : ℕ) → 0 < n → k % n < n
mod-lt_length n k h = omega arith

length-get_elem? :
    (ms : List QueueMember) (i : ℕ) → i < length ms → length (the_one (get_elem? ms i)) ≡ 1
length-get_elem? [] i h = absurd (omega arith)
length-get_elem? (m ∷ ms) zero h = refl
length-get_elem? (m ∷ ms) (suc i) h = length-get_elem? ms i (omega arith)

length-moved_to :
    (o : Option QueueMember) → length (moved_to o).members_to_ring ≡ length (the_one o)
length-moved_to none = refl
length-moved_to (some m) = refl

next_index-lt :
    (cursor : Option String) (ms : List QueueMember)
    → 0 < length ms
    → next_index cursor ms < length ms
unfolding next_index
next_index-lt cursor ms h = ground arith

length-insert_sorted :
    (before : QueueMember → QueueMember → Bool) (m : QueueMember) (ms : List QueueMember)
    → length (insert_sorted before m ms) ≡ suc (length ms)
unfolding insert_sorted
length-insert_sorted before m [] = refl
length-insert_sorted before m (x ∷ xs) = ground (arith, length-insert_sorted before m xs)

length-sort_members :
    (before : QueueMember → QueueMember → Bool) (ms : List QueueMember)
    → length (sort_members before ms) ≡ length ms
unfolding sort_members
length-sort_members before [] = refl
length-sort_members before (m ∷ ms) =
    length-insert_sorted before m (sort_members before ms) ∙ ap suc (length-sort_members before ms)

length-first_of_sorted : (ms : List QueueMember) → 0 < length ms → length (first_of_sorted ms) ≡ 1
length-first_of_sorted [] h = absurd (omega arith)
length-first_of_sorted (m ∷ ms) h = refl

-- One member is picked, of any strategy but `ring_all`.
length-pick :
    (random : ℕ → ℕ) (s : QueueStrategy) (ms : List QueueMember) (ags : List QueueMemberAggregate)
    (cursor : Option String)
    → IsIndex random
    → s ≢ ring_all
    → 0 < length ms
    → length (pick random s ms ags cursor).members_to_ring ≡ 1
unfolding pick pick_round_robin pick_by_sorted_aggregate pick_random
length-pick random ring_all ms ags cursor r ne h = absurd (ne refl)
length-pick random round_robin ms ags cursor r ne h =
    length-moved_to _ ∙ length-get_elem? ms _ (next_index-lt cursor ms h)
length-pick random least_recent ms ags cursor r ne h =
    length-first_of_sorted _ (rw length-sort_members h)
length-pick random fewest_calls ms ags cursor r ne h =
    length-first_of_sorted _ (rw length-sort_members h)
length-pick random random_pick ms ags cursor r ne h = length-get_elem? ms _ (r (length ms) h)

pub length-exclude_already_tried-pos :
    (ms : List QueueMember) (order : List String)
    → 0 < length ms
    → 0 < length (exclude_already_tried ms order)
unfolding exclude_already_tried
length-exclude_already_tried-pos ms order h = by_rest (untried ms order)
  where
    by_rest : (rest : List QueueMember) → 0 < length (or_all rest ms)
    by_rest [] = h
    by_rest (m ∷ rest) = omega arith

-- With somebody eligible, every strategy but `ring_all` rings exactly one member, if `random n` is below
-- every positive `n`.
pub length-resolve_dial_set :
    (random : ℕ → ℕ) (input : ResolveDialSetInput)
    → IsIndex random
    → input.strategy ≢ ring_all
    → 0 < length input.eligible_members
    → length (resolve_dial_set random input).members_to_ring ≡ 1
unfolding resolve_dial_set
length-resolve_dial_set random input r ne h = by_members input.eligible_members h
  where
    by_members :
        (ms : List QueueMember)
        → 0 < length ms
        → length (resolve_from random input ms).members_to_ring ≡ 1
    by_members [] p = absurd (omega arith)
    by_members (m ∷ ms) p =
        length-pick random input.strategy _ input.aggregates input.cursor_member_id r ne
          (length-exclude_already_tried-pos (m ∷ ms) input.attempt_order p)

-- With somebody eligible, somebody is rung, whatever the strategy, if `random n` is below every
-- positive `n`.
pub resolve_dial_set-pos :
    (random : ℕ → ℕ) (input : ResolveDialSetInput)
    → IsIndex random
    → 0 < length input.eligible_members
    → 0 < length (resolve_dial_set random input).members_to_ring
unfolding resolve_dial_set pick
resolve_dial_set-pos random input r h = by_members input.eligible_members h
  where
    by_strategy :
        (s : QueueStrategy) (ms : List QueueMember)
        → 0 < length ms
        → 0 < length (pick random s ms input.aggregates input.cursor_member_id).members_to_ring
    by_strategy ring_all ms p = p
    by_strategy s ms p =
        omega (arith, length-pick random s ms input.aggregates input.cursor_member_id r (λ e. cc) p)

    by_members :
        (ms : List QueueMember)
        → 0 < length ms
        → 0 < length (resolve_from random input ms).members_to_ring
    by_members [] p = absurd (omega arith)
    by_members (m ∷ ms) p =
        by_strategy input.strategy _
          (length-exclude_already_tried-pos (m ∷ ms) input.attempt_order p)
