-- ===== src/QueueStrategy/Best.antt =====
-- `least_recent` and `fewest_calls` ring the first of the candidates with the least measure.
use comm_care.Prelude.{
  ℕ, ◌≤◌, ◌<◌, String, ◌≡◌, refl, ◌⊎◌, inl, inr, ◌∙◌, arith, Bool, Option, none, some, List, [],
  ◌∷◌, length, All, Memᴰ, if◌then◌else◌, Bool-cases, leb,
}
use comm_care.QueueStrategy.{
  QueueStrategy, least_recent, fewest_calls, QueueMember, QueueMemberAggregate, ResolveDialSetInput,
  exclude_already_tried, aggregate_for, the_one, insert_sorted, sort_members, first_of_sorted,
  pick_by_sorted_aggregate, pick, resolve_from, resolve_dial_set, last_bridged_key, answered_key,
}
use comm_care.QueueStrategy.Selection.{length-exclude_already_tried-pos}

module _ (key : QueueMember → ℕ) where
  -- The first candidate whose measure no other's is below.
  pub first_least : List QueueMember → Option QueueMember
  first_least [] = none
  first_least (m ∷ ms) = elim (first_least ms) [
    | none ↦ some m
    | some x ↦ if leb (key m) (key x) then some m else some x
  ]

  abbrev before : QueueMember → QueueMember → Bool
  before a b = leb (key a) (key b)

  insert_sorted-first :
      (m : QueueMember) (ms : List QueueMember) (o : Option QueueMember)
      → first_of_sorted ms ≡ the_one o
      → first_of_sorted (insert_sorted before m ms)
        ≡ the_one
            (elim o [ none ↦ some m | some x ↦ if leb (key m) (key x) then some m else some x ])
  unfolding insert_sorted
  insert_sorted-first m ms o h = ground arith

  sort-first_least :
      (ms : List QueueMember) → first_of_sorted (sort_members before ms) ≡ the_one (first_least ms)
  unfolding sort_members first_least
  sort-first_least [] = refl
  sort-first_least (m ∷ ms) =
      insert_sorted-first m (sort_members before ms) (first_least ms) (sort-first_least ms)

  abbrev IsLeast : List QueueMember → Option QueueMember → Type 0
  IsLeast ms none = ms ≡ []
  IsLeast ms (some x) = Memᴰ x ms × All (λ m. key x ≤ key m) ms

  All-le_trans :
      (a b : ℕ) (ms : List QueueMember) → a ≤ b → All (λ m. b ≤ key m) ms → All (λ m. a ≤ key m) ms
  All-le_trans a b [] h k = tt
  All-le_trans a b (m ∷ ms) h k = (omega arith, All-le_trans a b ms h k.1)

  first-IsLeast-cons :
      (m : QueueMember) (ms : List QueueMember) (o : Option QueueMember)
      → IsLeast ms o
      → IsLeast
          (m ∷ ms)
          (elim o [ none ↦ some m | some x ↦ if leb (key m) (key x) then some m else some x ])
  first-IsLeast-cons m ms none h = rw h (Memᴰ.head refl, (omega arith, tt))
  first-IsLeast-cons m ms (some x) h = elim (Bool-cases (leb (key m) (key x))) [
    | inl e ↦
        rw e (Memᴰ.head refl, (omega arith, All-le_trans (key m) (key x) ms (ground arith) h.1))
    | inr e ↦ rw e (Memᴰ.tail h.0, (ground arith, h.1))
  ]

  pub first_least-IsLeast : (ms : List QueueMember) → IsLeast ms (first_least ms)
  unfolding first_least
  first_least-IsLeast [] = refl
  first_least-IsLeast (m ∷ ms) = first-IsLeast-cons m ms (first_least ms) (first_least-IsLeast ms)

-- How the two strategies measure a member.
abbrev pub measure : QueueStrategy → List QueueMemberAggregate → QueueMember → ℕ
measure least_recent ags m = last_bridged_key (aggregate_for m.agent_id ags)
measure _ ags m = answered_key (aggregate_for m.agent_id ags)

abbrev pub IsMeasured : QueueStrategy → Type 0
IsMeasured s = (s ≡ least_recent) ⊎ (s ≡ fewest_calls)

-- The candidates of an attempt.
abbrev pub candidates : ResolveDialSetInput → List QueueMember
candidates input = exclude_already_tried input.eligible_members input.attempt_order

pick-first_least :
    (random : ℕ → ℕ) (s : QueueStrategy) (ms : List QueueMember) (ags : List QueueMemberAggregate)
    (cursor : Option String)
    → IsMeasured s
    → (pick random s ms ags cursor).members_to_ring ≡ the_one (first_least (measure s ags) ms)
unfolding pick pick_by_sorted_aggregate
pick-first_least random least_recent ms ags cursor h =
    sort-first_least (measure least_recent ags) ms
pick-first_least random fewest_calls ms ags cursor h =
    sort-first_least (measure fewest_calls ags) ms
pick-first_least random s ms ags cursor h = absurd (ground arith)

resolve_dial_set-candidates :
    (random : ℕ → ℕ) (input : ResolveDialSetInput)
    → 0 < length input.eligible_members
    → resolve_dial_set random input
      ≡ pick random input.strategy (candidates input) input.aggregates input.cursor_member_id
unfolding resolve_dial_set
resolve_dial_set-candidates random input h = by_members input.eligible_members h
  where
    by_members :
        (ms : List QueueMember)
        → 0 < length ms
        → resolve_from random input ms
          ≡ pick random input.strategy
              (exclude_already_tried ms input.attempt_order)
              input.aggregates
              input.cursor_member_id
    by_members [] p = absurd (omega arith)
    by_members (m ∷ ms) p = refl

least_of :
    (key : QueueMember → ℕ) (ms : List QueueMember) (o : Option QueueMember)
    → IsLeast key ms o
    → 0 < length ms
    → (m : QueueMember) × (the_one o ≡ m ∷ []) × Memᴰ m ms × All (λ x. key m ≤ key x) ms
least_of key ms none h p = ground arith
least_of key ms (some x) h p = (x, refl, h.0, h.1)

-- With some member eligible, `least_recent` and `fewest_calls` ring exactly one of the candidates,
-- and no candidate was bridged less recently, or answered fewer calls, than that one.
pub resolve_dial_set-least :
    (random : ℕ → ℕ) (input : ResolveDialSetInput)
    → IsMeasured input.strategy
    → 0 < length input.eligible_members
    → (m : QueueMember) × ((resolve_dial_set random input).members_to_ring ≡ m ∷ [])
      × Memᴰ m (candidates input)
      × All
          (λ x.
            measure input.strategy input.aggregates m ≤ measure input.strategy input.aggregates x)
          (candidates input)
resolve_dial_set-least random input h p =
    let key = measure input.strategy input.aggregates in
    let (m, one, listed, least) =
      least_of key (candidates input) _ (first_least-IsLeast key (candidates input))
        (length-exclude_already_tried-pos input.eligible_members input.attempt_order p) in
    (
      m,
      rw (resolve_dial_set-candidates random input p) (
          pick-first_least random input.strategy (candidates input) input.aggregates
            input.cursor_member_id h
          ∙ one),
      listed,
      least,
    )
