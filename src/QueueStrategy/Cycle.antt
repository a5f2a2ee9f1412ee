-- ===== src/QueueStrategy/Cycle.antt =====
-- The attempt order over the attempts of one call: nobody twice in a cycle, everybody once.
use comm_care.Prelude.{
  ℕ, ◌≤◌, ◌<◌, String, ◌≡◌, refl, inl, inr, ap, arith, true, false, ◌||◌, Option, List, [], ◌∷◌,
  ◌++◌, map, length, All, All-of_mem, Memᴰ, Bool-cases, includes, eq_refl,
}
use comm_care.QueueStrategy.{
  QueueStrategy, QueueMember, QueueMemberAggregate, ResolveDialSetInput, untried, or_all,
  exclude_already_tried, resolve_from, resolve_dial_set,
}
use comm_care.QueueStrategy.Selection.{
  IsIndex, All-resolve_dial_set, All-pick, resolve_dial_set-pos,
}

abbrev ids : List QueueMember → List String
ids = map (λ m. m.id)

-- One attempt: the order that the workflow keeps, with the members that are rung now at its end.
pub attempt : (ℕ → ℕ) → ResolveDialSetInput → List String
attempt random input = input.attempt_order ++ ids (resolve_dial_set random input).members_to_ring

-- A call's attempts, each with the aggregates and the cursor as they stand by then.
pub attempts :
    (ℕ → ℕ)
    → QueueStrategy
    → List QueueMember
    → List (List QueueMemberAggregate × Option String)
    → List String
    → List String
attempts random s members [] order = order
attempts random s members ((ags, cursor) ∷ later) order = attempts random s members later (
    attempt random (record {
      strategy = s;
      eligible_members = members;
      aggregates = ags;
      cursor_member_id = cursor;
      attempt_order = order;
    }))

includes-append :
    (xs ys : List String) (x : String) → includes (xs ++ ys) x ≡ (includes xs x || includes ys x)
includes-append [] ys x = refl
includes-append (z ∷ xs) ys x = ground (arith, includes-append xs ys x)

All-untried :
    (ms : List QueueMember) (order : List String)
    → All (λ m. includes order m.id ≡ false) (untried ms order)
All-untried [] order = tt
All-untried (m ∷ ms) order = elim (Bool-cases (includes order m.id)) [
  | inl e ↦ rw e (All-untried ms order)
  | inr e ↦ rw e (e, All-untried ms order)
]

All-exclude-untried :
    (ms : List QueueMember) (order : List String)
    → 0 < length (untried ms order)
    → All (λ m. includes order m.id ≡ false) (exclude_already_tried ms order)
unfolding exclude_already_tried
All-exclude-untried ms order h = by_rest (untried ms order) h (All-untried ms order)
  where
    by_rest :
        (rest : List QueueMember)
        → 0 < length rest
        → All (λ m. includes order m.id ≡ false) rest
        → All (λ m. includes order m.id ≡ false) (or_all rest ms)
    by_rest [] p a = absurd (omega arith)
    by_rest (m ∷ rest) p a = a

-- While somebody eligible has not been tried in this cycle, nobody is rung a second time.
pub resolve_dial_set-untried :
    (random : ℕ → ℕ) (input : ResolveDialSetInput)
    → 0 < length (untried input.eligible_members input.attempt_order)
    → All
        (λ m. includes input.attempt_order m.id ≡ false)
        (resolve_dial_set random input).members_to_ring
unfolding resolve_dial_set
resolve_dial_set-untried random input h = by_members input.eligible_members h
  where
    by_members :
        (ms : List QueueMember)
        → 0 < length (untried ms input.attempt_order)
        → All
            (λ m. includes input.attempt_order m.id ≡ false)
            (resolve_from random input ms).members_to_ring
    by_members [] p = absurd (omega arith)
    by_members (m ∷ ms) p =
        All-pick _ random input.strategy _ input.aggregates input.cursor_member_id
          (All-exclude-untried (m ∷ ms) input.attempt_order p)

untried-append-le :
    (ms : List QueueMember) (order more : List String)
    → length (untried ms (order ++ more)) ≤ length (untried ms order)
untried-append-le [] order more = omega arith
untried-append-le (m ∷ ms) order more =
    ground (arith, includes-append order more m.id, untried-append-le ms order more)

untried-append-lt :
    (ms : List QueueMember) (order more : List String) (y : QueueMember)
    → Memᴰ y ms
    → includes order y.id ≡ false
    → length (untried ms (order ++ y.id ∷ more)) < length (untried ms order)
untried-append-lt [] order more y here h = elim here [ ]
untried-append-lt (m ∷ ms) order more y (Memᴰ.head e) h =
    let same : y.id ≡ m.id = ap (λ r. r.id) e in
    rw (← same, includes-append order (y.id ∷ more) y.id, h, eq_refl y.id)
      (omega (arith, untried-append-le ms order (y.id ∷ more)))
untried-append-lt (m ∷ ms) order more y (Memᴰ.tail k) h =
    ground (arith, includes-append order (y.id ∷ more) m.id, untried-append-lt ms order more y k h)

All-mem : (ms : List QueueMember) → All (λ m. Memᴰ m ms) ms
All-mem ms = All-of_mem ms (λ x k. k)

module _ (random : ℕ → ℕ) (input : ResolveDialSetInput) (valid : IsIndex random) where
  untried-rung-lt :
      (rung : List QueueMember)
      → 0 < length rung
      → All (λ m. Memᴰ m input.eligible_members) rung
      → All (λ m. includes input.attempt_order m.id ≡ false) rung
      → length (untried input.eligible_members (input.attempt_order ++ ids rung))
        < length (untried input.eligible_members input.attempt_order)
  untried-rung-lt [] p a b = absurd (omega arith)
  untried-rung-lt (m ∷ rung) p a b =
      untried-append-lt input.eligible_members input.attempt_order (ids rung) m a.0 b.0

  -- Each attempt of a cycle leaves fewer members untried.
  untried-attempt-lt :
      0 < length input.eligible_members
      → 0 < length (untried input.eligible_members input.attempt_order)
      → length (untried input.eligible_members (attempt random input))
        < length (untried input.eligible_members input.attempt_order)
  unfolding attempt
  untried-attempt-lt some_eligible some_untried =
      untried-rung-lt (resolve_dial_set random input).members_to_ring
        (resolve_dial_set-pos random input valid some_eligible)
        (All-resolve_dial_set _ random input (All-mem input.eligible_members))
        (resolve_dial_set-untried random input some_untried)

  untried-attempt-le :
      length (untried input.eligible_members (attempt random input))
      ≤ length (untried input.eligible_members input.attempt_order)
  unfolding attempt
  untried-attempt-le = untried-append-le input.eligible_members input.attempt_order _

untried-attempts :
    (random : ℕ → ℕ) (s : QueueStrategy) (ms : List QueueMember)
    (steps : List (List QueueMemberAggregate × Option String)) (order : List String)
    → IsIndex random
    → 0 < length ms
    → length (untried ms order) ≤ length steps
    → length (untried ms (attempts random s ms steps order)) ≡ 0
unfolding attempts
untried-attempts random s ms [] order valid p h = omega arith
untried-attempts random s ms ((ags, cursor) ∷ steps) order valid p h =
    untried-attempts random s ms steps (attempt random input) valid p (
      ground
        (arith, untried-attempt-lt random input valid p, untried-attempt-le random input valid))
  where
    input : ResolveDialSetInput
    input = record {
      strategy = s;
      eligible_members = ms;
      aggregates = ags;
      cursor_member_id = cursor;
      attempt_order = order;
    }

tried_of_none-untried :
    (ms : List QueueMember) (order : List String)
    → length (untried ms order) ≡ 0
    → All (λ m. includes order m.id ≡ true) ms
tried_of_none-untried [] order h = tt
tried_of_none-untried (m ∷ ms) order h = elim (Bool-cases (includes order m.id)) [
  | inl e ↦ (e, tried_of_none-untried ms order (ground arith))
  | inr e ↦ absurd (ground arith)
]

-- Whatever the strategy, and whatever the aggregates and the cursor are at each attempt: after as
-- many attempts as there are eligible members not yet tried, every eligible member has been rung.
pub attempts-ring_everybody :
    (random : ℕ → ℕ) (s : QueueStrategy) (ms : List QueueMember)
    (steps : List (List QueueMemberAggregate × Option String)) (order : List String)
    → IsIndex random
    → 0 < length ms
    → length (untried ms order) ≤ length steps
    → All (λ m. includes (attempts random s ms steps order) m.id ≡ true) ms
attempts-ring_everybody random s ms steps order valid p h =
    tried_of_none-untried ms _ (untried-attempts random s ms steps order valid p h)
