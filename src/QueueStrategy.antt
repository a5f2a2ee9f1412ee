-- ===== src/QueueStrategy.antt =====
-- src/modules/inboundQueues/utils/queue-strategy.util.ts: which members of a queue to ring next.
-- `Math.random` is the argument `random`: `random n` is `Math.floor(Math.random() * n)`.
-- Times are milliseconds. `undefined` in the place of a member is the empty choice.
pub mod Selection
pub mod Cycle
pub mod Best
use comm_care.Prelude.{
  ℕ, suc, ◌+◌, ◌%◌, String, Bool, true, false, not, Option, none, some, List, [], ◌∷◌, leb, eqb,
  if◌then◌else◌, or_else, present, ◌==◌, includes, length, get_elem?, keep, find_first,
}

pub data QueueStrategy : Type 0 where
  ring_all round_robin least_recent fewest_calls random_pick : QueueStrategy

pub record QueueMember : Type 0 where
  pub id : String
  pub queue_id : String
  pub agent_id : String
  pub priority : ℕ
  pub penalty : ℕ
  pub enabled : Bool

pub record QueueMemberAggregate : Type 0 where
  pub agent_id : String
  pub answered_count : ℕ
  pub last_bridged_at : Option ℕ

pub record ResolveDialSetInput : Type 0 where
  pub strategy : QueueStrategy
  pub eligible_members : List QueueMember
  pub aggregates : List QueueMemberAggregate
  pub cursor_member_id : Option String
  pub attempt_order : List String

pub record ResolveDialSetResult : Type 0 where
  pub members_to_ring : List QueueMember
  pub next_cursor_member_id : Option String

abbrev pub untried : List QueueMember → List String → List QueueMember
untried members attempt_order = keep (λ m. not (includes attempt_order m.id)) members

abbrev or_all : List QueueMember → List QueueMember → List QueueMember
or_all [] members = members
or_all (m ∷ ms) members = m ∷ ms

-- Every eligible member has been tried: a fresh cycle.
unfoldable pub exclude_already_tried : List QueueMember → List String → List QueueMember
exclude_already_tried members attempt_order = or_all (untried members attempt_order) members

unfoldable pub aggregate_for : String → List QueueMemberAggregate → QueueMemberAggregate
aggregate_for agent aggregates =
    or_else (find_first (λ a. a.agent_id == agent) aggregates)
      (record { agent_id = agent; answered_count = 0; last_bridged_at = none })

unfoldable pub find_index : String → List QueueMember → Option ℕ
find_index id [] = none
find_index id (m ∷ ms) =
    if m.id == id then some 0 else elim (find_index id ms) [ none ↦ none | some i ↦ some (suc i) ]

-- `(cursorIndex + 1) % members.length`, where the index of a cursor that is absent is -1
unfoldable pub next_index : Option String → List QueueMember → ℕ
unfolding find_index
next_index cursor members = elim (present cursor) [
  | none ↦ 0 % length members
  | some id ↦ elim (find_index id members) [
    | none ↦ 0 % length members
    | some i ↦ (i + 1) % length members
  ]
]

abbrev pub the_one : Option QueueMember → List QueueMember
the_one none = []
the_one (some m) = m ∷ []

abbrev pub no_one : ResolveDialSetResult
no_one = record { members_to_ring = []; next_cursor_member_id = none }

abbrev moved_to : Option QueueMember → ResolveDialSetResult
moved_to none = no_one
moved_to (some m) = record { members_to_ring = m ∷ []; next_cursor_member_id = some m.id }

unfoldable pub pick_round_robin : List QueueMember → Option String → ResolveDialSetResult
unfolding next_index
pick_round_robin members cursor = moved_to (get_elem? members (next_index cursor members))

-- `[...members].sort(…)`, which is stable: `before a b` is `compare(a, b) <= 0`.
unfoldable pub insert_sorted :
    (QueueMember → QueueMember → Bool) → QueueMember → List QueueMember → List QueueMember
insert_sorted before m [] = m ∷ []
insert_sorted before m (x ∷ xs) = if before m x then m ∷ x ∷ xs else x ∷ insert_sorted before m xs

unfoldable pub sort_members :
    (QueueMember → QueueMember → Bool) → List QueueMember → List QueueMember
unfolding insert_sorted
sort_members before [] = []
sort_members before (m ∷ ms) = insert_sorted before m (sort_members before ms)

-- `sorted.slice(0, 1)`
abbrev pub first_of_sorted : List QueueMember → List QueueMember
first_of_sorted [] = []
first_of_sorted (m ∷ ms) = m ∷ []

unfoldable pub pick_by_sorted_aggregate :
    List QueueMember → List QueueMemberAggregate → (QueueMemberAggregate → ℕ) → ResolveDialSetResult
unfolding sort_members aggregate_for
pick_by_sorted_aggregate members aggregates key = record {
  members_to_ring = first_of_sorted (
      sort_members
        (λ a b.
          leb (key (aggregate_for a.agent_id aggregates))
            (key (aggregate_for b.agent_id aggregates)))
        members);
  next_cursor_member_id = none;
}

unfoldable pub pick_random : (ℕ → ℕ) → List QueueMember → ResolveDialSetResult
pick_random random members = record {
  members_to_ring = the_one (get_elem? members (random (length members)));
  next_cursor_member_id = none;
}

-- The keys of the two sorting strategies: `a - b` is at most 0 exactly when `a <= b`.
abbrev pub last_bridged_key : QueueMemberAggregate → ℕ
last_bridged_key a = or_else a.last_bridged_at 0

abbrev pub answered_key : QueueMemberAggregate → ℕ
answered_key a = a.answered_count

pub pick :
    (ℕ → ℕ)
    → QueueStrategy
    → List QueueMember
    → List QueueMemberAggregate
    → Option String
    → ResolveDialSetResult
unfolding pick_round_robin pick_by_sorted_aggregate pick_random
pick random ring_all candidates aggregates cursor = record {
  members_to_ring = candidates;
  next_cursor_member_id = none;
}
pick random round_robin candidates aggregates cursor = pick_round_robin candidates cursor
pick random least_recent candidates aggregates cursor =
    pick_by_sorted_aggregate candidates aggregates last_bridged_key
pick random fewest_calls candidates aggregates cursor =
    pick_by_sorted_aggregate candidates aggregates answered_key
pick random random_pick candidates aggregates cursor = pick_random random candidates

abbrev resolve_from : (ℕ → ℕ) → ResolveDialSetInput → List QueueMember → ResolveDialSetResult
resolve_from random input [] = no_one
resolve_from random input (m ∷ ms) =
    pick random input.strategy (exclude_already_tried (m ∷ ms) input.attempt_order) input.aggregates
      input.cursor_member_id

unfoldable pub resolve_dial_set : (ℕ → ℕ) → ResolveDialSetInput → ResolveDialSetResult
unfolding pick exclude_already_tried
resolve_dial_set random input = resolve_from random input input.eligible_members
