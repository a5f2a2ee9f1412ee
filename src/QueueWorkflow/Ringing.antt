-- ===== src/QueueWorkflow/Ringing.antt =====
-- `startRingAttempt`: choose whom to ring, ring them, and start over when nobody could be rung.
-- The recursion takes fuel, one unit for each attempt.
use comm_care.Prelude.{
  ℕ, zero, suc, ◌+◌, ◌*◌, String, Option, none, some, List, [], ◌∷◌, ◌++◌, map, leb, if◌then◌else◌,
  ◌==◌, includes, present, every, find_first, insert,
}
use comm_care.QueueStrategy.{
  QueueMember, QueueMemberAggregate, ResolveDialSetInput, ResolveDialSetResult, resolve_dial_set,
}
use comm_care.Ari.{QueueLeg, build_queue_app_args}
use comm_care.Entities.{Queue, QueueCall, ringing, agent_offered}
use comm_care.World.{
  Environment, M, exhausted, pure, skip, ◌>>=◌, ◌>>◌, modify, attempt, perform, do_action, ask,
  originate_call, write_queue_call, write_queue,
}
use comm_care.QueueWorkflow.Rows.{
  EligibleMember, no_payload, log_event, timeout_queue_call, resolve_eligible_members,
}

-- A fresh cycle where every eligible member has been tried.
abbrev pub with_fresh_cycle : List EligibleMember → QueueCall → QueueCall
with_fresh_cycle eligible q =
    if every (λ e. includes q.attempt_order e.member.id) eligible
    then record q { attempt_order = [] }
    else q

abbrev pub dial_input :
    Queue → QueueCall → List EligibleMember → List QueueMemberAggregate → ResolveDialSetInput
dial_input queue q eligible aggregates = record {
  strategy = queue.strategy;
  eligible_members = map (λ e. e.member) eligible;
  aggregates = aggregates;
  cursor_member_id = queue.round_robin_cursor_member_id;
  attempt_order = q.attempt_order;
}

-- The row after an attempt that rang `members` on `channels`.
abbrev pub ringing_on : QueueCall → List QueueMember → List String → QueueCall
ringing_on q members channels = record q {
  ringing_channel_ids = channels;
  attempt_order = q.attempt_order ++ map (λ m. m.id) members;
  status = ringing;
}

abbrev cons_some : Option String → List String → List String
cons_some none cs = cs
cons_some (some c) cs = c ∷ cs

module _ (env : Environment) where
  -- One round of the loop over the members to ring; `ringMember` of AsteriskQueueAdapter. A channel
  -- counts as ringing from the moment that it was originated, also if the log entry fails.
  unfoldable pub ring_member : Queue → QueueCall → QueueMember → EligibleMember → M (Option String)
  ring_member queue q member entry = do
    placed ← attempt (
        perform env (
          originate_call entry.extension.pjsip_endpoint (record {
            app_args =
                build_queue_app_args q.tenant_id queue.id q.id QueueLeg.agent (some member.id);
            caller_id_number = q.caller_number;
            timeout = some queue.ring_timeout_seconds;
          })))
    elim placed [
      | none ↦ pure none
      | some channel ↦ do
        modify (λ w. record w {
          ringing_agent_legs =
              insert channel.id
                (record { queue_call_id = q.id; member_id = member.id; agent_id = member.agent_id })
                w.ringing_agent_legs;
        })
        attempt (
            log_event env q agent_offered (record no_payload {
              member_id = some member.id;
              agent_id = some member.agent_id;
              channel_id = some channel.id;
            }))
        pure (some channel.id)
    ]

  -- The channels that ring, in the members' order.
  unfoldable pub ring_members :
      Queue → QueueCall → List EligibleMember → List QueueMember → M (List String)
  ring_members queue q eligible [] = pure []
  ring_members queue q eligible (member ∷ members) = do
    channel ← elim (find_first (λ e. e.member.id == member.id) eligible) [
      | none ↦ pure none
      | some entry ↦ ring_member queue q member entry
    ]
    channels ← ring_members queue q eligible members
    pure (cons_some channel channels)

  unfoldable pub save_cursor : Queue → Option String → M Queue
  save_cursor queue cursor = elim (present cursor) [
    | none ↦ pure queue
    | some id ↦ do
      do_action env (write_queue (record queue { round_robin_cursor_member_id = some id }))
      pure (record queue { round_robin_cursor_member_id = some id })
  ]

  -- From the choice of the members on; `again` is the attempt that follows when none could be rung.
  unfoldable pub ring_chosen :
      (Queue → QueueCall → M (Unit {0}))
      → Queue
      → QueueCall
      → List EligibleMember
      → ResolveDialSetResult
      → M (Unit {0})
  ring_chosen again queue q eligible chosen = elim chosen.members_to_ring [
    | [] ↦ timeout_queue_call env q "no_eligible_members"
    | m ∷ ms ↦ do
      saved_queue ← save_cursor queue chosen.next_cursor_member_id
      channels ← ring_members saved_queue q eligible (m ∷ ms)
      do_action env (write_queue_call (ringing_on q (m ∷ ms) channels))
      elim channels [ [] ↦ again saved_queue (ringing_on q (m ∷ ms) []) | c ∷ cs ↦ skip ]
  ]

  unfoldable pub ring_eligible :
      (Queue → QueueCall → M (Unit {0})) → Queue → QueueCall → List EligibleMember → M (Unit {0})
  ring_eligible again queue q [] = timeout_queue_call env q "no_eligible_members"
  ring_eligible again queue q (e ∷ es) = do
    aggregates ← ask env (λ h. env.aggregates_by_queue h queue.id)
    random ← ask env env.random
    ring_chosen again queue (with_fresh_cycle (e ∷ es) q) (e ∷ es) (
        resolve_dial_set random
          (dial_input queue (with_fresh_cycle (e ∷ es) q) (e ∷ es) aggregates))

  unfoldable pub start_ring_attempt : ℕ → Queue → QueueCall → M (Unit {0})
  start_ring_attempt zero queue q = exhausted
  start_ring_attempt (suc fuel) queue q = do
    now ← ask env env.clock
    if leb (q.entered_at + queue.max_wait_time_seconds * 1000) now
        then timeout_queue_call env q "max_wait_time_exceeded"
        else do
          eligible ← resolve_eligible_members env queue
          ring_eligible (start_ring_attempt fuel) queue q eligible
