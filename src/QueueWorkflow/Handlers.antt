-- ===== src/QueueWorkflow/Handlers.antt =====
-- The event handlers of the queue workflow: a caller enters, an agent answers, a channel is destroyed.
use comm_care.Prelude.{
  ℕ, String, Bool, true, false, not, ◌&&◌, ◌||◌, Option, none, some, List, [], ◌∷◌, leb, eqb,
  if◌then◌else◌, is_some, ◌==◌, holds_text, present, includes, keep, seconds_between, lookup,
  insert, remove,
}
use comm_care.Hangup.{is_cause}
use comm_care.Hangup.Cause
use comm_care.Ari.{RawAriEventBody, QueueArgs, QueueLeg, parse_queue_args}
use comm_care.Entities.{
  Queue, QueueCall, QueueCallStatus, QueueCallEventType, ringing, bridged, completed, abandoned,
  timed_out, full, entered_queue, agent_answered, agent_rejected, agent_unavailable,
  caller_abandoned, queue_timeout, queue_full, call_bridged, call_completed,
}
use comm_care.World.{
  Environment, World, RingingAgentLeg, M, pure, skip, ◌>>=◌, ◌>>◌, gets, modify, attempt, perform,
  do_action, ask, answer_channel, hangup_channel, create_bridge, add_channel_to_bridge,
  write_queue_call,
}
use comm_care.QueueWorkflow.Rows.{
  no_payload, new_queue_call, create_queue_call, log_event, log_position_changed,
  resolve_eligible_members, find_enabled_queue,
}
use comm_care.QueueWorkflow.Ringing.{start_ring_attempt}

-- `queue.maxCallers && activeCount >= queue.maxCallers`
unfoldable pub is_full : Queue → ℕ → Bool
is_full queue active_count = elim queue.max_callers [
  | none ↦ false
  | some max ↦ not (eqb max 0) && leb max active_count
]

abbrev pub is_ringing : QueueCallStatus → Bool
is_ringing ringing = true
is_ringing _ = false

abbrev pub is_bridged : QueueCallStatus → Bool
is_bridged bridged = true
is_bridged _ = false

-- The rows that the handlers write.
abbrev pub turned_away : QueueCall → QueueCallStatus → ℕ → QueueCall
turned_away q status now = record q { status = status; ended_at = some now }

abbrev pub bridged_to : QueueCall → RingingAgentLeg → String → ℕ → QueueCall
bridged_to q leg bridge now = record q {
  status = bridged;
  bridge_id = some bridge;
  bridged_at = some now;
  ringing_channel_ids = [];
  answered_member_id = some leg.member_id;
  answered_agent_id = some leg.agent_id;
  wait_seconds = some (seconds_between q.entered_at now);
}

abbrev talk_seconds_at : QueueCall → ℕ → Option ℕ
talk_seconds_at q now = elim q.bridged_at [
  | none ↦ q.talk_seconds
  | some bridged_at ↦ some (seconds_between bridged_at now)
]

abbrev pub completed_at : QueueCall → ℕ → QueueCall
completed_at q now = record q {
  status = completed;
  ended_at = some now;
  talk_seconds = talk_seconds_at q now;
}

abbrev pub abandoned_at : QueueCall → ℕ → QueueCall
abandoned_at q now = record q {
  status = abandoned;
  ringing_channel_ids = [];
  ended_at = some now;
  wait_seconds = some (seconds_between q.entered_at now);
}

abbrev pub without_channel : QueueCall → String → QueueCall
without_channel q channel = record q {
  ringing_channel_ids = keep (λ id. not (id == channel)) q.ringing_channel_ids;
}

abbrev pub rejection : Option ℕ → QueueCallEventType
rejection cause =
    if is_cause Cause.user_busy cause || is_cause Cause.call_rejected cause
    then agent_rejected
    else agent_unavailable

abbrev pub forget_caller : String → World → World
forget_caller channel w = record w {
  queue_call_by_caller_channel = remove channel w.queue_call_by_caller_channel;
}

abbrev pub forget_leg : String → World → World
forget_leg channel w = record w { ringing_agent_legs = remove channel w.ringing_agent_legs }

module _ (env : Environment) where
  -- A caller who cannot wait: the row is written with its end, and the channel is hung up.
  unfoldable pub turn_away :
      QueueCall → QueueCallStatus → QueueCallEventType → Option String → M (Unit {0})
  turn_away q status type reason = do
    saved ← create_queue_call env (turned_away q status q.entered_at)
    log_event env saved type
        (record no_payload { channel_id = some q.caller_channel_id; reason = reason })
    do_action env (hangup_channel q.caller_channel_id)

  unfoldable pub start_waiting : ℕ → Queue → QueueCall → M (Unit {0})
  start_waiting fuel queue q = do
    saved ← create_queue_call env q
    modify (λ w. record w {
      queue_call_by_caller_channel =
          insert q.caller_channel_id saved.id w.queue_call_by_caller_channel;
    })
    log_event env saved entered_queue (record no_payload { channel_id = some q.caller_channel_id })
    log_position_changed env saved
    do_action env (answer_channel q.caller_channel_id)
    start_ring_attempt env fuel queue saved

  unfoldable pub enter_queue : ℕ → Queue → QueueCall → M (Unit {0})
  enter_queue fuel queue q = do
    active_count ← ask env (λ h. env.count_active_by_queue h queue.id)
    if is_full queue active_count then turn_away q full queue_full none else do
      eligible ← resolve_eligible_members env queue
      elim eligible [
        | [] ↦ turn_away q timed_out queue_timeout (some "no_eligible_members")
        | e ∷ es ↦ start_waiting fuel queue q
      ]

  unfoldable pub handle_caller_entered_queue :
      ℕ → (channel tenant_id queue_id : String) → Option String → M (Unit {0})
  handle_caller_entered_queue fuel channel tenant_id queue_id caller_number = do
    found ← find_enabled_queue env tenant_id queue_id
    elim found [
      | none ↦ do_action env (hangup_channel channel)
      | some queue ↦ do
        now ← ask env env.clock
        enter_queue fuel queue (new_queue_call tenant_id queue.id channel caller_number now)
    ]

  unfoldable pub handle_queue_args : ℕ → String → Option String → QueueArgs → M (Unit {0})
  handle_queue_args fuel channel caller_number parsed = elim parsed.leg [
    | QueueLeg.agent ↦ skip
    | QueueLeg.caller ↦
        handle_caller_entered_queue fuel channel parsed.tenant_id parsed.queue_id caller_number
  ]

  unfoldable pub handle_stasis_start : ℕ → RawAriEventBody → M (Unit {0})
  handle_stasis_start fuel event = elim (present event.channel_id) [
    | none ↦ skip
    | some channel ↦ elim (parse_queue_args event.args) [
      | none ↦ skip
      | some parsed ↦ handle_queue_args fuel channel event.caller_number parsed
    ]
  ]

  -- `cancelRing` of AsteriskQueueAdapter
  unfoldable pub cancel_ring : String → M (Unit {0})
  cancel_ring channel = attempt (do_action env (hangup_channel channel)) >> skip

  unfoldable pub cancel_rings : List String → M (Unit {0})
  cancel_rings [] = skip
  cancel_rings (channel ∷ channels) = do
    modify (forget_leg channel)
    cancel_ring channel
    cancel_rings channels

  -- `bridgeCallerAndAgent` of AsteriskQueueAdapter
  unfoldable pub bridge_caller_and_agent : (caller_channel agent_channel : String) → M String
  bridge_caller_and_agent caller_channel agent_channel = do
    bridge ← perform env create_bridge
    do_action env (add_channel_to_bridge bridge.id caller_channel)
    do_action env (add_channel_to_bridge bridge.id agent_channel)
    pure bridge.id

  -- The first agent to answer gets the call; the other ringing channels are cancelled.
  unfoldable pub bridge_answered : String → RingingAgentLeg → QueueCall → M (Unit {0})
  bridge_answered channel leg q = do
    cancel_rings (keep (λ id. not (id == channel)) q.ringing_channel_ids)
    modify (forget_leg channel)
    bridge ← bridge_caller_and_agent q.caller_channel_id channel
    now ← ask env env.clock
    do_action env (write_queue_call (bridged_to q leg bridge now))
    log_event env (bridged_to q leg bridge now) agent_answered (record no_payload {
      member_id = some leg.member_id;
      agent_id = some leg.agent_id;
      channel_id = some channel;
    })
    log_event env (bridged_to q leg bridge now) call_bridged
        (record no_payload { bridge_id = some bridge; channel_id = some channel })

  unfoldable pub handle_agent_up : String → RingingAgentLeg → M (Unit {0})
  handle_agent_up channel leg = do
    found ← ask env (λ h. env.queue_call_by_id h leg.queue_call_id)
    elim found [
      | none ↦ skip
      | some q ↦
          if is_ringing q.status && includes q.ringing_channel_ids channel
          then bridge_answered channel leg q
          else skip
    ]

  unfoldable pub handle_channel_state_change : RawAriEventBody → M (Unit {0})
  handle_channel_state_change event = elim (present event.channel_id) [
    | none ↦ skip
    | some channel ↦
        if holds_text event.channel_state "Up"
        then (do
          leg ← gets (λ w. lookup channel w.ringing_agent_legs)
          elim leg [ none ↦ skip | some l ↦ handle_agent_up channel l ])
        else skip
  ]

  unfoldable pub end_caller : String → QueueCall → M (Unit {0})
  end_caller channel q =
      if is_bridged q.status
      then (do
        now ← ask env env.clock
        do_action env (write_queue_call (completed_at q now))
        log_event env (completed_at q now) call_completed
            (record no_payload { channel_id = some channel }))
      else (do
        now ← ask env env.clock
        cancel_rings q.ringing_channel_ids
        do_action env (write_queue_call (abandoned_at q now))
        log_event env (abandoned_at q now) caller_abandoned
            (record no_payload { channel_id = some channel }))

  unfoldable pub handle_caller_channel_destroyed : (queue_call_id channel : String) → M (Unit {0})
  handle_caller_channel_destroyed queue_call_id channel = do
    found ← ask env (λ h. env.queue_call_by_id h queue_call_id)
    elim found [ none ↦ skip | some q ↦ if is_some q.ended_at then skip else end_caller channel q ]

  -- Once the last channel of an attempt is gone, the next attempt follows.
  unfoldable pub retry : ℕ → QueueCall → M (Unit {0})
  retry fuel q = do
    found ← find_enabled_queue env q.tenant_id q.queue_id
    elim found [
      | none ↦ do
        modify (forget_caller q.caller_channel_id)
        do_action env (hangup_channel q.caller_channel_id)
      | some queue ↦ start_ring_attempt env fuel queue q
    ]

  unfoldable pub drop_agent : ℕ → String → RingingAgentLeg → Option ℕ → QueueCall → M (Unit {0})
  drop_agent fuel channel leg cause q = do
    do_action env (write_queue_call (without_channel q channel))
    log_event env (without_channel q channel) (rejection cause) (record no_payload {
      member_id = some leg.member_id;
      agent_id = some leg.agent_id;
      channel_id = some channel;
      cause = cause;
    })
    elim (without_channel q channel).ringing_channel_ids [
      | [] ↦ retry fuel (without_channel q channel)
      | c ∷ cs ↦ skip
    ]

  unfoldable pub handle_agent_channel_destroyed :
      ℕ → String → RingingAgentLeg → Option ℕ → M (Unit {0})
  handle_agent_channel_destroyed fuel channel leg cause = do
    found ← ask env (λ h. env.queue_call_by_id h leg.queue_call_id)
    elim found [
      | none ↦ skip
      | some q ↦
          if is_ringing q.status && includes q.ringing_channel_ids channel
          then drop_agent fuel channel leg cause q
          else skip
    ]

  unfoldable pub handle_agent_gone : ℕ → String → Option ℕ → M (Unit {0})
  handle_agent_gone fuel channel cause = do
    leg ← gets (λ w. lookup channel w.ringing_agent_legs)
    elim leg [
      | none ↦ skip
      | some l ↦ do modify (forget_leg channel); handle_agent_channel_destroyed fuel channel l cause
    ]

  unfoldable pub handle_channel_destroyed : ℕ → RawAriEventBody → M (Unit {0})
  handle_channel_destroyed fuel event = elim (present event.channel_id) [
    | none ↦ skip
    | some channel ↦ do
      caller ← gets (λ w. present (lookup channel w.queue_call_by_caller_channel))
      elim caller [
        | some queue_call_id ↦ do
          modify (forget_caller channel)
          handle_caller_channel_destroyed queue_call_id channel
        | none ↦ handle_agent_gone fuel channel event.cause
      ]
  ]

  unfoldable pub handle_type : ℕ → String → RawAriEventBody → M (Unit {0})
  handle_type fuel type event =
      if type == "StasisStart"
      then handle_stasis_start fuel event
      else if type == "ChannelStateChange"
      then handle_channel_state_change event
      else if type == "ChannelDestroyed"
      then handle_channel_destroyed fuel event
      else skip

  unfoldable pub handle_event : ℕ → RawAriEventBody → M (Unit {0})
  handle_event fuel event = elim (present event.type) [
    | none ↦ skip
    | some type ↦ handle_type fuel type event
  ]
