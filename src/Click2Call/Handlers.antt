-- ===== src/Click2Call/Handlers.antt =====
-- The event handlers of src/modules/calls/services/click2call-workflow.service.ts.
use comm_care.Prelude.{
  ℕ, String, Bool, false, not, ◌&&◌, ◌||◌, Option, none, some, if◌then◌else◌, or_else, present,
  is_some, holds_text, ◌==◌,
}
use comm_care.Hangup.{
  CallStatus, CallEndContext, resolve_leg_end_status, resolve_call_end_status,
  is_no_answer_call_status,
}
use comm_care.Ari.{RawAriEventBody, LegRole, agent, callee, Click2CallArgs, parse_click2call_args}
use comm_care.CallLegs.{upsert_from_ari_channel, finalize_leg_end, update_leg_status}
use comm_care.Entities.{
  Call, CallLeg, WebhookTrigger, caller_connected, caller_no_answer, callee_no_answer,
  caller_disconnected, callee_disconnected,
}
use comm_care.World.{Environment, M, skip, ◌>>=◌, ◌>>◌, attempt, do_action, ask, hangup_channel}
use comm_care.Click2Call.Rows.{
  no_options, no_extra, arrived_leg, with_caller, with_callee, ended_call,
  map_channel_state_to_leg_status, parse_ari_event_time, record_event_at, update_call,
  emit_click2call_webhook, load_click2call,
}
use comm_care.Click2Call.Connecting.{originate_callee_leg, bridge_click2call_legs}

abbrev leg_id : Option CallLeg → Option String
leg_id none = none
leg_id (some leg) = some leg.id

abbrev pub was_answered : Option CallLeg → Bool
was_answered none = false
was_answered (some leg) = is_some leg.answered_at

abbrev destination_of : Call → LegRole → String → Option String
destination_of call agent to_number = some (or_else call.caller_number to_number)
destination_of call callee to_number = some to_number

-- A channel that is recorded already, and is another one.
abbrev pub is_other : Option String → String → Bool
is_other recorded channel = is_some (present recorded) && not (holds_text recorded channel)

abbrev pub role_of : Bool → LegRole
role_of is_caller_leg = if is_caller_leg then agent else callee

abbrev pub end_trigger : Bool → CallStatus → WebhookTrigger
end_trigger is_caller_leg status =
    if is_no_answer_call_status status
    then (if is_caller_leg then caller_no_answer else callee_no_answer)
    else (if is_caller_leg then caller_disconnected else callee_disconnected)

abbrev pub end_context : Call → String → Bool → Option ℕ → CallEndContext
end_context call channel leg_was_answered hangup_cause = record {
  leg = record {
    leg_was_answered = leg_was_answered;
    was_bridged = is_some (present call.bridge_id);
    hangup_cause = hangup_cause;
  };
  is_caller_leg = holds_text call.caller_channel_id channel;
  is_callee_leg = holds_text call.callee_channel_id channel;
}

module _ (env : Environment) where
  unfoldable pub join_call : Call → Click2CallArgs → String → ℕ → M (Unit {0})
  join_call call parsed channel event_time =
      if parsed.leg == "agent"
      then (if is_other call.caller_channel_id channel
          then skip
          else update_call env (with_caller call channel event_time))
      else if parsed.leg == "callee"
      then (if is_other call.callee_channel_id channel
          then skip
          else update_call env (with_callee call channel))
      else skip

  unfoldable pub channel_arrived : RawAriEventBody → String → Click2CallArgs → Call → M (Unit {0})
  channel_arrived event channel parsed call = do
    event_time ← parse_ari_event_time env event
    let leg_role = if parsed.leg == "callee" then callee else agent
    leg ← upsert_from_ari_channel env (
        arrived_leg call event channel leg_role (destination_of call leg_role parsed.to_number)
          event_time)
    record_event_at env call.id "StasisStart"
        (record no_options {
          channel_id = some channel;
          channel_name = event.channel_name;
          call_leg_id = some leg.id;
        })
        event_time
    join_call call parsed channel event_time

  unfoldable pub handle_stasis_start : RawAriEventBody → M (Unit {0})
  handle_stasis_start event = elim (parse_click2call_args event.args) [
    | none ↦ skip
    | some parsed ↦ elim (present event.channel_id) [
      | none ↦ skip
      | some channel ↦ do
        found ← load_click2call env parsed.call_id
        elim found [ none ↦ skip | some call ↦ channel_arrived event channel parsed call ]
    ]
  ]

  -- A channel of an active call is answered: the caller's leads to the callee, the callee's to the bridge.
  unfoldable pub channel_up : String → Call → M (Unit {0})
  channel_up channel call =
      if holds_text call.caller_channel_id channel && not (is_some (present call.callee_channel_id))
      then (do
        emit_click2call_webhook env call caller_connected
            (record no_extra { channel_id = some channel })
        originate_callee_leg env call)
      else if holds_text call.callee_channel_id channel && not (is_some (present call.bridge_id))
      then bridge_click2call_legs env call
      else skip

  unfoldable pub channel_changed : RawAriEventBody → String → String → Call → M (Unit {0})
  channel_changed event channel state call = do
    event_time ← parse_ari_event_time env event
    leg ←
        update_leg_status env channel (map_channel_state_to_leg_status state)
          (if state == "Up" then some event_time else none)
    record_event_at env call.id "ChannelStateChange"
        (record no_options {
          channel_id = some channel;
          channel_name = event.channel_name;
          call_leg_id = leg_id leg;
        })
        event_time
    if state == "Up" then channel_up channel call else skip

  unfoldable pub handle_channel_state_change : RawAriEventBody → M (Unit {0})
  handle_channel_state_change event = elim (present event.channel_id) [
    | none ↦ skip
    | some channel ↦ elim (present event.channel_state) [
      | none ↦ skip
      | some state ↦ do
        found ← ask env (λ h. env.active_click2call_by_channel h channel)
        elim found [ none ↦ skip | some call ↦ channel_changed event channel state call ]
    ]
  ]

  unfoldable pub hang_up_peer : Option String → Bool → M (Unit {0})
  hang_up_peer other was_bridged = elim (present other) [
    | none ↦ skip
    | some channel ↦
        if was_bridged then skip else attempt (do_action env (hangup_channel channel)) >> skip
  ]

  -- The first leg to go ends the call.
  unfoldable pub end_call : RawAriEventBody → String → Call → Bool → Bool → ℕ → M (Unit {0})
  end_call event channel call is_caller_leg leg_was_answered event_time = do
    let call_status =
        resolve_call_end_status (end_context call channel leg_was_answered event.cause)
    emit_click2call_webhook env call (end_trigger is_caller_leg call_status) (record {
      status = some call_status;
      channel_id = some channel;
      bridge_id = none;
      leg_role = some (role_of is_caller_leg);
      hangup_cause = event.cause;
      hangup_cause_text = event.cause_txt;
      occurred_at = some event_time;
    })
    hang_up_peer (if is_caller_leg then call.callee_channel_id else call.caller_channel_id)
        (is_some (present call.bridge_id))
    update_call env (ended_call call call_status event_time)

  unfoldable pub leg_destroyed : RawAriEventBody → String → Call → Bool → M (Unit {0})
  leg_destroyed event channel call is_caller_leg = do
    event_time ← parse_ari_event_time env event
    existing ← ask env (λ h. env.leg_by_unique_id h channel)
    leg ←
        finalize_leg_end env channel
          (resolve_leg_end_status (record {
            leg_was_answered = was_answered existing;
            was_bridged = is_some (present call.bridge_id);
            hangup_cause = event.cause;
          }))
          event_time event.cause event.cause_txt
    record_event_at env call.id "ChannelDestroyed"
        (record no_options {
          channel_id = some channel;
          channel_name = event.channel_name;
          call_leg_id = leg_id leg;
        })
        event_time
    if is_some call.ended_at
        then skip
        else end_call event channel call is_caller_leg (was_answered existing) event_time

  unfoldable pub handle_channel_destroyed : RawAriEventBody → M (Unit {0})
  handle_channel_destroyed event = elim (present event.channel_id) [
    | none ↦ skip
    | some channel ↦ do
      found ← ask env (λ h. env.click2call_by_channel h channel)
      elim found [
        | none ↦ skip
        | some call ↦
            if holds_text call.caller_channel_id channel
              || holds_text call.callee_channel_id channel
            then leg_destroyed event channel call (holds_text call.caller_channel_id channel)
            else skip
      ]
  ]

  unfoldable pub handle_type : String → RawAriEventBody → M (Unit {0})
  handle_type type event =
      if type == "StasisStart"
      then handle_stasis_start event
      else if type == "ChannelStateChange"
      then handle_channel_state_change event
      else if type == "ChannelDestroyed"
      then handle_channel_destroyed event
      else skip

  unfoldable pub handle_event : RawAriEventBody → M (Unit {0})
  handle_event event = elim (present event.type) [
    | none ↦ skip
    | some type ↦ handle_type type event
  ]
