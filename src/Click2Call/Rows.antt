-- ===== src/Click2Call/Rows.antt =====
-- The rows and webhooks of a click-to-call, as src/modules/calls/services/click2call-workflow.service.ts
-- writes them.
use comm_care.Prelude.{ℕ, String, Option, none, some, if◌then◌else◌, or_else, present, ◌==◌}
use comm_care.Hangup.{CallStatus, CallLegStatus}
use comm_care.CallLegs.{UpsertAriCallLegInput, append_ari_event, duration_at}
use comm_care.Ari.{RawAriEventBody, LegRole}
use comm_care.Entities.{Call, CallEvent, WebhookTrigger, Click2CallWebhookData}
use comm_care.World.{
  Environment, Reply, M, pure, skip, ◌>>=◌, do_action, ask, write_call, publish_webhook,
}

-- The options of `recordClick2CallEvent`
pub record EventOptions : Type 0 where
  pub channel_id : Option String
  pub channel_name : Option String
  pub bridge_unique_id : Option String
  pub call_leg_id : Option String

abbrev pub no_options : EventOptions
no_options = record {
  channel_id = none;
  channel_name = none;
  bridge_unique_id = none;
  call_leg_id = none;
}

abbrev or_channel : Option String → Option String → Option String
or_channel none id = id
or_channel (some name) id = some name

unfoldable pub call_event : String → String → EventOptions → ℕ → CallEvent
call_event call_id event_type options event_time = record {
  call_id = call_id;
  call_leg_id = options.call_leg_id;
  linked_id = none;
  unique_id = options.channel_id;
  event_type = event_type;
  event_time = event_time;
  channel = or_channel options.channel_name options.channel_id;
  bridge_unique_id = options.bridge_unique_id;
}

unfoldable pub map_channel_state_to_leg_status : String → CallLegStatus
map_channel_state_to_leg_status state =
    if state == "Ring"
    then CallLegStatus.ringing
    else if state == "Ringing"
    then CallLegStatus.ringing
    else if state == "Up"
    then CallLegStatus.answered
    else CallLegStatus.initiated

-- `Partial<Click2CallWebhookData>`
pub record WebhookExtra : Type 0 where
  pub status : Option CallStatus
  pub channel_id : Option String
  pub bridge_id : Option String
  pub leg_role : Option LegRole
  pub hangup_cause : Option ℕ
  pub hangup_cause_text : Option String
  pub occurred_at : Option ℕ

abbrev pub no_extra : WebhookExtra
no_extra = record {
  status = none;
  channel_id = none;
  bridge_id = none;
  leg_role = none;
  hangup_cause = none;
  hangup_cause_text = none;
  occurred_at = none;
}

unfoldable pub build_click2call_webhook_data : Call → WebhookExtra → ℕ → Click2CallWebhookData
build_click2call_webhook_data call extra now = record {
  call_id = call.id;
  caller_number = call.caller_number;
  call_to_number = call.call_to_number;
  status = or_else extra.status call.status;
  direction = call.direction;
  channel_id = extra.channel_id;
  bridge_id = or_channel extra.bridge_id call.bridge_id;
  leg_role = extra.leg_role;
  hangup_cause = extra.hangup_cause;
  hangup_cause_text = extra.hangup_cause_text;
  occurred_at = or_else extra.occurred_at now;
}

-- The leg that `createClick2CallLeg` writes for the channel that was dialled.
abbrev pub dialled_leg :
    Call → Reply → LegRole → String → String → CallLegStatus → ℕ → UpsertAriCallLegInput
dialled_leg call channel leg_role caller_number destination_number status now = record {
  call_id = call.id;
  channel_id = channel.id;
  channel_name = some (some channel.name);
  linked_id = some (or_else call.linked_id channel.id);
  leg_role = leg_role;
  caller_number = some (some caller_number);
  caller_name = some channel.caller_name;
  destination_number = some (some destination_number);
  status = some status;
  started_at = some (some now);
  answered_at = none;
  ended_at = none;
  bridge_unique_id = none;
}

-- The leg of a channel that has entered the application.
abbrev pub arrived_leg :
    Call → RawAriEventBody → String → LegRole → Option String → ℕ → UpsertAriCallLegInput
arrived_leg call event channel leg_role destination_number event_time = record {
  call_id = call.id;
  channel_id = channel;
  channel_name = some (some (or_else event.channel_name channel));
  linked_id = some (or_else call.linked_id channel);
  leg_role = leg_role;
  caller_number = some call.caller_number;
  caller_name = some event.caller_name;
  destination_number = some destination_number;
  status = some CallLegStatus.ringing;
  started_at = some (some event_time);
  answered_at = none;
  ended_at = none;
  bridge_unique_id = none;
}

-- The leg of a channel that was bridged.
abbrev pub connected_leg : Call → String → LegRole → String → ℕ → UpsertAriCallLegInput
connected_leg call channel leg_role bridge now = record {
  call_id = call.id;
  channel_id = channel;
  channel_name = none;
  linked_id = none;
  leg_role = leg_role;
  caller_number = none;
  caller_name = none;
  destination_number = none;
  status = some CallLegStatus.connected;
  started_at = none;
  answered_at = some (some now);
  ended_at = none;
  bridge_unique_id = some (some bridge);
}

-- The rows of a call that the handlers write.
abbrev pub with_caller : Call → String → ℕ → Call
with_caller call channel event_time = record call {
  caller_channel_id = some channel;
  status = CallStatus.ringing;
  started_at = some (or_else call.started_at event_time);
}

abbrev pub with_callee : Call → String → Call
with_callee call channel = record call {
  callee_channel_id = some channel;
  status = CallStatus.ringing;
}

abbrev pub failed_at : Call → ℕ → Call
failed_at call now = record call { status = CallStatus.failed; ended_at = some now }

abbrev pub bridged_at : Call → String → ℕ → Call
bridged_at call bridge now = record call {
  bridge_id = some bridge;
  status = CallStatus.answered;
  answered_at = some now;
}

unfoldable pub ended_call : Call → CallStatus → ℕ → Call
unfolding duration_at
ended_call call status event_time = record call {
  status = status;
  ended_at = some event_time;
  duration = duration_at call.started_at event_time call.duration;
}

module _ (env : Environment) where
  unfoldable pub parse_ari_event_time : RawAriEventBody → M ℕ
  parse_ari_event_time event = do
    now ← ask env env.clock
    elim (present event.timestamp) [
      | none ↦ pure now
      | some text ↦ pure (or_else (env.parse_time text) now)
    ]

  -- `recordClick2CallEvent`, with the time that the caller gives, or with the clock's
  unfoldable pub record_event_at : String → String → EventOptions → ℕ → M (Unit {0})
  record_event_at call_id event_type options event_time =
      append_ari_event env (call_event call_id event_type options event_time)

  unfoldable pub record_event_now : String → String → EventOptions → M (Unit {0})
  record_event_now call_id event_type options = do
    now ← ask env env.clock
    record_event_at call_id event_type options now

  unfoldable pub update_call : Call → M (Unit {0})
  update_call call = do_action env (write_call call)

  unfoldable pub emit_click2call_webhook : Call → WebhookTrigger → WebhookExtra → M (Unit {0})
  emit_click2call_webhook call trigger extra = elim (present call.tenant_id) [
    | none ↦ skip
    | some tenant_id ↦ do
      now ← ask env env.clock
      do_action env
          (publish_webhook trigger tenant_id (build_click2call_webhook_data call extra now))
  ]

  unfoldable pub load_click2call : String → M (Option Call)
  load_click2call call_id = ask env (λ h. env.call_by_id h call_id)
