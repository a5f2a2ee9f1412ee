-- ===== src/CallLegs.antt =====
-- src/modules/calls/services/call-legs.service.ts and `appendAriEvent` of
-- src/modules/calls/services/call-events.service.ts: the rows of a call's legs and of its events.
use comm_care.Prelude.{ℕ, String, Option, none, some, or_else, seconds_between}
use comm_care.Hangup.{CallLegStatus}
use comm_care.Ari.{LegRole}
use comm_care.Entities.{CallLeg, CallEvent}
use comm_care.World.{
  Environment, M, pure, ◌>>=◌, ◌>>◌, do_action, ask, write_call_leg, write_call_event,
}

-- The outer option of a field is `undefined`, the inner one `null`.
pub record UpsertAriCallLegInput : Type 0 where
  pub call_id : String
  pub channel_id : String
  pub channel_name : Option (Option String)
  pub linked_id : Option String
  pub leg_role : LegRole
  pub caller_number : Option (Option String)
  pub caller_name : Option (Option String)
  pub destination_number : Option (Option String)
  pub status : Option CallLegStatus
  pub started_at : Option (Option ℕ)
  pub answered_at : Option (Option ℕ)
  pub ended_at : Option (Option ℕ)
  pub bridge_unique_id : Option (Option String)

-- `new CallLegEntity()`, with the defaults of its columns; the id is given when it is saved.
abbrev pub new_call_leg : String → CallLeg
new_call_leg id = record {
  id = id;
  call_id = "";
  unique_id = "";
  linked_id = "";
  channel = "";
  caller_number = none;
  caller_name = none;
  destination_number = none;
  status = CallLegStatus.created;
  started_at = none;
  answered_at = none;
  ended_at = none;
  duration = 0;
  hangup_cause = none;
  hangup_cause_text = none;
  bridge_unique_id = none;
  leg_role = none;
}

-- The duration of a leg that ends now; without a start it stays as it is.
unfoldable pub duration_at : Option ℕ → ℕ → ℕ → ℕ
duration_at none ended_at duration = duration
duration_at (some started_at) ended_at duration = seconds_between started_at ended_at

abbrev updated_duration : Option ℕ → Option (Option ℕ) → ℕ → ℕ
updated_duration started_at none duration = duration
updated_duration started_at (some none) duration = duration
updated_duration started_at (some (some ended_at)) duration =
    duration_at started_at ended_at duration

abbrev updated_channel : Option CallLeg → UpsertAriCallLegInput → String
updated_channel existing input = elim input.channel_name [
  | some name ↦ or_else name input.channel_id
  | none ↦ elim existing [ none ↦ input.channel_id | some leg ↦ leg.channel ]
]

-- The assignments of `upsertFromAriChannel` to a leg.
unfoldable pub updated_leg : Option CallLeg → CallLeg → UpsertAriCallLegInput → CallLeg
unfolding duration_at
updated_leg existing leg input = record leg {
  call_id = input.call_id;
  unique_id = input.channel_id;
  linked_id = or_else input.linked_id input.channel_id;
  channel = updated_channel existing input;
  caller_number = or_else input.caller_number leg.caller_number;
  caller_name = or_else input.caller_name leg.caller_name;
  destination_number = or_else input.destination_number leg.destination_number;
  status = or_else input.status leg.status;
  started_at = or_else input.started_at leg.started_at;
  answered_at = or_else input.answered_at leg.answered_at;
  ended_at = or_else input.ended_at leg.ended_at;
  duration = updated_duration (or_else input.started_at leg.started_at) input.ended_at leg.duration;
  bridge_unique_id = or_else input.bridge_unique_id leg.bridge_unique_id;
  leg_role = some input.leg_role;
}

unfoldable pub ended_leg : CallLeg → CallLegStatus → ℕ → Option ℕ → Option String → CallLeg
unfolding duration_at
ended_leg leg status ended_at hangup_cause hangup_cause_text = record leg {
  status = status;
  ended_at = some ended_at;
  hangup_cause = hangup_cause;
  hangup_cause_text = hangup_cause_text;
  duration = duration_at leg.started_at ended_at leg.duration;
}

-- The assignments of `updateLegStatus`; its one caller passes no `endedAt`.
unfoldable pub leg_with_status : CallLeg → CallLegStatus → Option ℕ → CallLeg
leg_with_status leg status none = record leg { status = status }
leg_with_status leg status (some answered_at) = record leg {
  status = status;
  answered_at = some answered_at;
}

module _ (env : Environment) where
  unfoldable pub save_leg : CallLeg → M CallLeg
  save_leg leg = do do_action env (write_call_leg leg); pure leg

  unfoldable pub upsert_from_ari_channel : UpsertAriCallLegInput → M CallLeg
  upsert_from_ari_channel input = do
    existing ← ask env (λ h. env.leg_by_unique_id h input.channel_id)
    elim existing [
      | none ↦ do id ← ask env env.new_id; save_leg (updated_leg none (new_call_leg id) input)
      | some leg ↦ save_leg (updated_leg (some leg) leg input)
    ]

  unfoldable pub finalize_leg_end :
      (channel_id : String) → CallLegStatus → ℕ → Option ℕ → Option String → M (Option CallLeg)
  finalize_leg_end channel_id status ended_at hangup_cause hangup_cause_text = do
    found ← ask env (λ h. env.leg_by_unique_id h channel_id)
    elim found [
      | none ↦ pure none
      | some leg ↦ do
        saved ← save_leg (ended_leg leg status ended_at hangup_cause hangup_cause_text)
        pure (some saved)
    ]

  unfoldable pub update_leg_status :
      (channel_id : String) → CallLegStatus → Option ℕ → M (Option CallLeg)
  update_leg_status channel_id status answered_at = do
    found ← ask env (λ h. env.leg_by_unique_id h channel_id)
    elim found [
      | none ↦ pure none
      | some leg ↦ do saved ← save_leg (leg_with_status leg status answered_at); pure (some saved)
    ]

  -- `appendAriEvent`
  unfoldable pub append_ari_event : CallEvent → M (Unit {0})
  append_ari_event event = do_action env (write_call_event event)
