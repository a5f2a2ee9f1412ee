-- ===== src/InboundWorkflow.antt =====
-- src/modules/calls/services/inbound-route-call-workflow.service.ts: a call to a number of the system goes
-- where the number's route leads.
pub mod Served
use comm_care.Prelude.{
  ℕ, String, Bool, true, false, not, ◌||◌, Option, none, some, List, if◌then◌else◌, present,
  holds_text,
}
use comm_care.Ari.{
  RawAriEventBody, parse_inbound_args, build_ivr_app_args, build_queue_app_args, QueueLeg,
  InboundArgs,
}
use comm_care.Entities.{
  InboundRoute, RouteDestinationType, extension, ivr, queue, external_number, voicemail, hangup,
}
use comm_care.World.{
  Environment, M, skip, ◌>>=◌, ◌>>◌, do_action, ask, answer_channel, hangup_channel,
}
use comm_care.DialOut.{connect_to_extension, connect_to_number}
use comm_care.IvrWorkflow.Handlers.{with_destination, handle_event as handle_ivr_event}
use comm_care.QueueWorkflow.Handlers.{handle_event as handle_queue_event}

-- The event that goes on to the IVR or the queue workflow: the same channel, with other arguments.
abbrev pub forwarded : RawAriEventBody → List String → RawAriEventBody
forwarded event args = record {
  type = some "StasisStart";
  timestamp = none;
  channel_id = event.channel_id;
  channel_name = event.channel_name;
  channel_state = event.channel_state;
  caller_number = event.caller_number;
  caller_name = event.caller_name;
  args = args;
  cause = none;
  cause_txt = none;
  digit = none;
}

-- The IVR and the queue answer the channel themselves.
abbrev pub answers_itself : RouteDestinationType → Bool
answers_itself ivr = true
answers_itself queue = true
answers_itself _ = false

module _ (env : Environment) where
  unfoldable pub execute_destination :
      ℕ → String → InboundRoute → String → RawAriEventBody → M (Unit {0})
  execute_destination fuel channel route caller_number event = elim route.destination_type [
    | hangup ↦ do_action env (hangup_channel channel)
    | extension ↦
        connect_to_extension env channel route.tenant_id route.destination_id (some caller_number)
    | ivr ↦ with_destination env channel route.destination_id (λ id.
        handle_ivr_event env fuel (forwarded event (build_ivr_app_args route.tenant_id channel id)))
    | queue ↦ with_destination env channel route.destination_id (λ id.
        handle_queue_event env fuel
          (forwarded event (build_queue_app_args route.tenant_id id "" QueueLeg.caller none)))
    | external_number ↦ connect_to_number env channel route.destination_value (some caller_number)
    | voicemail ↦ do_action env (hangup_channel channel)
  ]

  unfoldable pub follow_route : ℕ → String → InboundRoute → String → RawAriEventBody → M (Unit {0})
  follow_route fuel channel route caller_number event = do
    if answers_itself route.destination_type then skip else do_action env (answer_channel channel)
    execute_destination fuel channel route caller_number event

  unfoldable pub handle_stasis_start : ℕ → RawAriEventBody → M (Unit {0})
  handle_stasis_start fuel event = elim (present event.channel_id) [
    | none ↦ skip
    | some channel ↦ elim (parse_inbound_args event.args) [
      | none ↦ skip
      | some parsed ↦ do
        found ← ask env (λ h. env.enabled_route_by_did h parsed.did)
        elim found [
          | none ↦ do_action env (hangup_channel channel)
          | some route ↦ follow_route fuel channel route parsed.caller_number event
        ]
    ]
  ]

  unfoldable pub handle_event : ℕ → RawAriEventBody → M (Unit {0})
  handle_event fuel event =
      if holds_text event.type "StasisStart" then handle_stasis_start fuel event else skip
