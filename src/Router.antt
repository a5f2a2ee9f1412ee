-- ===== src/Router.antt =====
-- src/modules/calls/services/call-workflow-router.service.ts, with
-- src/modules/calls/services/auto-attendant-call-workflow.service.ts: each event goes to the first
-- workflow that can handle it, and an event with a key that was seen before goes nowhere.
pub mod Dispatch
use comm_care.Prelude.{
  ℕ, String, Bool, true, false, Option, none, some, List, [], ◌∷◌, if◌then◌else◌, present, ◌==◌,
}
use comm_care.Ari.{RawAriEventBody, can_handle}
use comm_care.Ari as Ari
use comm_care.World.{
  Environment, M, skip, ◌>>=◌, ◌>>◌, attempt, do_action, ask, hangup_channel, mark_seen,
}
use comm_care.Click2Call.Handlers.{handle_event as handle_click2call_event}
use comm_care.IvrWorkflow.Handlers.{handle_event as handle_ivr_event}
use comm_care.InboundWorkflow.{handle_event as handle_inbound_event}
use comm_care.QueueWorkflow.Handlers.{handle_event as handle_queue_event}

-- `AriCallEventPayload`
pub record AriCallEventPayload : Type 0 where
  pub body : RawAriEventBody
  pub idempotency_key : Option String

pub data WorkflowService : Type 0 where
  click2call ivr inbound_route auto_attendant queue : WorkflowService

abbrev pub workflow : WorkflowService → String
workflow click2call = Ari.click2call
workflow ivr = Ari.ivr
workflow inbound_route = Ari.inbound_route
workflow auto_attendant = Ari.auto_attendant
workflow queue = Ari.queue

abbrev pub workflow_services : List WorkflowService
workflow_services = click2call ∷ ivr ∷ inbound_route ∷ auto_attendant ∷ queue ∷ []

unfoldable pub find_service : List WorkflowService → RawAriEventBody → Option WorkflowService
find_service [] event = none
find_service (s ∷ ss) event =
    let rest = find_service ss event in if can_handle (workflow s) event then some s else rest

module _ (env : Environment) where
  -- The auto attendant does nothing yet.
  unfoldable pub handle_by : ℕ → WorkflowService → RawAriEventBody → M (Unit {0})
  handle_by fuel click2call event = handle_click2call_event env event
  handle_by fuel ivr event = handle_ivr_event env fuel event
  handle_by fuel inbound_route event = handle_inbound_event env fuel event
  handle_by fuel auto_attendant event = skip
  handle_by fuel queue event = handle_queue_event env fuel event

  unfoldable pub handle_unrouted : String → RawAriEventBody → M (Unit {0})
  handle_unrouted type event = elim (present event.channel_id) [
    | none ↦ skip
    | some channel ↦
        if type == "StasisStart"
        then attempt (do_action env (hangup_channel channel)) >> skip
        else skip
  ]

  unfoldable pub route_event : ℕ → String → RawAriEventBody → M (Unit {0})
  route_event fuel type event = elim (find_service workflow_services event) [
    | none ↦ handle_unrouted type event
    | some service ↦ handle_by fuel service event
  ]

  unfoldable pub handle_typed_event : ℕ → String → AriCallEventPayload → M (Unit {0})
  handle_typed_event fuel type payload = elim (present payload.idempotency_key) [
    | none ↦ route_event fuel type payload.body
    | some key ↦ do
      seen ← ask env (λ h. env.is_seen h key)
      if seen then skip else do do_action env (mark_seen key); route_event fuel type payload.body
  ]

  unfoldable pub handle_event_ari_call_event : ℕ → AriCallEventPayload → M (Unit {0})
  handle_event_ari_call_event fuel payload = elim (present payload.body.type) [
    | none ↦ skip
    | some type ↦ handle_typed_event fuel type payload
  ]
