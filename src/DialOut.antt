-- ===== src/DialOut.antt =====
-- The steps by which the IVR and the inbound workflow connect a caller to an endpoint: `originateCall`,
-- `createBridge` and two calls of `addChannelToBridge`, in executeDestination of
-- src/modules/calls/services/ivr-call-workflow.service.ts and inbound-route-call-workflow.service.ts.
use comm_care.Prelude.{String, Option, none, some, List, [], ◌==◌, find_first, present}
use comm_care.Entities.{Extension}
use comm_care.World.{
  Environment, M, ◌>>=◌, ◌>>◌, perform, do_action, ask, originate_call, create_bridge,
  add_channel_to_bridge, hangup_channel,
}

abbrev find_extension : Option String → List Extension → Option Extension
find_extension none es = none
find_extension (some id) es = find_first (λ e. e.id == id) es

module _ (env : Environment) where
  unfoldable pub connect_to : (channel endpoint : String) → Option String → M (Unit {0})
  connect_to channel endpoint caller_number = do
    callee ← perform env (
        originate_call endpoint
          (record { app_args = []; caller_id_number = caller_number; timeout = none }))
    bridge ← perform env create_bridge
    do_action env (add_channel_to_bridge bridge.id channel)
    do_action env (add_channel_to_bridge bridge.id callee.id)

  -- The extension of the tenant with the destination's id, or the end of the call.
  unfoldable pub connect_to_extension :
      (channel tenant_id : String) → Option String → Option String → M (Unit {0})
  connect_to_extension channel tenant_id destination_id caller_number = do
    extensions ← ask env (λ h. env.extensions_by_tenant h tenant_id)
    elim (find_extension destination_id extensions) [
      | none ↦ do_action env (hangup_channel channel)
      | some extension ↦ connect_to channel extension.pjsip_endpoint caller_number
    ]

  -- `connect_to` over a trunk, where the number is set.
  unfoldable pub connect_to_number :
      (channel : String) → Option String → Option String → M (Unit {0})
  connect_to_number channel number caller_number = elim (present number) [
    | none ↦ do_action env (hangup_channel channel)
    | some n ↦ connect_to channel (env.outbound_endpoint n) caller_number
  ]
