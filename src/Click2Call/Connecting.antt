-- ===== src/Click2Call/Connecting.antt =====
-- `originateCalleeLeg` and `bridgeClick2CallLegs` of
-- src/modules/calls/services/click2call-workflow.service.ts. A `catch` sees the call as the `try` left it, so
-- what comes before the call is changed and what comes after it are two attempts.
use comm_care.Prelude.{
  String, Bool, true, false, none, some, List, if◌then◌else◌, or_else, present, is_some,
}
use comm_care.Hangup.{CallDirection, CallLegStatus}
use comm_care.Ari.{CallType, LegRole, build_click2call_app_args}
use comm_care.CallLegs.{upsert_from_ari_channel}
use comm_care.Entities.{Call, callee_connected}
use comm_care.World.{
  Environment, Reply, M, pure, skip, ◌>>=◌, ◌>>◌, attempt, perform, do_action, ask, originate_call,
  hangup_channel, create_bridge, add_channel_to_bridge,
}
use comm_care.Click2Call.Rows.{
  no_options, no_extra, dialled_leg, connected_leg, with_callee, failed_at, bridged_at,
  record_event_now, update_call, emit_click2call_webhook,
}

abbrev pub is_internal : CallDirection → Bool
is_internal CallDirection.internal = true
is_internal _ = false

abbrev pub callee_args : Call → String → List String
callee_args call number =
    build_click2call_app_args (or_else call.tenant_id "") call.id number
      (if is_internal call.direction then CallType.internal else CallType.external) LegRole.callee

module _ (env : Environment) where
  unfoldable pub fail_call : Call → M (Unit {0})
  fail_call call = do now ← ask env env.clock; update_call env (failed_at call now)

  -- The `catch` of `originateCalleeLeg`
  unfoldable pub originate_failed : Call → M (Unit {0})
  originate_failed call = do
    fail_call call
    record_event_now env call.id "OriginateCalleeFailed" no_options
    elim (present call.caller_channel_id) [
      | none ↦ skip
      | some channel ↦ attempt (do_action env (hangup_channel channel)) >> skip
    ]

  unfoldable pub callee_dialled : Call → String → Reply → M (Unit {0})
  callee_dialled call number channel = do
    update_call env (with_callee call channel.id)
    now ← ask env env.clock
    upsert_from_ari_channel env (
        dialled_leg (with_callee call channel.id) channel LegRole.callee
          (or_else call.caller_number "") number CallLegStatus.created now)
    record_event_now env call.id "OriginateCallee"
        (record no_options { channel_id = some channel.id; channel_name = some channel.name })

  unfoldable pub dial_callee : Call → String → String → M (Unit {0})
  dial_callee call number endpoint = do
    answer ← attempt (
        perform env (
          originate_call endpoint (record {
            app_args = callee_args call number;
            caller_id_number = call.caller_number;
            timeout = none;
          })))
    elim answer [
      | none ↦ originate_failed call
      | some channel ↦ do
        noted ← attempt (callee_dialled call number channel)
        if is_some noted then skip else originate_failed (with_callee call channel.id)
    ]

  unfoldable pub originate_to : Call → String → M (Unit {0})
  originate_to call number =
      if is_internal call.direction
      then (do
        found ← ask env (λ h. env.extension_by_number h number)
        elim found [
          | none ↦ fail_call call
          | some extension ↦ dial_callee call number extension.pjsip_endpoint
        ])
      else dial_callee call number (env.outbound_endpoint number)

  unfoldable pub originate_callee_leg : Call → M (Unit {0})
  originate_callee_leg call = elim (present call.call_to_number) [
    | none ↦ skip
    | some number ↦
        if is_some (present call.callee_channel_id) then skip else originate_to call number
  ]

  unfoldable pub build_bridge : (caller_channel callee_channel : String) → M Reply
  build_bridge caller_channel callee_channel = do
    bridge ← perform env create_bridge
    do_action env (add_channel_to_bridge bridge.id caller_channel)
    do_action env (add_channel_to_bridge bridge.id callee_channel)
    pure bridge

  unfoldable pub legs_bridged :
      Call → (caller_channel callee_channel bridge : String) → M (Unit {0})
  legs_bridged call caller_channel callee_channel bridge = do
    update_call env call
    now ← ask env env.clock
    upsert_from_ari_channel env (connected_leg call caller_channel LegRole.agent bridge now)
    upsert_from_ari_channel env (connected_leg call callee_channel LegRole.callee bridge now)
    record_event_now env call.id "BridgeCreated"
        (record no_options { bridge_unique_id = some bridge })
    emit_click2call_webhook env call callee_connected
        (record no_extra { bridge_id = some bridge; channel_id = some callee_channel })

  -- The `catch` of `bridgeClick2CallLegs`
  unfoldable pub bridge_failed : Call → M (Unit {0})
  bridge_failed call = do fail_call call; record_event_now env call.id "BridgeFailed" no_options

  unfoldable pub bridge_legs : Call → (caller_channel callee_channel : String) → M (Unit {0})
  bridge_legs call caller_channel callee_channel = do
    answer ← attempt (build_bridge caller_channel callee_channel)
    elim answer [
      | none ↦ bridge_failed call
      | some bridge ↦ do
        now ← ask env env.clock
        noted ←
            attempt
              (legs_bridged (bridged_at call bridge.id now) caller_channel callee_channel bridge.id)
        if is_some noted then skip else bridge_failed (bridged_at call bridge.id now)
    ]

  unfoldable pub bridge_click2call_legs : Call → M (Unit {0})
  bridge_click2call_legs call = elim (present call.caller_channel_id) [
    | none ↦ skip
    | some caller_channel ↦ elim (present call.callee_channel_id) [
      | none ↦ skip
      | some callee_channel ↦
          if is_some (present call.bridge_id)
          then skip
          else bridge_legs call caller_channel callee_channel
    ]
  ]
