-- ===== src/Tests/Routing.antt =====
-- Arguments, routes and the router.
use comm_care.Prelude.{true, ◌↔◌, Memᴰ, String, ◌≡◌, refl, subst, ◌==◌, false, some, [], ◌∷◌}
use comm_care.Ari.{
  RawAriEventBody, can_handle, CallType, LegRole, QueueLeg, build_click2call_app_args,
  build_ivr_app_args, build_inbound_route_app_args, build_queue_app_args, parse_queue_args,
  parse_ivr_args, parse_inbound_args, parse_click2call_args,
}
use comm_care.Ari.RoundTrip.{
  parse-build_queue_app_args, parse-build_ivr_app_args, parse-build_inbound_route_app_args,
  parse-build_click2call_app_args,
}
use comm_care.Entities.{InboundRoute}
use comm_care.World.{History}
use comm_care.World.Ensures.{Ensures}
use comm_care.World.Served.{IsServed, unless_thrown}
use comm_care.InboundWorkflow.{handle_event}
use comm_care.InboundWorkflow.Served.{inbound_call-IsServed}
use comm_care.Router.{inbound_route, workflow, workflow_services, find_service}
use comm_care.Router.Dispatch.{find_service_iff}
use comm_care.Tests.Bench.{bench, world_after, event_of, to_welcome}

parse-build_queue_app_args_example :
    parse_queue_args (build_queue_app_args "acme" "desk" "" QueueLeg.agent (some "ann"))
    ≡ some (record { tenant_id = "acme"; queue_id = "desk"; leg = QueueLeg.agent })
parse-build_queue_app_args_example =
    parse-build_queue_app_args "acme" "desk" "" QueueLeg.agent (some "ann") refl refl

parse-build_ivr_app_args_example :
    parse_ivr_args (build_ivr_app_args "acme" "" "welcome")
    ≡ some (record { tenant_id = "acme"; ivr_session_id = ""; ivr_id = "welcome" })
parse-build_ivr_app_args_example = parse-build_ivr_app_args "acme" "" "welcome" refl refl

parse-build_inbound_route_app_args_example :
    parse_inbound_args (build_inbound_route_app_args "+49301234" "")
    ≡ some (record { did = "+49301234"; caller_number = "" })
parse-build_inbound_route_app_args_example = parse-build_inbound_route_app_args "+49301234" "" refl

parse-build_click2call_app_args_example :
    (parse_click2call_args
        (build_click2call_app_args "acme" "c2c" "102" CallType.external LegRole.callee)
      ≡ some
          (record { call_id = "c2c"; to_number = "102"; type = CallType.external; leg = "callee" }))
    × (parse_click2call_args ("click2call" ∷ "c2c" ∷ "102" ∷ "external" ∷ "callee" ∷ [])
        ≡ some (record {
          call_id = "c2c";
          to_number = "102";
          type = CallType.external;
          leg = "callee";
        }))
unfolding build_click2call_app_args
parse-build_click2call_app_args_example =
    parse-build_click2call_app_args "acme" "c2c" "102" CallType.external LegRole.callee refl refl

abbrev call_comes_in : RawAriEventBody
call_comes_in =
    event_of "StasisStart" "trunk-1" (build_inbound_route_app_args "+49301234" "0301234")

bench_routes-have_tenants :
    (h : History) (did : String) (route : InboundRoute)
    → bench.enabled_route_by_did h did ≡ some route
    → (route.tenant_id == "") ≡ false
bench_routes-have_tenants h did route e =
    let same : to_welcome ≡ route = cc in subst (λ r. (r.tenant_id == "") ≡ false) same refl

inbound_call-IsServed_example :
    Ensures
      (unless_thrown (IsServed "trunk-1"))
      (λ _. IsServed "trunk-1")
      (handle_event bench 9 call_comes_in (world_after []))
inbound_call-IsServed_example =
    inbound_call-IsServed bench bench_routes-have_tenants 9 (world_after []) call_comes_in "trunk-1"
      (record { did = "+49301234"; caller_number = "0301234" }) refl refl
      (parse-build_inbound_route_app_args "+49301234" "0301234" refl)

find_service_iff_example : (find_service workflow_services call_comes_in ≡ some inbound_route) ↔ (
    Memᴰ inbound_route workflow_services
    × (can_handle (workflow inbound_route) call_comes_in ≡ true))
find_service_iff_example = find_service_iff workflow_services call_comes_in inbound_route
