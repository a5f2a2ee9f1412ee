-- ===== src/Ari/RoundTrip.antt =====
-- What a channel's arguments are built from is what its workflow reads.
use comm_care.Prelude.{String, ◌≡◌, arith, false, Option, some, List, ◌∷◌, ◌==◌}
use comm_care.Ari.{
  QueueLeg, Click2CallArgs, CallType, LegRole, leg_role_text, build_queue_app_args,
  build_ivr_app_args, build_inbound_route_app_args, build_click2call_app_args, parse_queue_args,
  parse_ivr_args, parse_inbound_args, parse_click2call_args,
}

-- The queue workflow reads the tenant, the queue and the leg that the arguments were built from, if
-- neither id is empty, whatever the call's id and the member are.
pub parse-build_queue_app_args :
    (tenant_id queue_id queue_call_id : String) (leg : QueueLeg) (member_id : Option String)
    → (tenant_id == "") ≡ false
    → (queue_id == "") ≡ false
    → parse_queue_args (build_queue_app_args tenant_id queue_id queue_call_id leg member_id)
      ≡ some (record { tenant_id = tenant_id; queue_id = queue_id; leg = leg })
unfolding parse_queue_args build_queue_app_args
parse-build_queue_app_args t q c QueueLeg.caller m a b = ground arith
parse-build_queue_app_args t q c QueueLeg.agent m a b = ground arith

-- The IVR workflow reads the tenant, the session and the IVR that the arguments were built from, if
-- the tenant's and the IVR's ids are not empty; the session's may be.
pub parse-build_ivr_app_args :
    (tenant_id ivr_session_id ivr_id : String)
    → (tenant_id == "") ≡ false
    → (ivr_id == "") ≡ false
    → parse_ivr_args (build_ivr_app_args tenant_id ivr_session_id ivr_id)
      ≡ some (record { tenant_id = tenant_id; ivr_session_id = ivr_session_id; ivr_id = ivr_id })
unfolding parse_ivr_args build_ivr_app_args
parse-build_ivr_app_args t s i a b = ground arith

-- The inbound workflow reads the number that was called and the caller's number from the arguments that
-- were built from them, if the first is not empty.
pub parse-build_inbound_route_app_args :
    (did caller_number : String)
    → (did == "") ≡ false
    → parse_inbound_args (build_inbound_route_app_args did caller_number)
      ≡ some (record { did = did; caller_number = caller_number })
unfolding parse_inbound_args build_inbound_route_app_args
parse-build_inbound_route_app_args d c a = ground arith

-- The older form of the arguments of a click-to-call.
abbrev without_tenant : List String → List String
without_tenant (workflow ∷ tenant_id ∷ rest) = workflow ∷ rest
without_tenant args = args

-- The click-to-call workflow reads the call, the number, the type and the leg that the arguments were
-- built from, if the call's id and the number are not empty, and it reads the same from the
-- arguments of the older form, which have no tenant.
pub parse-build_click2call_app_args :
    (tenant_id call_id to_number : String) (type : CallType) (leg : LegRole)
    → (call_id == "") ≡ false
    → (to_number == "") ≡ false
    → let read : Option Click2CallArgs = some (record {
      call_id = call_id;
      to_number = to_number;
      type = type;
      leg = leg_role_text leg;
    }) in
      (parse_click2call_args (build_click2call_app_args tenant_id call_id to_number type leg)
        ≡ read)
      × (parse_click2call_args
            (without_tenant (build_click2call_app_args tenant_id call_id to_number type leg))
          ≡ read)
unfolding parse_click2call_args build_click2call_app_args
parse-build_click2call_app_args t c n CallType.internal LegRole.agent a b =
    (ground arith, ground arith)
parse-build_click2call_app_args t c n CallType.internal LegRole.callee a b =
    (ground arith, ground arith)
parse-build_click2call_app_args t c n CallType.external LegRole.agent a b =
    (ground arith, ground arith)
parse-build_click2call_app_args t c n CallType.external LegRole.callee a b =
    (ground arith, ground arith)
