-- ===== src/Ari.antt =====
-- src/constants/stasis-app-args.constant.ts and src/modules/pbx/types/ari-event.types.ts: the events
-- that Asterisk sends, and the argument lists by which a channel finds its workflow.
pub mod RoundTrip
use comm_care.Prelude.{
  ℕ, String, Bool, true, false, Option, none, some, List, [], ◌∷◌, ◌==◌, if◌then◌else◌, or_else,
  present, get_elem?, leb, length,
}

abbrev pub click2call : String
click2call = "click2call"

abbrev pub ivr : String
ivr = "ivr"

abbrev pub inbound_route : String
inbound_route = "inbound-route"

abbrev pub auto_attendant : String
auto_attendant = "auto-attendant"

abbrev pub queue : String
queue = "queue"

pub record RawAriEventBody : Type 0 where
  pub type : Option String
  pub timestamp : Option String
  pub channel_id : Option String
  pub channel_name : Option String
  pub channel_state : Option String
  pub caller_number : Option String
  pub caller_name : Option String
  pub args : List String
  pub cause : Option ℕ
  pub cause_txt : Option String
  pub digit : Option String

-- `event.args?.[0] === workflow`; absent arguments are the empty list
unfoldable pub can_handle : String → RawAriEventBody → Bool
can_handle workflow event = elim event.args [ [] ↦ false | w ∷ rest ↦ w == workflow ]

pub data CallType : Type 0 where
  internal external : CallType

pub data LegRole : Type 0 where
  agent callee : LegRole

abbrev call_type_text : CallType → String
call_type_text internal = "internal"
call_type_text external = "external"

abbrev pub leg_role_text : LegRole → String
leg_role_text agent = "agent"
leg_role_text callee = "callee"

unfoldable pub build_click2call_app_args :
    (tenant_id call_id to_number : String) → CallType → LegRole → List String
build_click2call_app_args tenant_id call_id to_number type leg =
    click2call ∷ tenant_id ∷ call_id ∷ to_number ∷ call_type_text type ∷ leg_role_text leg ∷ []

unfoldable pub build_ivr_app_args : (tenant_id ivr_session_id ivr_id : String) → List String
build_ivr_app_args tenant_id ivr_session_id ivr_id = ivr ∷ tenant_id ∷ ivr_session_id ∷ ivr_id ∷ []

pub data QueueLeg : Type 0 where
  caller agent : QueueLeg

abbrev pub queue_leg_text : QueueLeg → String
queue_leg_text QueueLeg.caller = "caller"
queue_leg_text QueueLeg.agent = "agent"

unfoldable pub build_queue_app_args :
    (tenant_id queue_id queue_call_id : String) → QueueLeg → Option String → List String
build_queue_app_args tenant_id queue_id queue_call_id leg member_id =
    queue ∷ tenant_id ∷ queue_call_id ∷ queue_id ∷ queue_leg_text leg ∷ or_else member_id "" ∷ []

unfoldable pub build_inbound_route_app_args : (did caller_number : String) → List String
build_inbound_route_app_args did caller_number = inbound_route ∷ "" ∷ did ∷ caller_number ∷ []

pub record StasisAppArgs : Type 0 where
  pub workflow : String
  pub tenant_id : String
  pub correlation_id : String
  pub rest : List String

-- `args[i] ?? ''` of a list that may be shorter
abbrev pub text_at : List String → ℕ → String
text_at xs i = or_else (get_elem? xs i) ""

abbrev from_third : List String → List String
from_third (a ∷ b ∷ rest) = rest
from_third _ = []

unfoldable pub parse_stasis_app_args : List String → Option StasisAppArgs
parse_stasis_app_args [] = none
parse_stasis_app_args (workflow ∷ more) =
    if workflow == ""
    then none
    else some (record {
      workflow = workflow;
      tenant_id = text_at more 0;
      correlation_id = text_at more 1;
      rest = from_third more;
    })

pub record QueueArgs : Type 0 where
  pub tenant_id : String
  pub queue_id : String
  pub leg : QueueLeg

abbrev queue_leg_of : Option String → QueueLeg
queue_leg_of none = QueueLeg.caller
queue_leg_of (some s) = if s == "agent" then QueueLeg.agent else QueueLeg.caller

-- `parseQueueArgs` of src/modules/calls/services/queue-call-workflow.service.ts
unfoldable pub parse_queue_args : List String → Option QueueArgs
parse_queue_args [] = none
parse_queue_args (workflow ∷ more) =
    if workflow == queue
    then elim (present (get_elem? more 0)) [
      | none ↦ none
      | some tenant_id ↦ elim (present (get_elem? more 2)) [
        | none ↦ none
        | some queue_id ↦ some (record {
          tenant_id = tenant_id;
          queue_id = queue_id;
          leg = queue_leg_of (get_elem? more 3);
        })
      ]
    ]
    else none

pub record IvrArgs : Type 0 where
  pub tenant_id : String
  pub ivr_session_id : String
  pub ivr_id : String

-- `parseIvrArgs` of src/modules/calls/services/ivr-call-workflow.service.ts
unfoldable pub parse_ivr_args : List String → Option IvrArgs
parse_ivr_args [] = none
parse_ivr_args (workflow ∷ more) =
    if workflow == ivr
    then elim (present (get_elem? more 0)) [
      | none ↦ none
      | some tenant_id ↦ elim (present (get_elem? more 2)) [
        | none ↦ none
        | some ivr_id ↦
            some
              (record { tenant_id = tenant_id; ivr_session_id = text_at more 1; ivr_id = ivr_id })
      ]
    ]
    else none

pub record InboundArgs : Type 0 where
  pub did : String
  pub caller_number : String

abbrev or_earlier : Option String → Option String → Option String
or_earlier none b = b
or_earlier (some a) b = some a

-- `parseInboundArgs` of src/modules/calls/services/inbound-route-call-workflow.service.ts
unfoldable pub parse_inbound_args : List String → Option InboundArgs
parse_inbound_args [] = none
parse_inbound_args (workflow ∷ more) =
    if workflow == inbound_route
    then elim (present (or_earlier (get_elem? more 1) (get_elem? more 0))) [
      | none ↦ none
      | some did ↦ some (record {
        did = did;
        caller_number = or_else (or_earlier (get_elem? more 2) (get_elem? more 0)) "unknown";
      })
    ]
    else none

pub record Click2CallArgs : Type 0 where
  pub call_id : String
  pub to_number : String
  pub type : CallType
  pub leg : String

abbrev call_type_of : Option String → CallType
call_type_of none = internal
call_type_of (some s) = if s == "external" then external else internal

-- From the place of the call's id on: `callId`, `toNumber`, `type`, `leg`.
abbrev click2call_fields :
    Option String → Option String → Option String → Option String → Option Click2CallArgs
click2call_fields call_id to_number type leg = elim (present call_id) [
  | none ↦ none
  | some c ↦ elim (present to_number) [
    | none ↦ none
    | some n ↦ elim (present leg) [
      | none ↦ none
      | some l ↦ some (record { call_id = c; to_number = n; type = call_type_of type; leg = l })
    ]
  ]
]

-- `parseClick2CallArgs` of src/modules/calls/services/click2call-workflow.service.ts: the present
-- form has six arguments, the one before it has no tenant.
unfoldable pub parse_click2call_args : List String → Option Click2CallArgs
parse_click2call_args [] = none
parse_click2call_args (workflow ∷ more) =
    if workflow == click2call
    then if leb 5 (length more)
      then click2call_fields (get_elem? more 1) (get_elem? more 2) (get_elem? more 3)
          (get_elem? more 4)
      else click2call_fields (get_elem? more 0) (get_elem? more 1) (get_elem? more 2)
          (get_elem? more 3)
    else none
