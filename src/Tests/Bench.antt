-- ===== src/Tests/Bench.antt =====
-- A small installation. Every request is granted, each takes a millisecond, and the queries for calls
-- find the rows that were written last.
use comm_care.Prelude.{
  String, true, false, ◌||◌, Option, none, some, List, [], ◌∷◌, if◌then◌else◌, ◌==◌, length,
  holds_text, is_some,
}
use Prim.Native.String.{◌++◌}
use comm_care.QueueStrategy.{QueueMember, round_robin}
use comm_care.Hangup.{CallDirection, CallStatus}
use comm_care.Ari.{RawAriEventBody}
use comm_care.Entities.{
  Queue, QueueCall, QueueCallStatus, full, Extension, assigned, Ivr, InboundRoute,
  RouteDestinationType, Call,
}
use comm_care.World.{did, write_queue_call, History, Environment, World}
use comm_care.QueueWorkflow.Rows.{new_queue_call}
use comm_care.QueueWorkflow.Lifecycle.{latest}
use comm_care.Click2Call.Once.{latest_call}

abbrev pub front_desk : Queue
front_desk = record {
  id = "desk";
  tenant_id = "acme";
  strategy = round_robin;
  ring_timeout_seconds = 20;
  max_wait_time_seconds = 300;
  max_callers = some 5;
  round_robin_cursor_member_id = none;
  enabled = true;
}

abbrev pub ann : QueueMember
ann = record {
  id = "ann";
  queue_id = "desk";
  agent_id = "agent-ann";
  priority = 1;
  penalty = 0;
  enabled = true;
}

abbrev pub bob : QueueMember
bob = record {
  id = "bob";
  queue_id = "desk";
  agent_id = "agent-bob";
  priority = 2;
  penalty = 0;
  enabled = true;
}

abbrev desk_phone : Extension
desk_phone = record {
  id = "x1";
  tenant_id = some "acme";
  user_id = some "agent-bob";
  user_info = some (record { name = "Bob"; user_id = "agent-bob" });
  number = 101;
  description = none;
  status = assigned;
  pjsip_endpoint = "PJSIP/101";
  pjsip_username = "101";
  pjsip_password = "secret";
  caller_id_name = some "Bob";
  caller_id_number = none;
}

abbrev welcome : Ivr
welcome = record { id = "welcome"; tenant_id = "acme"; announcement_recording_id = some "hello" }

abbrev pub to_welcome : InboundRoute
to_welcome = record {
  id = "r1";
  tenant_id = "acme";
  destination_type = RouteDestinationType.ivr;
  destination_id = some "welcome";
  destination_value = none;
}

-- Longer than every id of a queue call that was written.
unfoldable pub new_id : History → String
new_id [] = "n"
new_id (did (write_queue_call q) ∷ h) = "n" ++ (q.id ++ new_id h)
new_id (e ∷ h) = new_id h

-- The call "c2c", if one of its channels is this one.
abbrev pub on_channel : Option Call → String → Option Call
on_channel none channel = none
on_channel (some c) channel =
    if holds_text c.caller_channel_id channel || holds_text c.callee_channel_id channel
    then some c
    else none

abbrev pub unless_ended : Option Call → Option Call
unless_ended none = none
unless_ended (some c) = if is_some c.ended_at then none else some c

abbrev pub bench : Environment
bench = record {
  clock = λ h. length h;
  random = λ h n. 0;
  fails = λ h a. false;
  reply =
      λ h a. record { id = "phone-1"; name = "PJSIP/101-1"; state = "Down"; caller_name = none };
  new_id = new_id;
  queue_by_id_and_tenant = λ h id tenant. some front_desk;
  members_by_queue = λ h id. ann ∷ bob ∷ [];
  aggregates_by_queue = λ h id. [];
  queue_call_by_id = λ h id. latest id h;
  count_active_by_queue = λ h id. 0;
  active_by_queue = λ h id. [];
  active_bridged_by_agent = λ h id. none;
  extensions_by_user = λ h id. desk_phone ∷ [];
  extensions_by_tenant = λ h id. desk_phone ∷ [];
  extension_by_number = λ h number. some desk_phone;
  ivr_by_id_and_tenant = λ h id tenant. some welcome;
  ivr_session_by_id_and_tenant = λ h id tenant. none;
  option_by_ivr_and_digit = λ h id digit. none;
  playback_url = λ h tenant id. some "hello.wav";
  enabled_route_by_did = λ h did. some to_welcome;
  call_by_id = λ h id. latest_call id h;
  active_click2call_by_channel =
      λ h channel. unless_ended (on_channel (latest_call "c2c" h) channel);
  click2call_by_channel = λ h channel. on_channel (latest_call "c2c" h) channel;
  leg_by_unique_id = λ h id. none;
  is_seen = λ h key. key == "seen";
  parse_time = λ text. none;
  outbound_endpoint = λ number. number;
}

abbrev pub world_after : History → World
world_after h = record {
  history = h;
  queue_call_by_caller_channel = ("caller-1", "call-1") ∷ [];
  ringing_agent_legs = [];
  sessions_by_channel = [];
}

abbrev pub event_of : String → String → List String → RawAriEventBody
event_of type channel args = record {
  type = some type;
  timestamp = none;
  channel_id = some channel;
  channel_name = none;
  channel_state = some "Up";
  caller_number = some "0301234";
  caller_name = none;
  args = args;
  cause = some 16;
  cause_txt = none;
  digit = none;
}

abbrev pub waiting_call : QueueCall
waiting_call = record (new_queue_call "acme" "desk" "caller-1" none 0) { id = "call-1" }

abbrev pub ringing_call : QueueCall
ringing_call = record waiting_call {
  status = QueueCallStatus.ringing;
  ringing_channel_ids = "phone-1" ∷ "phone-2" ∷ [];
  attempt_order = "ann" ∷ "bob" ∷ [];
}

abbrev pub refused_call : QueueCall
refused_call = record waiting_call { status = full; ended_at = some 1 }

abbrev pub dialled_call : Call
dialled_call = record {
  id = "c2c";
  tenant_id = some "acme";
  linked_id = none;
  direction = CallDirection.internal;
  caller_number = some "101";
  call_to_number = some "102";
  status = CallStatus.ringing;
  caller_channel_id = some "phone-7";
  callee_channel_id = none;
  bridge_id = none;
  started_at = some 0;
  answered_at = none;
  ended_at = none;
  duration = 0;
}
