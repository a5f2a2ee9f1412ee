-- ===== src/Entities.antt =====
-- The rows that the call workflows read and write: src/modules/inboundQueues/entity,
-- src/modules/calls/entity, src/modules/ivr/entity, src/modules/routing/entity and
-- src/modules/pbx/entity/extension.entity.ts. Ids and numbers are texts, times are milliseconds, and
-- columns that no workflow touches are left out.
use comm_care.Prelude.{ℕ, String, Bool, Option, List}
use comm_care.QueueStrategy.{QueueStrategy}
use comm_care.Hangup.{CallDirection, CallStatus, CallLegStatus}
use comm_care.Ari.{LegRole}

pub data QueueCallStatus : Type 0 where
  waiting ringing bridged completed abandoned timed_out full : QueueCallStatus

pub data QueueCallEventType : Type 0 where
  entered_queue position_changed agent_offered agent_answered agent_rejected : QueueCallEventType
  agent_unavailable caller_abandoned queue_timeout queue_full call_bridged : QueueCallEventType
  call_completed : QueueCallEventType

pub record Queue : Type 0 where
  pub id : String
  pub tenant_id : String
  pub strategy : QueueStrategy
  pub ring_timeout_seconds : ℕ
  pub max_wait_time_seconds : ℕ
  pub max_callers : Option ℕ
  pub round_robin_cursor_member_id : Option String
  pub enabled : Bool

pub record QueueCall : Type 0 where
  pub id : String
  pub tenant_id : String
  pub queue_id : String
  pub caller_channel_id : String
  pub caller_number : Option String
  pub status : QueueCallStatus
  pub ringing_channel_ids : List String
  pub attempt_order : List String
  pub bridge_id : Option String
  pub answered_member_id : Option String
  pub answered_agent_id : Option String
  pub entered_at : ℕ
  pub bridged_at : Option ℕ
  pub ended_at : Option ℕ
  pub wait_seconds : Option ℕ
  pub talk_seconds : Option ℕ

-- The entries of an event's payload; an entry that the source does not set is absent.
pub record QueueCallPayload : Type 0 where
  pub member_id : Option String
  pub agent_id : Option String
  pub channel_id : Option String
  pub bridge_id : Option String
  pub reason : Option String
  pub cause : Option ℕ
  pub position : Option ℕ

pub record QueueCallEvent : Type 0 where
  pub tenant_id : String
  pub queue_id : String
  pub queue_call_id : String
  pub event_type : QueueCallEventType
  pub member_id : Option String
  pub agent_id : Option String
  pub channel_id : Option String
  pub payload : QueueCallPayload
  pub event_time : ℕ

pub data ExtensionStatus : Type 0 where
  available reserved assigned disabled : ExtensionStatus

pub record UserInfo : Type 0 where
  pub name : String
  pub user_id : String

-- `extension`, a numeral in the database, is the number here; the host, the port, the transport and the
-- type, which are the same for all, are left out.
pub record Extension : Type 0 where
  pub id : String
  pub tenant_id : Option String
  pub user_id : Option String
  pub user_info : Option UserInfo
  pub number : ℕ
  pub description : Option String
  pub status : ExtensionStatus
  pub pjsip_endpoint : String
  pub pjsip_username : String
  pub pjsip_password : String
  pub caller_id_name : Option String
  pub caller_id_number : Option String

pub data IvrSessionState : Type 0 where
  started playing_announcement waiting_for_input processing_input routing : IvrSessionState
  completed failed : IvrSessionState

pub record IvrSession : Type 0 where
  pub id : String
  pub tenant_id : String
  pub call_id : String
  pub ivr_id : String
  pub state : IvrSessionState
  pub invalid_attempts : ℕ
  pub timeout_attempts : ℕ
  pub last_digit : Option String

pub record Ivr : Type 0 where
  pub id : String
  pub tenant_id : String
  pub announcement_recording_id : Option String

pub data IvrDestinationType : Type 0 where
  phone_number ivr extension queue hangup announcement : IvrDestinationType

pub record IvrOption : Type 0 where
  pub id : String
  pub digit : String
  pub destination_type : IvrDestinationType
  pub destination_id : Option String
  pub destination_value : Option String

pub data RouteDestinationType : Type 0 where
  extension ivr queue external_number voicemail hangup : RouteDestinationType

pub record InboundRoute : Type 0 where
  pub id : String
  pub tenant_id : String
  pub destination_type : RouteDestinationType
  pub destination_id : Option String
  pub destination_value : Option String

pub data CallWorkflow : Type 0 where
  click_to_call : CallWorkflow

pub record Call : Type 0 where
  pub id : String
  pub tenant_id : Option String
  pub linked_id : Option String
  pub direction : CallDirection
  pub caller_number : Option String
  pub call_to_number : Option String
  pub status : CallStatus
  pub caller_channel_id : Option String
  pub callee_channel_id : Option String
  pub bridge_id : Option String
  pub started_at : Option ℕ
  pub answered_at : Option ℕ
  pub ended_at : Option ℕ
  pub duration : ℕ

-- `raw` holds the leg's role beside what Asterisk sent.
pub record CallLeg : Type 0 where
  pub id : String
  pub call_id : String
  pub unique_id : String
  pub linked_id : String
  pub channel : String
  pub caller_number : Option String
  pub caller_name : Option String
  pub destination_number : Option String
  pub status : CallLegStatus
  pub started_at : Option ℕ
  pub answered_at : Option ℕ
  pub ended_at : Option ℕ
  pub duration : ℕ
  pub hangup_cause : Option ℕ
  pub hangup_cause_text : Option String
  pub bridge_unique_id : Option String
  pub leg_role : Option LegRole

-- The payload, which nothing reads back, is left out.
pub record CallEvent : Type 0 where
  pub call_id : String
  pub call_leg_id : Option String
  pub linked_id : Option String
  pub unique_id : Option String
  pub event_type : String
  pub event_time : ℕ
  pub channel : Option String
  pub bridge_unique_id : Option String

-- The triggers of a click-to-call.
pub data WebhookTrigger : Type 0 where
  caller_connected caller_disconnected caller_no_answer : WebhookTrigger
  callee_connected callee_disconnected callee_no_answer : WebhookTrigger

pub record Click2CallWebhookData : Type 0 where
  pub call_id : String
  pub caller_number : Option String
  pub call_to_number : Option String
  pub status : CallStatus
  pub direction : CallDirection
  pub channel_id : Option String
  pub bridge_id : Option String
  pub leg_role : Option LegRole
  pub hangup_cause : Option ℕ
  pub hangup_cause_text : Option String
  pub occurred_at : ℕ
