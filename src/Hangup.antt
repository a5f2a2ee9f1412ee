-- ===== src/Hangup.antt =====
-- src/modules/calls/utils/ari-hangup.util.ts and the statuses of
-- src/modules/calls/constants/call.constant.ts: how a leg and a call end, by the hangup cause.
pub mod Cause
pub mod Laws
use comm_care.Prelude.{
  ℕ, Bool, true, false, not, ◌&&◌, ◌||◌, Option, none, some, eqb, if◌then◌else◌,
}

pub data CallDirection : Type 0 where
  outbound inbound internal : CallDirection

pub data CallStatus : Type 0 where
  initiated originating ringing answered completed no_answer busy failed cancelled : CallStatus
  unavailable rejected : CallStatus

pub data CallLegStatus : Type 0 where
  created initiated ringing answered connected completed no_answer busy failed : CallLegStatus
  cancelled unavailable : CallLegStatus

pub record LegEndContext : Type 0 where
  pub leg_was_answered : Bool
  pub was_bridged : Bool
  pub hangup_cause : Option ℕ

pub record CallEndContext : Type 0 where
  pub leg : LegEndContext
  pub open leg use *
  pub is_caller_leg : Bool
  pub is_callee_leg : Bool

-- `hangupCause === c`
unfoldable pub is_cause : ℕ → Option ℕ → Bool
is_cause c none = false
is_cause c (some k) = eqb k c

unfoldable pub is_no_answer_hangup_cause : Option ℕ → Bool
is_no_answer_hangup_cause none = false
is_no_answer_hangup_cause (some c) =
    eqb c Cause.no_answer || eqb c Cause.no_user_response || eqb c Cause.recovery_on_timer_expire

unfoldable pub resolve_leg_end_status : LegEndContext → CallLegStatus
unfolding is_cause is_no_answer_hangup_cause
resolve_leg_end_status c =
    if c.was_bridged && c.leg_was_answered
    then CallLegStatus.completed
    else if is_cause Cause.user_busy c.hangup_cause
    then CallLegStatus.busy
    else if is_cause Cause.call_rejected c.hangup_cause
    then CallLegStatus.cancelled
    else if is_no_answer_hangup_cause c.hangup_cause || not c.leg_was_answered
    then CallLegStatus.no_answer
    else CallLegStatus.cancelled

unfoldable pub resolve_call_end_status : CallEndContext → CallStatus
unfolding is_cause is_no_answer_hangup_cause
resolve_call_end_status c =
    if c.was_bridged
    then CallStatus.completed
    else if is_cause Cause.user_busy c.hangup_cause
    then CallStatus.busy
    else if is_cause Cause.call_rejected c.hangup_cause
    then CallStatus.rejected
    else if c.is_caller_leg && not c.leg_was_answered
    then CallStatus.no_answer
    else if c.is_callee_leg && not c.leg_was_answered
    then CallStatus.no_answer
    else if is_no_answer_hangup_cause c.hangup_cause
    then CallStatus.no_answer
    else CallStatus.cancelled

unfoldable pub is_no_answer_call_status : CallStatus → Bool
is_no_answer_call_status CallStatus.no_answer = true
is_no_answer_call_status _ = false
