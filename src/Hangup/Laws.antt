-- ===== src/Hangup/Laws.antt =====
-- The end statuses of a leg and of its call agree, and a call is completed only if it was bridged.
use comm_care.Prelude.{◌≡◌, ◌↔◌, ◌⊎◌, arith, true, false}
use comm_care.Hangup.{
  CallStatus, CallLegStatus, CallEndContext, resolve_leg_end_status, resolve_call_end_status,
  is_no_answer_call_status,
}

-- The leg's status that goes with the call's, where the two were never bridged.
abbrev pub leg_status_of : CallStatus → CallLegStatus
leg_status_of CallStatus.busy = CallLegStatus.busy
leg_status_of CallStatus.no_answer = CallLegStatus.no_answer
leg_status_of CallStatus.completed = CallLegStatus.completed
leg_status_of _ = CallLegStatus.cancelled

-- When a leg of the call ends before the two legs were bridged, the leg's end status is the one that goes
-- with the call's end status, for every hangup cause: busy with busy, no answer with no answer, and
-- a rejected or cancelled call with a cancelled leg.
pub end_statuses_agree :
    (c : CallEndContext)
    → c.was_bridged ≡ false
    → (c.is_caller_leg ≡ true) ⊎ (c.is_callee_leg ≡ true)
    → resolve_leg_end_status c.leg ≡ leg_status_of (resolve_call_end_status c)
unfolding resolve_leg_end_status resolve_call_end_status
end_statuses_agree c b l = ground arith

-- A leg or a call ends as completed exactly when it had been bridged (for a leg: bridged and
-- answered), and no other end status of a call hides a bridge.
pub completed_iff_bridged :
    (c : CallEndContext)
    → ((resolve_call_end_status c ≡ CallStatus.completed) ↔ (c.was_bridged ≡ true))
      × ((resolve_leg_end_status c.leg ≡ CallLegStatus.completed)
          ↔ ((c.was_bridged ≡ true) × (c.leg_was_answered ≡ true)))
unfolding resolve_leg_end_status resolve_call_end_status
completed_iff_bridged c = ground arith

-- A leg that nobody answered, of an unbridged call, ends the call as no answer, unless the cause
-- says busy or rejected.
pub unanswered-is_no_answer :
    (c : CallEndContext)
    → c.was_bridged ≡ false
    → c.leg_was_answered ≡ false
    → (c.is_caller_leg ≡ true) ⊎ (c.is_callee_leg ≡ true)
    → (is_no_answer_call_status (resolve_call_end_status c) ≡ true)
      ⊎ (resolve_call_end_status c ≡ CallStatus.busy)
      ⊎ (resolve_call_end_status c ≡ CallStatus.rejected)
unfolding resolve_call_end_status is_no_answer_call_status
unanswered-is_no_answer c b a l = ground arith
