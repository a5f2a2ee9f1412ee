-- ===== src/Tests/Calls.antt =====
-- Click-to-calls: how they end, and what of them stays.
use comm_care.Prelude.{◌≡◌, ◌↔◌, ◌⊎◌, inl, refl, true, false, some, List, [], ◌∷◌}
use comm_care.Hangup.{
  CallStatus, CallLegStatus, CallEndContext, resolve_leg_end_status, resolve_call_end_status,
  is_no_answer_call_status,
}
use comm_care.Hangup.Laws.{
  leg_status_of, end_statuses_agree, completed_iff_bridged, unanswered-is_no_answer,
}
use comm_care.Ari.{RawAriEventBody, CallType, LegRole, build_click2call_app_args}
use comm_care.Entities.{Call}
use comm_care.World.{did, write_call, World}
use comm_care.World.Ensures.{Ensures, world_of}
use comm_care.Click2Call.Handlers.{end_context, handle_channel_destroyed}
use comm_care.Click2Call.Rows.{failed_at}
use comm_care.Click2Call.Once.{IsMonotone, latest_call}
use comm_care.Click2Call.Runs.{run, run-IsMonotone}
use comm_care.Click2Call.Ending.{Returns, HasEnded, PeerAsked, peer_of, first_leg-ends_call}
use comm_care.Click2Call.Ended.{AddsNotes, ended_call-only_noted}
use comm_care.Tests.Bench.{bench, dialled_call, world_after, event_of}
use comm_care.Tests.Stores.{bench-IsCallStore}

-- The caller's leg, unanswered and busy.
abbrev busy_caller : CallEndContext
busy_caller = record {
  leg = record { leg_was_answered = false; was_bridged = false; hangup_cause = some 17 };
  is_caller_leg = true;
  is_callee_leg = false;
}

end_statuses_agree_example :
    resolve_leg_end_status busy_caller.leg ≡ leg_status_of (resolve_call_end_status busy_caller)
end_statuses_agree_example = end_statuses_agree busy_caller refl (inl refl)

completed_iff_bridged_example :
    ((resolve_call_end_status busy_caller ≡ CallStatus.completed)
      ↔ (busy_caller.was_bridged ≡ true))
    × ((resolve_leg_end_status busy_caller.leg ≡ CallLegStatus.completed)
        ↔ ((busy_caller.was_bridged ≡ true) × (busy_caller.leg_was_answered ≡ true)))
completed_iff_bridged_example = completed_iff_bridged busy_caller

unanswered-is_no_answer_example :
    (is_no_answer_call_status (resolve_call_end_status busy_caller) ≡ true)
    ⊎ (resolve_call_end_status busy_caller ≡ CallStatus.busy)
    ⊎ (resolve_call_end_status busy_caller ≡ CallStatus.rejected)
unanswered-is_no_answer_example = unanswered-is_no_answer busy_caller refl refl (inl refl)

-- The agent's phone answers, the callee's phone rings and answers, and the agent hangs up.
abbrev conversation : List RawAriEventBody
conversation =
    event_of "ChannelStateChange" "phone-7" []
    ∷ event_of "StasisStart" "phone-1"
        (build_click2call_app_args "acme" "c2c" "102" CallType.internal LegRole.callee)
    ∷ event_of "ChannelStateChange" "phone-1" []
    ∷ event_of "ChannelDestroyed" "phone-7" []
    ∷ event_of "ChannelDestroyed" "phone-1" []
    ∷ []

run-IsMonotone_example :
    IsMonotone (run bench (world_after (did (write_call dialled_call) ∷ [])) conversation).history
unfolding latest_call
run-IsMonotone_example =
    run-IsMonotone bench bench-IsCallStore (world_after (did (write_call dialled_call) ∷ []))
      conversation (tt, tt)

abbrev ended : Call
ended = failed_at dialled_call 7

abbrev ended_world : World
ended_world = world_after (did (write_call ended) ∷ [])

ended_call-only_noted_example :
    AddsNotes ended_world.history
      (world_of (
        handle_channel_destroyed bench
          (event_of "ChannelDestroyed" "phone-7" [])
          ended_world)).history
unfolding latest_call
ended_call-only_noted_example =
    ended_call-only_noted bench ended_world (event_of "ChannelDestroyed" "phone-7" []) "phone-7"
      ended refl refl refl

abbrev open_world : World
open_world = world_after (did (write_call dialled_call) ∷ [])

first_leg-ends_call_example :
    Ensures Returns
      (λ _ h.
        HasEnded dialled_call
          (resolve_call_end_status (end_context dialled_call "phone-7" false (some 16)))
          h
        × PeerAsked (peer_of dialled_call true) false h)
      (handle_channel_destroyed bench (event_of "ChannelDestroyed" "phone-7" []) open_world)
unfolding latest_call
first_leg-ends_call_example =
    first_leg-ends_call bench open_world (event_of "ChannelDestroyed" "phone-7" []) "phone-7"
      dialled_call refl refl refl refl
