-- ===== src/Tests/Queues.antt =====
-- The queue, from its strategies to a caller's whole life in it.
use comm_care.Prelude.{
  ℕ, ◌/◌, ◌<◌, ◌≤◌, ◌≡◌, refl, arith, true, false, not, none, some, List, [], ◌∷◌, ◌==◌, includes,
  keep, All, length, inr, ◌⊎◌, Memᴰ, lookup,
}
use comm_care.QueueStrategy.{
  QueueMember, QueueStrategy, ring_all, round_robin, fewest_calls, ResolveDialSetInput,
  resolve_dial_set,
}
use comm_care.QueueStrategy.Selection.{length-resolve_dial_set, resolve_dial_set-pos}
use comm_care.QueueStrategy.Cycle.{resolve_dial_set-untried, attempts, attempts-ring_everybody}
use comm_care.QueueStrategy.Best.{measure, candidates, resolve_dial_set-least}
use comm_care.Ari.{QueueLeg, build_queue_app_args, RawAriEventBody}
use comm_care.Ari.RoundTrip.{parse-build_queue_app_args}
use comm_care.Entities.{QueueCall}
use comm_care.World.{
  did, write_queue_call, hangup_channel, World, RingingAgentLeg, done, Environment,
}
use comm_care.World.Ensures.{Ends, IsThrown, world_of}
use comm_care.World.Served.{WasAsked}
use comm_care.QueueWorkflow.Handlers.{handle_agent_up, handle_event}
use comm_care.QueueWorkflow.Ringing.{start_ring_attempt}
use comm_care.QueueWorkflow.Lifecycle.{IsStore, latest, latest-write, IsLegal, IsWellFormed}
use comm_care.QueueWorkflow.Runs.{run, run-IsLegal, run-keeps_ended}
use comm_care.QueueWorkflow.Termination.{start_ring_attempt-Ends}
use comm_care.QueueWorkflow.Race.{handle_agent_up-cancels_others}
use comm_care.QueueWorkflow.Answers.{answer-settles_call}
use comm_care.QueueWorkflow.Stranded.{run-strands_caller}
use comm_care.QueueWorkflow.Served.{Serves, handle_event-Serves}
use comm_care.Tests.Bench.{
  bench, front_desk, ann, bob, world_after, event_of, waiting_call, ringing_call, refused_call,
}
use comm_care.Tests.Stores.{bench-IsStore}

abbrev input : QueueStrategy → ResolveDialSetInput
input strategy = record {
  strategy = strategy;
  eligible_members = ann ∷ bob ∷ [];
  aggregates = [];
  cursor_member_id = none;
  attempt_order = "ann" ∷ [];
}

abbrev first : ℕ → ℕ
first n = 0

length-resolve_dial_set_example :
    length (resolve_dial_set first (input round_robin)).members_to_ring ≡ 1
length-resolve_dial_set_example =
    length-resolve_dial_set first (input round_robin) (λ n p. p) (λ e. cc) (omega arith)

resolve_dial_set-pos_example : 0 < length (resolve_dial_set first (input ring_all)).members_to_ring
resolve_dial_set-pos_example = resolve_dial_set-pos first (input ring_all) (λ n p. p) (omega arith)

resolve_dial_set-untried_example :
    All
      (λ m. includes ("ann" ∷ []) m.id ≡ false)
      (resolve_dial_set first (input round_robin)).members_to_ring
resolve_dial_set-untried_example = resolve_dial_set-untried first (input round_robin) (omega arith)

attempts-ring_everybody_example :
    All
      (λ m.
        includes
          (attempts first round_robin (ann ∷ bob ∷ []) (([], none) ∷ ([], some "ann") ∷ []) [])
          m.id
        ≡ true)
      (ann ∷ bob ∷ [])
attempts-ring_everybody_example =
    attempts-ring_everybody first round_robin (ann ∷ bob ∷ []) (([], none) ∷ ([], some "ann") ∷ [])
      [] (λ n p. p) (omega arith) (omega arith)

resolve_dial_set-least_example :
    (m : QueueMember) × ((resolve_dial_set first (input fewest_calls)).members_to_ring ≡ m ∷ [])
    × Memᴰ m (candidates (input fewest_calls))
    × All
        (λ x. measure fewest_calls [] m ≤ measure fewest_calls [] x)
        (candidates (input fewest_calls))
resolve_dial_set-least_example =
    resolve_dial_set-least first (input fewest_calls) (inr refl) (omega arith)

abbrev caller_arrives : RawAriEventBody
caller_arrives =
    event_of "StasisStart" "caller-9" (build_queue_app_args "acme" "desk" "" QueueLeg.caller none)

abbrev life : List RawAriEventBody
life =
    caller_arrives
    ∷ event_of "ChannelStateChange" "phone-1" []
    ∷ event_of "ChannelDestroyed" "caller-9" []
    ∷ []

run-IsLegal_example : IsLegal (run bench 9 (world_after []) life).history
run-IsLegal_example = run-IsLegal bench bench-IsStore 9 (world_after []) life tt

refused_call-IsWellFormed : IsWellFormed refused_call
refused_call-IsWellFormed = record {
  ended = refl;
  bridge = refl;
  agent = refl;
  bridged_since = refl;
  channels = λ e. refl;
}

run-keeps_ended_example :
    latest "call-1"
      (run bench 9 (world_after (did (write_queue_call refused_call) ∷ [])) life).history
    ≡ some refused_call
unfolding latest
run-keeps_ended_example =
    run-keeps_ended bench bench-IsStore 9 (world_after (did (write_queue_call refused_call) ∷ []))
      life "call-1" refused_call (record { status = refl; form = refused_call-IsWellFormed }, tt)
      (latest-write [] refused_call) refl

-- Two requests in each millisecond
abbrev fast_bench : Environment
fast_bench = record bench { clock = λ h. length h / 2 }

start_ring_attempt-Ends_example :
    Ends (start_ring_attempt fast_bench 600001 front_desk waiting_call (world_after []))
start_ring_attempt-Ends_example =
    start_ring_attempt-Ends fast_bench 600000 600001 front_desk waiting_call (world_after [])
      (λ h p. omega arith) (omega arith)

abbrev ann_rings : RingingAgentLeg
ann_rings = record { queue_call_id = "call-1"; member_id = "ann"; agent_id = "agent-ann" }

abbrev ringing_world : World
ringing_world = world_after (did (write_queue_call ringing_call) ∷ [])

-- The call waits, then rings on two phones.
ringing-IsLegal :
    IsLegal (did (write_queue_call ringing_call) ∷ did (write_queue_call waiting_call) ∷ [])
unfolding latest
ringing-IsLegal = (
  record {
    going_on = refl;
    status = refl;
    tenant = refl;
    queue = refl;
    caller = refl;
    number = refl;
    entered = refl;
    form = record {
      ended = refl;
      bridge = refl;
      agent = refl;
      bridged_since = refl;
      channels = λ e. cc;
    };
  },
  (
    record {
      status = refl;
      form = record {
        ended = refl;
        bridge = refl;
        agent = refl;
        bridged_since = refl;
        channels = λ e. refl;
      };
    },
    tt,
  ),
)

abbrev both_ring : World
both_ring =
    world_after (did (write_queue_call ringing_call) ∷ did (write_queue_call waiting_call) ∷ [])

abbrev bob_rings : RingingAgentLeg
bob_rings = record { queue_call_id = "call-1"; member_id = "bob"; agent_id = "agent-bob" }

-- Ann answers, the caller hangs up, and then Bob answers.
answer-settles_call_example :
    let first = handle_agent_up bench "phone-1" ann_rings both_ring in
    let w' = run bench 9 (world_of first) (event_of "ChannelDestroyed" "caller-1" [] ∷ []) in
    (IsThrown first × (latest "call-1" (world_of first).history ≡ some ringing_call))
    ⊎ (handle_agent_up bench "phone-2" bob_rings w' ≡ done tt w')
answer-settles_call_example =
    answer-settles_call bench 9 both_ring ringing_call "phone-1" "phone-2" ann_rings bob_rings
      (event_of "ChannelDestroyed" "caller-1" [] ∷ []) bench-IsStore ringing-IsLegal
      (latest-write (did (write_queue_call waiting_call) ∷ []) ringing_call) refl refl refl

handle_agent_up-cancels_others_example :
    All
      (λ c.
        WasAsked
          (hangup_channel c)
          (world_of (handle_agent_up bench "phone-1" ann_rings ringing_world)).history)
      (keep (λ id. not (id == "phone-1")) ("phone-1" ∷ "phone-2" ∷ []))
handle_agent_up-cancels_others_example =
    handle_agent_up-cancels_others bench "phone-1" ann_rings ringing_world ringing_call
      (latest-write [] ringing_call) refl refl

abbrev closed_bench : Environment
closed_bench = record bench {
  queue_by_id_and_tenant = λ h id tenant. some (record front_desk { enabled = false });
}

abbrev last_ringing : QueueCall
last_ringing = record ringing_call { ringing_channel_ids = "phone-1" ∷ [] }

abbrev last_ringing_world : World
last_ringing_world = record (world_after (did (write_queue_call last_ringing) ∷ [])) {
  ringing_agent_legs = ("phone-1", ann_rings) ∷ [];
}

closed_bench-IsStore : IsStore closed_bench
closed_bench-IsStore = record {
  reads_last_write = bench-IsStore.reads_last_write;
  fresh_ids = bench-IsStore.fresh_ids;
}

run-strands_caller_example :
    let w' =
      run closed_bench 9 last_ringing_world (
        event_of "ChannelDestroyed" "phone-1" []
        ∷ event_of "ChannelDestroyed" "caller-1" []
        ∷ []) in
    (latest "call-1" w'.history ≡ some (record last_ringing { ringing_channel_ids = [] }))
    × (lookup "caller-1" w'.queue_call_by_caller_channel ≡ none)
    × WasAsked (hangup_channel "caller-1") w'.history
unfolding lookup
run-strands_caller_example =
    run-strands_caller closed_bench 9 last_ringing_world last_ringing "phone-1" ann_rings
      (event_of "ChannelDestroyed" "phone-1" []) (event_of "ChannelDestroyed" "caller-1" [])
      closed_bench-IsStore (λ h a. refl) (λ h. refl) (latest-write [] last_ringing) refl refl refl
      refl refl (refl, refl) (refl, refl)

caller_is_served_example : Serves "caller-9" (handle_event bench 9 caller_arrives)
caller_is_served_example =
    handle_event-Serves bench 9 caller_arrives "caller-9" "acme" "desk" refl refl
      (parse-build_queue_app_args "acme" "desk" "" QueueLeg.caller none refl refl)
