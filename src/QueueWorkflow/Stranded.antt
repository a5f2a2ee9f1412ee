-- ===== src/QueueWorkflow/Stranded.antt =====
-- A caller whose queue is disabled or removed while agents ring: handleAgentChannelDestroyed, and then
-- handleChannelDestroyed of the caller.
use comm_care.Prelude.{
  ℕ, ap, String, ◌≡◌, refl, ◌∙◌, inl, arith, true, false, not, Option, none, some, List, [], ◌∷◌,
  ◌==◌, keep, present, lookup, remove, lookup-remove, eq_refl, includes, ◌&&◌,
}
use comm_care.Ari.{RawAriEventBody}
use comm_care.Entities.{QueueCall}
use comm_care.World.{
  Action, hangup_channel, History, Environment, World, RingingAgentLeg, Result, done, ◌>>=◌, ask,
  gets, modify, do_action, perform,
}
use comm_care.World.Ensures.{world_of}
use comm_care.World.Served.{WasAsked}
use comm_care.QueueWorkflow.Rows.{enabled_or_none, find_enabled_queue, log_event}
use comm_care.QueueWorkflow.Handlers.{
  is_ringing, drop_agent, handle_agent_channel_destroyed, handle_agent_gone,
  handle_channel_destroyed, retry, handle_type, handle_event, forget_leg,
}
use comm_care.QueueWorkflow.Lifecycle.{IsStore, latest}
use comm_care.QueueWorkflow.Runs.{run, step}

abbrev pub AllGranted : Environment → Type 0
AllGranted env = (h : History) (a : Action) → env.fails h a ≡ false

-- The queue of the call is not found, or is disabled.
abbrev pub QueueGone : Environment → QueueCall → Type 0
QueueGone env q =
    (h : History) → enabled_or_none (env.queue_by_id_and_tenant h q.queue_id q.tenant_id) ≡ none

-- The handler returned; the row is open; and the caller is forgotten, with the hangup asked for.
record IsStranded (q : QueueCall) (w : World) (r : Result (Unit {0})) : Type 0 where
  pub returned : r ≡ done tt (world_of r)
  pub row : latest q.id (world_of r).history ≡ some (record q { ringing_channel_ids = [] })
  pub forgotten : lookup q.caller_channel_id (world_of r).queue_call_by_caller_channel ≡ none
  pub legs : (world_of r).ringing_agent_legs ≡ w.ringing_agent_legs
  pub asked : WasAsked (hangup_channel q.caller_channel_id) (world_of r).history

module _ (env : Environment) (granted : AllGranted env) (q : QueueCall) (gone : QueueGone env q)
    (channel : String) where
  drop_agent-IsStranded :
      (fuel : ℕ) (leg : RingingAgentLeg) (cause : Option ℕ) (w : World)
      → keep (λ id. not (id == channel)) q.ringing_channel_ids ≡ []
      → IsStranded q w (drop_agent env fuel channel leg cause q w)
  unfolding drop_agent retry find_enabled_queue log_event do_action perform modify ask ◌>>=◌ latest
  drop_agent-IsStranded fuel leg cause w last =
      rw (granted, granted, last, gone, granted)
        (record {
          returned = refl;
          row = rw eq_refl refl;
          forgotten = rw (lookup-remove, eq_refl) refl;
          legs = refl;
          asked = inl refl;
        })

  agent_destroyed-IsStranded :
      (fuel : ℕ) (leg : RingingAgentLeg) (cause : Option ℕ) (w : World)
      → env.queue_call_by_id w.history leg.queue_call_id ≡ some q
      → is_ringing q.status ≡ true
      → q.ringing_channel_ids ≡ channel ∷ []
      → IsStranded q w (handle_agent_channel_destroyed env fuel channel leg cause w)
  unfolding handle_agent_channel_destroyed ask ◌>>=◌
  agent_destroyed-IsStranded fuel leg cause w found on_ring only =
      let listed : includes q.ringing_channel_ids channel ≡ true = rw (only, eq_refl) refl in
      let both : (is_ringing q.status && includes q.ringing_channel_ids channel) ≡ true =
        ground arith in
      let last : keep (λ id. not (id == channel)) q.ringing_channel_ids ≡ [] =
        rw (only, eq_refl) refl in
      rw (found, both) (drop_agent-IsStranded fuel leg cause w last)

-- `ChannelDestroyed` of a channel
abbrev pub IsDestroyed : RawAriEventBody → String → Type 0
IsDestroyed event channel =
    (present event.type ≡ some "ChannelDestroyed") × (present event.channel_id ≡ some channel)

module _ (env : Environment) (fuel : ℕ) (w : World) (event : RawAriEventBody) (channel : String)
    (destroyed : IsDestroyed event channel)
    (no_caller : lookup channel w.queue_call_by_caller_channel ≡ none) where
  -- The destroyed channel is no caller's: it is an agent's that rings, or nobody's.
  agent_gone-step :
      (leg : RingingAgentLeg)
      → lookup channel w.ringing_agent_legs ≡ some leg
      → handle_event env fuel event w
        ≡ handle_agent_channel_destroyed env fuel channel leg event.cause (forget_leg channel w)
  unfolding handle_event handle_type handle_channel_destroyed handle_agent_gone gets modify ◌>>=◌
  agent_gone-step leg rings =
      rw
        (
          handle_event, destroyed.0, handle_type, handle_channel_destroyed, destroyed.1, no_caller,
          handle_agent_gone, rings,
        )
        refl

  nobody_gone-step :
      lookup channel w.ringing_agent_legs ≡ none → handle_event env fuel event w ≡ done tt w
  unfolding handle_event handle_type handle_channel_destroyed handle_agent_gone gets modify ◌>>=◌
  nobody_gone-step rings =
      rw
        (
          handle_event, destroyed.0, handle_type, handle_channel_destroyed, destroyed.1, no_caller,
          handle_agent_gone, rings,
        )
        refl

lookup-forgotten :
    (channel other : String) (legs : List (String × RingingAgentLeg))
    → lookup channel legs ≡ none
    → lookup channel (remove other legs) ≡ none
lookup-forgotten channel other legs e = rw lookup-remove (ground arith)

-- Agents ring for a call, on one channel by now, and the queue is disabled or removed; all requests are
-- granted. Then that channel is destroyed, and then the caller's. The first event asks for the hangup of
-- the caller, and the second finds the caller forgotten: the last row of the call is the ringing row
-- that it was, but for its channels, so it gets no end.
pub run-strands_caller :
    (env : Environment) (fuel : ℕ) (w : World) (q : QueueCall) (channel : String)
    (leg : RingingAgentLeg) (agent_gone caller_gone : RawAriEventBody)
    → IsStore env
    → AllGranted env
    → QueueGone env q
    → latest leg.queue_call_id w.history ≡ some q
    → is_ringing q.status ≡ true
    → q.ringing_channel_ids ≡ channel ∷ []
    → lookup channel w.queue_call_by_caller_channel ≡ none
    → lookup channel w.ringing_agent_legs ≡ some leg
    → lookup q.caller_channel_id w.ringing_agent_legs ≡ none
    → IsDestroyed agent_gone channel
    → IsDestroyed caller_gone q.caller_channel_id
    → let w' = run env fuel w (agent_gone ∷ caller_gone ∷ []) in
      (latest q.id w'.history ≡ some (record q { ringing_channel_ids = [] }))
      × (lookup q.caller_channel_id w'.queue_call_by_caller_channel ≡ none)
      × WasAsked (hangup_channel q.caller_channel_id) w'.history
unfolding run step
run-strands_caller env fuel w q channel leg agent_gone caller_gone store granted gone row on_ring
      only no_caller rings caller_rings_not agent_event caller_event =
    let found : env.queue_call_by_id w.history leg.queue_call_id ≡ some q =
      store.reads_last_write w.history leg.queue_call_id ∙ row in
    let stranded =
      agent_destroyed-IsStranded env granted q gone channel fuel leg agent_gone.cause
        (forget_leg channel w) found on_ring only in
    let first = world_of (
      handle_agent_channel_destroyed env fuel channel leg agent_gone.cause
        (forget_leg channel w)) in
    let second : handle_event env fuel caller_gone first ≡ done tt first =
      nobody_gone-step env fuel first caller_gone q.caller_channel_id caller_event
        stranded.forgotten
        (ap (lookup q.caller_channel_id) stranded.legs
          ∙ lookup-forgotten q.caller_channel_id channel w.ringing_agent_legs caller_rings_not) in
    rw (agent_gone-step env fuel w agent_gone channel agent_event no_caller leg rings, second)
      (stranded.row, stranded.forgotten, stranded.asked)
