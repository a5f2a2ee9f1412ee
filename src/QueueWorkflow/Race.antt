-- ===== src/QueueWorkflow/Race.antt =====
-- The race between ringing agents: the first to answer is bridged, and the others are cancelled.
use comm_care.Prelude.{
  String, ◌≡◌, refl, inl, arith, true, not, ◌&&◌, some, List, [], ◌∷◌, includes, keep, All, ◌==◌,
}
use comm_care.Entities.{QueueCall}
use comm_care.World.{
  Entry, did, failed, hangup_channel, History, Environment, World, RingingAgentLeg, ◌>>=◌, ask,
}
use comm_care.World.Ensures.{
  Failing, always, Triple, Triple-pure, Triple-bind, Triple-weaken, Triple-do_action,
  Triple-attempt, world_of, Ensures-world_of,
}
use comm_care.World.Keeps.{
  IsStable, Keeps-ask, Keeps-bind, Keeps-then, Keeps-modify, Keeps-do_action,
}
use comm_care.World.Served.{WasAsked, WasAsked-later}
use comm_care.QueueWorkflow.Handlers.{
  is_ringing, cancel_ring, cancel_rings, bridge_answered, handle_agent_up,
}
use comm_care.QueueWorkflow.Lifecycle.{is_quiet}
use comm_care.QueueWorkflow.Quiet.{log_event-Keeps, bridge_caller_and_agent-Keeps}

module _ (env : Environment) {E : Failing} where
  -- Cancelling asks for the hangup of each channel, and cannot fail.
  cancel_ring-asks :
      {X : History → Type 0} (channel : String)
      → IsStable (λ e. true) X
      → Triple E X (cancel_ring env channel) (λ _ h. X h × WasAsked (hangup_channel channel) h)
  unfolding cancel_ring
  cancel_ring-asks {X} channel stable =
      Triple-bind _ _
        (Triple-attempt (
          Triple-do_action env (hangup_channel channel)
            (λ h x. (stable (failed _) h refl x, inl refl))
            (λ h x. (stable (did _) h refl x, inl refl))))
        (λ _. Triple-pure tt (λ h x. x))

  cancel_rings-asks :
      {X : History → Type 0} (channels : List String)
      → IsStable (λ e. true) X
      → Triple E X
          (cancel_rings env channels)
          (λ _ h. X h × All (λ c. WasAsked (hangup_channel c) h) channels)
  unfolding cancel_rings
  cancel_rings-asks [] stable = Triple-pure tt (λ h x. (x, tt))
  cancel_rings-asks {X} (c ∷ cs) stable = Triple-bind _ _ (Keeps-modify _ (λ w. refl)) (λ _.
      Triple-bind _ _ (cancel_ring-asks c stable) (λ _.
        Triple-weaken
          (cancel_rings-asks {X = λ h. X h × WasAsked (hangup_channel c) h} cs
            (λ e h q x. (stable e h q x.0, WasAsked-later _ e h x.1)))
          (λ h x. x) (λ a h x. (x.0.0, (x.0.1, x.1)))))

All-WasAsked-later :
    (e : Entry) (h : History) (cs : List String)
    → All (λ c. WasAsked (hangup_channel c) h) cs
    → All (λ c. WasAsked (hangup_channel c) (e ∷ h)) cs
All-WasAsked-later e h [] a = tt
All-WasAsked-later e h (c ∷ cs) a = (WasAsked-later _ e h a.0, All-WasAsked-later e h cs a.1)

abbrev OthersAsked : String → List String → History → Type 0
OthersAsked channel ids h =
    All (λ c. WasAsked (hangup_channel c) h) (keep (λ id. not (id == channel)) ids)

bridge_answered-asks :
    (env : Environment) (channel : String) (leg : RingingAgentLeg) (q : QueueCall)
    → Triple
        (always (OthersAsked channel q.ringing_channel_ids))
        (λ h. Unit {0})
        (bridge_answered env channel leg q)
        (λ _. OthersAsked channel q.ringing_channel_ids)
unfolding bridge_answered
bridge_answered-asks env channel leg q =
    Triple-bind _ _
      (Triple-weaken
        (cancel_rings-asks env {X = λ h. Unit {0}}
          (keep (λ id. not (id == channel)) q.ringing_channel_ids) (λ e h p x. tt))
        (λ h x. tt) (λ a h x. x.1))
      (λ _. Keeps-then _ _ (Keeps-modify _ (λ w. refl)) (
        Keeps-bind _ _ (bridge_caller_and_agent-Keeps quiet (λ h x. x) env _ _) (λ bridge.
          Keeps-bind _ _ (Keeps-ask env _) (λ now.
            Keeps-then _ _
              (Keeps-do_action (λ e. true) (λ e h p. All-WasAsked-later e h _) (λ h x. x) env _ refl
                refl)
              (Keeps-then _ _ (log_event-Keeps quiet (λ h x. x) env _ _ _)
                (log_event-Keeps quiet (λ h x. x) env _ _ _))))))
  where
    quiet : IsStable is_quiet (OthersAsked channel q.ringing_channel_ids)
    quiet e h p = All-WasAsked-later e h _

-- The first agent to answer: of every other channel that was ringing for the call the hangup is
-- asked for, however the rest of the handler fares.
pub handle_agent_up-cancels_others :
    (env : Environment) (channel : String) (leg : RingingAgentLeg) (w : World) (q : QueueCall)
    → env.queue_call_by_id w.history leg.queue_call_id ≡ some q
    → is_ringing q.status ≡ true
    → includes q.ringing_channel_ids channel ≡ true
    → All
        (λ c. WasAsked (hangup_channel c) (world_of (handle_agent_up env channel leg w)).history)
        (keep (λ id. not (id == channel)) q.ringing_channel_ids)
unfolding handle_agent_up ask ◌>>=◌
handle_agent_up-cancels_others env channel leg w q found ringing listed =
    let on : (is_ringing q.status && includes q.ringing_channel_ids channel) ≡ true =
      ground arith in
    rw (found, on)
      (Ensures-world_of (OthersAsked channel q.ringing_channel_ids)
        (bridge_answered env channel leg q w) ((bridge_answered-asks env channel leg q).at w tt))
