-- ===== src/QueueWorkflow/Quiet.antt =====
-- The parts of the queue workflow that write no row of a queue call.
use comm_care.Prelude.{String, refl, Option, none, List, [], ◌∷◌}
use comm_care.QueueStrategy.{QueueMember}
use comm_care.Entities.{Queue, QueueCall, QueueCallEventType, QueueCallPayload}
use comm_care.World.{Environment, History}
use comm_care.World.Ensures.{Failing}
use comm_care.World.Keeps.{
  Keeps, IsStable, MayThrow, Keeps-pure, Keeps-ask, Keeps-bind, Keeps-then, Keeps-modify,
  Keeps-attempt, Keeps-elim, Keeps-perform, Keeps-do_action,
}
use comm_care.QueueWorkflow.Rows.{EligibleMember, log_event, log_position_changed}
use comm_care.QueueWorkflow.Ringing.{ring_member, ring_members, save_cursor}
use comm_care.QueueWorkflow.Handlers.{cancel_ring, cancel_rings, bridge_caller_and_agent}
use comm_care.QueueWorkflow.Lifecycle.{is_quiet}

module _ {E : Failing} {P : History → Type 0} (stable : IsStable is_quiet P) (fails : MayThrow E P)
    (env : Environment) where
  pub log_event-Keeps :
      (q : QueueCall) (type : QueueCallEventType) (payload : QueueCallPayload)
      → Keeps E P (log_event env q type payload)
  unfolding log_event
  log_event-Keeps q type payload =
      Keeps-bind _ _ (Keeps-ask env _)
        (λ now. Keeps-do_action is_quiet stable fails env _ refl refl)

  pub log_position_changed-Keeps : (q : QueueCall) → Keeps E P (log_position_changed env q)
  unfolding log_position_changed
  log_position_changed-Keeps q = Keeps-bind _ _ (Keeps-ask env _) (λ active. log_event-Keeps q _ _)

module _ {E : Failing} {P : History → Type 0} (stable : IsStable is_quiet P) (fails : MayThrow E P)
    (env : Environment) where
  ring_member-Keeps :
      (queue : Queue) (q : QueueCall) (m : QueueMember) (e : EligibleMember)
      → Keeps E P (ring_member env queue q m e)
  unfolding ring_member
  ring_member-Keeps queue q m e =
      Keeps-bind _ _ (Keeps-attempt _ (Keeps-perform is_quiet stable (λ h p. p) env _ refl refl))
        (λ placed. Keeps-elim placed _ _ (Keeps-pure none) (λ channel.
          Keeps-then _ _ (Keeps-modify _ (λ w. refl)) (
            Keeps-then _ _ (Keeps-attempt _ (log_event-Keeps stable (λ h p. p) env q _ _))
              (Keeps-pure _))))

  pub ring_members-Keeps :
      (queue : Queue) (q : QueueCall) (es : List EligibleMember) (ms : List QueueMember)
      → Keeps E P (ring_members env queue q es ms)
  unfolding ring_members
  ring_members-Keeps queue q es [] = Keeps-pure []
  ring_members-Keeps queue q es (m ∷ ms) =
      let rest = ring_members-Keeps queue q es ms in
      Keeps-bind _ _
        (Keeps-elim _ _ _ (Keeps-pure none) (λ entry. ring_member-Keeps queue q m entry))
        (λ channel. Keeps-bind _ _ rest (λ channels. Keeps-pure _))

  pub save_cursor-Keeps :
      (queue : Queue) (cursor : Option String) → Keeps E P (save_cursor env queue cursor)
  unfolding save_cursor
  save_cursor-Keeps queue cursor =
      Keeps-elim _ _ _ (Keeps-pure queue) (λ id.
        Keeps-then _ _ (Keeps-do_action is_quiet stable fails env _ refl refl) (Keeps-pure _))

  cancel_ring-Keeps : (channel : String) → Keeps E P (cancel_ring env channel)
  unfolding cancel_ring
  cancel_ring-Keeps channel =
      Keeps-then _ _ (Keeps-attempt _ (Keeps-do_action is_quiet stable (λ h p. p) env _ refl refl))
        (Keeps-pure tt)

  pub cancel_rings-Keeps : (channels : List String) → Keeps E P (cancel_rings env channels)
  unfolding cancel_rings
  cancel_rings-Keeps [] = Keeps-pure tt
  cancel_rings-Keeps (c ∷ cs) =
      Keeps-then _ _ (Keeps-modify _ (λ w. refl))
        (Keeps-then _ _ (cancel_ring-Keeps c) (cancel_rings-Keeps cs))

  pub bridge_caller_and_agent-Keeps :
      (caller agent : String) → Keeps E P (bridge_caller_and_agent env caller agent)
  unfolding bridge_caller_and_agent
  bridge_caller_and_agent-Keeps caller agent =
      Keeps-bind _ _ (Keeps-perform is_quiet stable fails env _ refl refl) (λ bridge.
        Keeps-then _ _ (Keeps-do_action is_quiet stable fails env _ refl refl)
          (Keeps-then _ _ (Keeps-do_action is_quiet stable fails env _ refl refl) (Keeps-pure _)))
