-- ===== src/QueueWorkflow/Safety.antt =====
-- Every handler of the queue workflow keeps the life of every queue call legal.
use comm_care.Prelude.{
  ℕ, String, ◌≡◌, refl, sym, ◌∙◌, subst, arith, true, false, ◌&&◌, Option, none, some, List, [],
  ◌∷◌, includes, is_some, ◌==◌, holds_text, present, Bool-cases, inl, inr, lookup,
}
use comm_care.Ari.{RawAriEventBody}
use comm_care.Entities.{Queue, QueueCall}
use comm_care.World.{
  History, Environment, RingingAgentLeg, M, ◌>>=◌, ◌>>◌, pure, modify, do_action, ask,
  hangup_channel,
}
use comm_care.World.Ensures.{always, Triple, Triple-pure, Triple-ask, Triple-bind, Triple-weaken}
use comm_care.World.Keeps.{
  Keeps-pure, Keeps-ask, Keeps-gets, Keeps-bind, Keeps-then, Keeps-modify, Keeps-elim,
  Keeps-do_action,
}
use comm_care.QueueWorkflow.Rows.{find_enabled_queue}
use comm_care.QueueWorkflow.Ringing.{start_ring_attempt}
use comm_care.QueueWorkflow.Handlers.{
  forget_caller, is_ringing, is_bridged, without_channel, bridge_answered, handle_agent_up,
  handle_channel_state_change, end_caller, handle_caller_channel_destroyed, retry, drop_agent,
  handle_agent_channel_destroyed, handle_agent_gone, handle_channel_destroyed, handle_type,
  handle_event,
}
use comm_care.QueueWorkflow.Lifecycle.{IsStore, latest, is_quiet, latest-id}
use comm_care.QueueWorkflow.Quiet.{
  log_event-Keeps, cancel_rings-Keeps, bridge_caller_and_agent-Keeps,
}
use comm_care.QueueWorkflow.Attempts.{
  IsRingable, IsGood, IsAt, IsGood-stable, IsAt-stable, IsAt-fails, forget_row, write-Triple,
  start_ring_attempt-Triple,
}
use comm_care.QueueWorkflow.Moves.{
  bridged_to-Follows, completed_at-Follows, abandoned_at-Follows, without_channel-Follows,
}
use comm_care.QueueWorkflow.Entering.{stasis_start-Safe}

module _ (env : Environment) (store : IsStore env) (start : History) where
  abbrev Good : History → Type 0
  Good = IsGood env start

  abbrev At : QueueCall → History → Type 0
  At = IsAt env start

  abbrev Safe : {A : Type 0} → M A → Type 0
  Safe m = Triple (always Good) Good m (λ _. Good)

  -- A query by id finds the row that was written last.
  abbrev IsFound : Option QueueCall → History → Type 0
  IsFound none h = Good h
  IsFound (some q) h = At q h

  find_row :
      {A : Type 0} (id : String) (f : Option QueueCall → M A)
      → Safe (f none)
      → ((q : QueueCall) → Triple (always Good) (At q) (f (some q)) (λ _. Good))
      → Safe (ask env (λ h. env.queue_call_by_id h id) >>= f)
  find_row id f missing found =
      Triple-bind {Q = IsFound} _ _
        (Triple-weaken (Triple-ask env (λ h. env.queue_call_by_id h id)) (λ h g. g) fits)
        (λ o. by_row o)
    where
      fits :
          (o : Option QueueCall) (h : History)
          → Good h × (env.queue_call_by_id h id ≡ o)
          → IsFound o h
      fits none h g = g.0
      fits (some q) h g =
          let row : latest id h ≡ some q = sym (store.reads_last_write h id) ∙ g.1 in
          record {
            good = g.0;
            row = subst (λ i. latest i h ≡ some q) (sym (latest-id id h row)) row;
          }

      by_row : (o : Option QueueCall) → Triple (always Good) (IsFound o) (f o) (λ _. Good)
      by_row none = missing
      by_row (some q) = found q

  pub agent_up-Safe :
      (channel : String) (leg : RingingAgentLeg) → Safe (handle_agent_up env channel leg)
  unfolding handle_agent_up bridge_answered
  agent_up-Safe channel leg = find_row leg.queue_call_id _ (Keeps-pure tt) (λ q.
      elim (Bool-cases (is_ringing q.status && includes q.ringing_channel_ids channel)) [
        | inr e ↦ rw e (Triple-pure tt (λ h g. g.good))
        | inl e ↦
            let kept = IsAt-stable env start q in
            rw e (
              Triple-bind _ _ ((cancel_rings-Keeps kept (IsAt-fails env start _) env _)) (λ _.
                Triple-bind _ _ ((Keeps-modify _ (λ w. refl))) (λ _.
                  Triple-bind _ _
                    ((bridge_caller_and_agent-Keeps kept (IsAt-fails env start _) env _ _))
                    (λ bridge. Triple-bind _ _ ((Keeps-ask env _)) (λ now.
                      Triple-bind _ _
                        (write-Triple env start q _ refl
                          (bridged_to-Follows q leg bridge now (ground arith)))
                        (λ _. forget_row env start (
                          Keeps-then _ _
                            (log_event-Keeps (IsGood-stable env start) (λ h g. g) env _ _ _)
                            (log_event-Keeps (IsGood-stable env start) (λ h g. g) env _ _ _))))))))
      ])

  end_caller-Safe :
      (channel : String) (q : QueueCall)
      → is_some q.ended_at ≡ false
      → Triple (always Good) (At q) (end_caller env channel q) (λ _. Good)
  unfolding end_caller
  end_caller-Safe channel q going_on = elim (Bool-cases (is_bridged q.status)) [
    | inl e ↦ rw e (
        Triple-bind _ _ ((Keeps-ask env _)) (λ now.
          Triple-bind _ _ (write-Triple env start q _ refl (completed_at-Follows q now e)) (λ _.
            forget_row env start (log_event-Keeps (IsGood-stable env start) (λ h g. g) env _ _ _))))
    | inr e ↦ rw e (
        Triple-bind _ _ ((Keeps-ask env _)) (λ now.
          Triple-bind _ _
            ((cancel_rings-Keeps (IsAt-stable env start q) (IsAt-fails env start _) env _))
            (λ _.
              Triple-bind _ _
                (write-Triple env start q _ refl (abandoned_at-Follows q now e going_on))
                (λ _.
                  forget_row env start
                    (log_event-Keeps (IsGood-stable env start) (λ h g. g) env _ _ _)))))
  ]

  caller_destroyed-Safe :
      (id channel : String) → Safe (handle_caller_channel_destroyed env id channel)
  unfolding handle_caller_channel_destroyed
  caller_destroyed-Safe id channel = find_row id _ (Keeps-pure tt) (λ q.
      elim (Bool-cases (is_some q.ended_at)) [
        | inl e ↦ rw e (Triple-pure tt (λ h g. g.good))
        | inr e ↦ rw e (end_caller-Safe channel q e)
      ])

  retry-Safe :
      (fuel : ℕ) (q : QueueCall)
      → IsRingable q
      → Triple (always Good) (At q) (retry env fuel q) (λ _. Good)
  unfolding retry find_enabled_queue
  retry-Safe fuel q r = Triple-bind _ _ ((Keeps-ask env _)) (λ found. by_queue found)
    where
      by_queue :
          (found : Option Queue)
          → Triple
              (always Good)
              (At q)
              (elim found [
                | none ↦
                    modify (forget_caller q.caller_channel_id)
                    >> do_action env (hangup_channel q.caller_channel_id)
                | some queue ↦ start_ring_attempt env fuel queue q
              ])
              (λ _. Good)
      by_queue none = forget_row env start (
          Keeps-then _ _ (Keeps-modify _ (λ w. refl))
            (Keeps-do_action is_quiet (IsGood-stable env start) (λ h g. g) env _ refl refl))
      by_queue (some queue) = start_ring_attempt-Triple env start fuel queue q r

  drop_agent-Safe :
      (fuel : ℕ) (channel : String) (leg : RingingAgentLeg) (cause : Option ℕ) (q : QueueCall)
      → is_ringing q.status ≡ true
      → Triple (always Good) (At q) (drop_agent env fuel channel leg cause q) (λ _. Good)
  unfolding drop_agent
  drop_agent-Safe fuel channel leg cause q r =
      Triple-bind _ _ (write-Triple env start q _ refl (without_channel-Follows q channel r)) (λ _.
        Triple-bind _ _
          ((log_event-Keeps (IsAt-stable env start (without_channel q channel))
            (IsAt-fails env start _) env _ _ _))
          (λ _. by_channels (without_channel q channel).ringing_channel_ids refl))
    where
      by_channels :
          (cs : List String)
          → (without_channel q channel).ringing_channel_ids ≡ cs
          → Triple
              (always Good)
              (At (without_channel q channel))
              (elim cs [ [] ↦ retry env fuel (without_channel q channel) | c ∷ rest ↦ pure tt ])
              (λ _. Good)
      by_channels [] e =
          retry-Safe fuel (without_channel q channel) (record { status = ground arith; idle = e })
      by_channels (c ∷ rest) e = Triple-pure tt (λ h g. g.good)

  agent_destroyed-Safe :
      (fuel : ℕ) (channel : String) (leg : RingingAgentLeg) (cause : Option ℕ)
      → Safe (handle_agent_channel_destroyed env fuel channel leg cause)
  unfolding handle_agent_channel_destroyed
  agent_destroyed-Safe fuel channel leg cause = find_row leg.queue_call_id _ (Keeps-pure tt) (λ q.
      elim (Bool-cases (is_ringing q.status && includes q.ringing_channel_ids channel)) [
        | inl e ↦ rw e (drop_agent-Safe fuel channel leg cause q (ground arith))
        | inr e ↦ rw e (Triple-pure tt (λ h g. g.good))
      ])

  state_change-Safe : (event : RawAriEventBody) → Safe (handle_channel_state_change env event)
  unfolding handle_channel_state_change
  state_change-Safe event = Keeps-elim (present event.channel_id) _ _ (Keeps-pure tt) (λ channel.
      elim (Bool-cases (holds_text event.channel_state "Up")) [
        | inl e ↦ rw e (
            Keeps-bind _ _ (Keeps-gets _)
              (λ leg. Keeps-elim leg _ _ (Keeps-pure tt) (λ l. agent_up-Safe channel l)))
        | inr e ↦ rw e (Keeps-pure tt)
      ])

  destroyed-Safe :
      (fuel : ℕ) (event : RawAriEventBody) → Safe (handle_channel_destroyed env fuel event)
  unfolding handle_channel_destroyed handle_agent_gone
  destroyed-Safe fuel event = Keeps-elim (present event.channel_id) _ _ (Keeps-pure tt) (λ channel.
      Keeps-bind _ _ (Keeps-gets (λ w. present (lookup channel w.queue_call_by_caller_channel)))
        (by_caller channel))
    where
      by_caller :
          (channel : String) (caller : Option String)
          → Safe (elim caller [
            | some id ↦
                modify (forget_caller channel) >> handle_caller_channel_destroyed env id channel
            | none ↦ handle_agent_gone env fuel channel event.cause
          ])
      by_caller channel (some id) =
          Keeps-then _ _ (Keeps-modify _ (λ w. refl)) (caller_destroyed-Safe id channel)
      by_caller channel none = Keeps-bind _ _ (Keeps-gets _) (λ leg.
          Keeps-elim leg _ _ (Keeps-pure tt) (λ l.
            Keeps-then _ _ (Keeps-modify _ (λ w. refl))
              (agent_destroyed-Safe fuel channel l event.cause)))

  pub handle_event-Safe : (fuel : ℕ) (event : RawAriEventBody) → Safe (handle_event env fuel event)
  unfolding handle_event handle_type
  handle_event-Safe fuel event = Keeps-elim (present event.type) _ _ (Keeps-pure tt) (λ type.
      elim (Bool-cases (type == "StasisStart")) [
        | inl e ↦ rw e (stasis_start-Safe env store start fuel event)
        | inr e ↦ elim (Bool-cases (type == "ChannelStateChange")) [
          | inl e' ↦ rw (e, e') (state_change-Safe event)
          | inr e' ↦ elim (Bool-cases (type == "ChannelDestroyed")) [
            | inl e'' ↦ rw (e, e', e'') (destroyed-Safe fuel event)
            | inr e'' ↦ rw (e, e', e'') (Keeps-pure tt)
          ]
        ]
      ])
