-- ===== src/QueueWorkflow/Answers.antt =====
-- A queue call that an agent has answered, and the answers that come later.
use comm_care.Prelude.{
  ℕ, List, ap, String, ◌≡◌, refl, sym, subst, ◌∙◌, ◌⊎◌, inl, inr, arith, Bool, true, false, ◌&&◌,
  Option, none, some, includes, Bool-cases, ◌==◌, eq_iff,
}
use comm_care.Ari.{RawAriEventBody}
use comm_care.Entities.{QueueCall, QueueCallStatus, waiting, ringing}
use comm_care.World.{
  did, failed, write_queue_call, History, Environment, World, RingingAgentLeg, Result, done, ◌>>=◌,
  ask,
}
use comm_care.World.Ensures.{
  Failing, throws, fuel_out, Ensures, Triple, Triple-bind, Triple-do_action, world_of, IsThrown,
  Ensures-cases, Ensures-world_of,
}
use comm_care.World.Keeps.{IsStable, Keeps-ask, Keeps-modify}
use comm_care.QueueWorkflow.Handlers.{is_ringing, bridged_to, bridge_answered, handle_agent_up}
use comm_care.QueueWorkflow.Lifecycle.{
  IsStore, IsStep, IsLegal, may_follow, latest, latest-id, latest-quiet, latest-write, is_quiet,
}
use comm_care.QueueWorkflow.Quiet.{
  log_event-Keeps, cancel_rings-Keeps, bridge_caller_and_agent-Keeps,
}
use comm_care.QueueWorkflow.Attempts.{Extends, here, later, IsGood}
use comm_care.QueueWorkflow.Safety.{agent_up-Safe}
use comm_care.QueueWorkflow.Runs.{run, run-IsGood}

-- The statuses from which no call rings again.
abbrev is_settled : QueueCallStatus → Bool
is_settled waiting = false
is_settled ringing = false
is_settled _ = true

settled_follows :
    (a b : QueueCallStatus) → may_follow a b ≡ true → is_settled a ≡ true → is_settled b ≡ true
settled_follows a b m s = ground arith

settled-not_ringing : (s : QueueCallStatus) → is_settled s ≡ true → is_ringing s ≡ false
settled-not_ringing s e = ground arith

abbrev Settled : String → History → Type 0
Settled id h = (r : QueueCall) × (latest id h ≡ some r) × (is_settled r.status ≡ true)

step-settled :
    (o : Option QueueCall) (p q : QueueCall)
    → o ≡ some p
    → is_settled p.status ≡ true
    → IsStep o q
    → is_settled q.status ≡ true
step-settled none p q e s step = cc
step-settled (some r) p q e s step =
    let same : r ≡ p = cc in
    settled_follows r.status q.status step.status
      (subst (λ x. is_settled x.status ≡ true) (sym same) s)

-- A settled call stays settled in every legal history that goes on.
Settled-kept :
    (id : String) (start h : History)
    → Settled id start
    → IsLegal h
    → Extends start h
    → Settled id h
unfolding latest
Settled-kept id start _ s l here = s
Settled-kept id start _ s l (later {h} (did (write_queue_call r)) x) =
    let before = Settled-kept id start h s l.1 x in
    elim (Bool-cases (r.id == id)) [
      | inr e ↦ rw e before
      | inl e ↦
          let same : r.id ≡ id = (eq_iff r.id id).0 e in
          let row = subst (λ i. latest i h ≡ some before.0) (sym same) before.1 in
          let settled = step-settled (latest r.id h) before.0 r row before.2 l.0 in
          rw e (r, refl, settled)
    ]
Settled-kept id start _ s l (later {h} (did _) x) = Settled-kept id start h s l x
Settled-kept id start _ s l (later {h} (failed a) x) = Settled-kept id start h s l x

-- An agent answers for a call that rings no more: no request is made.
settled_call-ignores :
    (env : Environment) (channel : String) (leg : RingingAgentLeg) (w : World) (q : QueueCall)
    → env.queue_call_by_id w.history leg.queue_call_id ≡ some q
    → is_ringing q.status ≡ false
    → handle_agent_up env channel leg w ≡ done tt w
unfolding handle_agent_up ask ◌>>=◌
settled_call-ignores env channel leg w q found late =
    let off : (is_ringing q.status && includes q.ringing_channel_ids channel) ≡ false =
      ground arith in
    rw (found, off) refl

-- The first answer throws before its row is written, or the row says that the call is bridged.
abbrev refused_or_settled : QueueCall → Failing
refused_or_settled q throws h = (latest q.id h ≡ some q) ⊎ Settled q.id h
refused_or_settled q fuel_out h = ⊥

bridge_answered-settles :
    (env : Environment) (channel : String) (leg : RingingAgentLeg) (q : QueueCall)
    → Triple
        (refused_or_settled q)
        (λ h. latest q.id h ≡ some q)
        (bridge_answered env channel leg q)
        (λ _. Settled q.id)
unfolding bridge_answered
bridge_answered-settles env channel leg q =
    Triple-bind _ _ (cancel_rings-Keeps row_stable (λ h p. inl p) env _) (λ _.
      Triple-bind _ _ (Keeps-modify _ (λ w. refl)) (λ _.
        Triple-bind _ _ (bridge_caller_and_agent-Keeps row_stable (λ h p. inl p) env _ _) (λ bridge.
          Triple-bind _ _ (Keeps-ask env _) (λ now.
            Triple-bind {Q = λ _. Settled q.id} _ _
              (Triple-do_action env (write_queue_call (bridged_to q leg bridge now))
                (λ h p. inl (row_stable (failed _) h refl p))
                (λ h p. (bridged_to q leg bridge now, latest-write h _, refl)))
              (λ _.
                Triple-bind _ _ (log_event-Keeps settled_stable (λ h p. inr p) env _ _ _)
                  (λ _. log_event-Keeps settled_stable (λ h p. inr p) env _ _ _))))))
  where
    row_stable : IsStable is_quiet (λ h. latest q.id h ≡ some q)
    row_stable e h quiet p = latest-quiet q.id e h quiet ∙ p

    settled_stable : IsStable is_quiet (Settled q.id)
    settled_stable e h quiet p = (p.0, latest-quiet q.id e h quiet ∙ p.1, p.2)

by_outcome :
    {A : Type 0} (q : QueueCall) (r : Result A)
    → Ensures (refused_or_settled q) (λ _. Settled q.id) r
    → (IsThrown r × (latest q.id (world_of r).history ≡ some q)) ⊎ Settled q.id (world_of r).history
by_outcome q r ensured =
    elim (Ensures-cases (refused_or_settled q) (Settled q.id) r (λ h e. e) ensured) [
      | inl (threw, inl row) ↦ inl (threw, row)
      | inl (threw, inr settled) ↦ inr settled
      | inr settled ↦ inr settled
    ]

first_answer :
    (env : Environment) (channel : String) (leg : RingingAgentLeg) (w : World) (q : QueueCall)
    → IsStore env
    → latest leg.queue_call_id w.history ≡ some q
    → is_ringing q.status ≡ true
    → includes q.ringing_channel_ids channel ≡ true
    → let first = handle_agent_up env channel leg w in
      (IsThrown first × (latest leg.queue_call_id (world_of first).history ≡ some q))
      ⊎ Settled leg.queue_call_id (world_of first).history
unfolding handle_agent_up ask ◌>>=◌
first_answer env channel leg w q store row on_ring listed =
    let on : (is_ringing q.status && includes q.ringing_channel_ids channel) ≡ true =
      ground arith in
    let same : q.id ≡ leg.queue_call_id = latest-id leg.queue_call_id w.history row in
    let found : env.queue_call_by_id w.history leg.queue_call_id ≡ some q =
      store.reads_last_write w.history leg.queue_call_id ∙ row in
    let result = bridge_answered env channel leg q w in
    rw (found, on)
      (subst
        (λ i.
          (IsThrown result × (latest i (world_of result).history ≡ some q))
          ⊎ Settled i (world_of result).history)
        same
        (by_outcome q result (
          (bridge_answered-settles env channel leg q).at w
            (subst (λ i. latest i w.history ≡ some q) (sym same) row))))

-- An agent answers for a ringing call, on a channel that rings for it, after a legal history. Either the
-- handler throws and the row of the call is as it was; or from then on, whatever events arrive and
-- whichever requests fail, no answer for the same call on any channel makes a request or changes
-- anything.
pub answer-settles_call :
    (env : Environment) (fuel : ℕ) (w : World) (q : QueueCall) (channel other : String)
    (leg other_leg : RingingAgentLeg) (events : List RawAriEventBody)
    → IsStore env
    → IsLegal w.history
    → latest leg.queue_call_id w.history ≡ some q
    → is_ringing q.status ≡ true
    → includes q.ringing_channel_ids channel ≡ true
    → other_leg.queue_call_id ≡ leg.queue_call_id
    → let first = handle_agent_up env channel leg w in
      let w' = run env fuel (world_of first) events in
      (IsThrown first × (latest leg.queue_call_id (world_of first).history ≡ some q))
      ⊎ (handle_agent_up env other other_leg w' ≡ done tt w')
answer-settles_call env fuel w q channel other leg other_leg events store l row on_ring listed
      same =
    elim (first_answer env channel leg w q store row on_ring listed) [
      | inl refused ↦ inl refused
      | inr settled ↦
          let good = Ensures-world_of (IsGood env w.history) (handle_agent_up env channel leg w) (
            (agent_up-Safe env store w.history channel leg).at w
              (record { legal = l; extends = here })) in
          let going_on =
            run-IsGood env store fuel (world_of (handle_agent_up env channel leg w)) events
              good.legal in
          let still = Settled-kept leg.queue_call_id _ _ settled going_on.legal going_on.extends in
          inr (
            settled_call-ignores env other other_leg _ still.0
              (ap (env.queue_call_by_id _) same ∙ store.reads_last_write _ _ ∙ still.1)
              (settled-not_ringing still.0.status still.2))
    ]
