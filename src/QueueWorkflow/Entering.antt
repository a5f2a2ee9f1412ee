-- ===== src/QueueWorkflow/Entering.antt =====
-- A caller who enters a queue starts a legal row.
use comm_care.Prelude.{
  ℕ, String, ◌≡◌, refl, sym, true, false, Option, none, some, List, [], ◌∷◌, present, Bool-cases,
  inl, inr,
}
use comm_care.Ari.{RawAriEventBody, QueueArgs, QueueLeg, parse_queue_args}
use comm_care.Entities.{
  Queue, QueueCall, QueueCallStatus, QueueCallEventType, timed_out, full, queue_timeout, queue_full,
}
use comm_care.World.{did, failed, History, Environment, M, pure, write_queue_call}
use comm_care.World.Ensures.{
  always, Triple, Triple-pure, Triple-ask, Triple-bind, Triple-weaken, Triple-given,
  Triple-do_action,
}
use comm_care.World.Keeps.{
  Keeps-pure, Keeps-ask, Keeps-bind, Keeps-then, Keeps-modify, Keeps-elim, Keeps-do_action,
}
use comm_care.QueueWorkflow.Rows.{
  EligibleMember, eligible_among, new_queue_call, create_queue_call, find_enabled_queue,
  resolve_eligible_members,
}
use comm_care.QueueWorkflow.Handlers.{
  is_full, turned_away, turn_away, start_waiting, enter_queue, handle_caller_entered_queue,
  handle_queue_args, handle_stasis_start,
}
use comm_care.QueueWorkflow.Lifecycle.{
  Starts, IsStore, latest, is_quiet, latest-write, is_end, is_answered, may_start,
}
use comm_care.QueueWorkflow.Quiet.{log_event-Keeps, log_position_changed-Keeps}
use comm_care.QueueWorkflow.Attempts.{
  later, IsGood, IsAt, IsGood-stable, IsAt-stable, IsAt-fails, forget_row,
  start_ring_attempt-Triple,
}

module _ (env : Environment) (store : IsStore env) (start : History) where
  abbrev Good : History → Type 0
  Good = IsGood env start

  abbrev At : QueueCall → History → Type 0
  At = IsAt env start

  abbrev Safe : {A : Type 0} → M A → Type 0
  Safe m = Triple (always Good) Good m (λ _. Good)

  abbrev IsCreated : QueueCall → QueueCall → History → Type 0
  IsCreated q a h = At a h × (a ≡ record q { id = a.id })

  create_queue_call-Triple :
      (q : QueueCall)
      → ((id : String) → Starts (record q { id = id }))
      → Triple (always Good) Good (create_queue_call env q) (IsCreated q)
  unfolding create_queue_call
  create_queue_call-Triple q starts = Triple-bind _ _ (Triple-ask env env.new_id) (λ id.
      Triple-bind {Q = λ _ h. At (record q { id = id }) h} _ _
        (Triple-do_action env (write_queue_call (record q { id = id }))
          (λ h g. IsGood-stable env start (failed _) h refl g.0)
          (λ h g.
            let new : latest id h ≡ none = rw (← g.1) (store.fresh_ids h) in
            record {
              good = record {
                legal = (rw new (starts id), g.0.legal);
                extends = later (did _) g.0.extends;
              };
              row = latest-write h (record q { id = id });
            }))
        (λ _. Triple-pure _ (λ h g. (g, refl))))

  -- What was created is known up to its id.
  with-IsCreated :
      {A : Type 0} {m : M A} (q a : QueueCall)
      → (a ≡ record q { id = a.id } → Triple (always Good) (At a) m (λ _. Good))
      → Triple (always Good) (IsCreated q a) m (λ _. Good)
  with-IsCreated q a t =
      Triple-given (λ h g. g.1) (λ e. Triple-weaken (t e) (λ h g. g.0) (λ b h g. g))

  turn_away-Safe :
      (q : QueueCall) (status : QueueCallStatus) (type : QueueCallEventType)
      (reason : Option String)
      → ((id : String) → Starts (record (turned_away q status q.entered_at) { id = id }))
      → Safe (turn_away env q status type reason)
  unfolding turn_away
  turn_away-Safe q status type reason starts =
      Triple-bind _ _ (create_queue_call-Triple _ starts) (λ a.
        with-IsCreated (turned_away q status q.entered_at) a (λ e. forget_row env start (
          Keeps-then _ _ (log_event-Keeps (IsGood-stable env start) (λ h g. g) env a _ _)
            (Keeps-do_action is_quiet (IsGood-stable env start) (λ h g. g) env _ refl refl))))

  start_waiting-Safe :
      (fuel : ℕ) (queue : Queue) (t qid c : String) (number : Option String) (now : ℕ)
      → Safe (start_waiting env fuel queue (new_queue_call t qid c number now))
  unfolding start_waiting
  start_waiting-Safe fuel queue t qid c number now =
      Triple-bind _ _
        (create_queue_call-Triple (new_queue_call t qid c number now) (λ id. record {
          status = refl;
          form = record {
            ended = refl;
            bridge = refl;
            agent = refl;
            bridged_since = refl;
            channels = λ e. refl;
          };
        }))
        (λ a. with-IsCreated (new_queue_call t qid c number now) a (λ e.
          let kept = IsAt-stable env start a in
          Triple-bind _ _ ((Keeps-modify _ (λ w. refl))) (λ _.
            Triple-bind _ _ ((log_event-Keeps kept (IsAt-fails env start _) env a _ _)) (λ _.
              Triple-bind _ _ ((log_position_changed-Keeps kept (IsAt-fails env start _) env a))
                (λ _.
                  Triple-bind _ _
                    ((Keeps-do_action is_quiet kept (IsAt-fails env start _) env _ refl refl))
                    (λ _.
                      start_ring_attempt-Triple env start fuel queue a
                        (record { status = rw e refl; idle = rw e refl })))))))

  enter_queue-Safe :
      (fuel : ℕ) (queue : Queue) (t qid c : String) (number : Option String) (now : ℕ)
      → Safe (enter_queue env fuel queue (new_queue_call t qid c number now))
  unfolding enter_queue resolve_eligible_members
  enter_queue-Safe fuel queue t qid c number now = Triple-bind _ _ (Keeps-ask env _) (λ count.
      elim (Bool-cases (is_full queue count)) [
        | inl e ↦ rw e (
            turn_away-Safe _ full queue_full none (λ id. turned_away-Starts full refl refl refl id))
        | inr e ↦ rw e (
            Triple-bind _ _
              (Keeps-ask env (λ h. eligible_among env h queue (env.members_by_queue h queue.id)))
              by_eligible)
      ])
    where
      turned_away-Starts :
          (s : QueueCallStatus)
          → may_start s ≡ true
          → is_end s ≡ true
          → is_answered s ≡ false
          → (id : String)
          → Starts (record (turned_away (new_queue_call t qid c number now) s now) { id = id })
      turned_away-Starts s starts ends unanswered id = record {
        status = starts;
        form = record {
          ended = sym ends;
          bridge = sym unanswered;
          agent = sym unanswered;
          bridged_since = sym unanswered;
          channels = λ e. refl;
        };
      }

      by_eligible :
          (es : List EligibleMember)
          → Safe (elim es [
            | [] ↦
                turn_away env
                  (new_queue_call t qid c number now)
                  timed_out
                  queue_timeout
                  (some "no_eligible_members")
            | e ∷ rest ↦ start_waiting env fuel queue (new_queue_call t qid c number now)
          ])
      by_eligible [] =
          turn_away-Safe _ timed_out queue_timeout _
            (λ id. turned_away-Starts timed_out refl refl refl id)
      by_eligible (e ∷ rest) = start_waiting-Safe fuel queue t qid c number now

  pub stasis_start-Safe :
      (fuel : ℕ) (event : RawAriEventBody) → Safe (handle_stasis_start env fuel event)
  unfolding handle_stasis_start handle_queue_args handle_caller_entered_queue find_enabled_queue
  stasis_start-Safe fuel event =
      Keeps-elim (present event.channel_id) _ _ (Keeps-pure tt) (λ channel.
        Keeps-elim (parse_queue_args event.args) _ _ (Keeps-pure tt)
          (λ parsed. by_leg channel parsed parsed.leg))
    where
      by_leg :
          (channel : String) (parsed : QueueArgs) (leg : QueueLeg)
          → Safe (elim leg [
            | QueueLeg.agent ↦ pure tt
            | QueueLeg.caller ↦
                handle_caller_entered_queue env fuel channel parsed.tenant_id parsed.queue_id
                  event.caller_number
          ])
      by_leg channel parsed QueueLeg.agent = Keeps-pure tt
      by_leg channel parsed QueueLeg.caller = Keeps-bind _ _ (Keeps-ask env _) (λ found.
          Keeps-elim found _ _
            (Keeps-do_action is_quiet (IsGood-stable env start) (λ h g. g) env _ refl refl)
            (λ queue.
              Keeps-bind _ _ (Keeps-ask env _)
                (λ now. enter_queue-Safe fuel queue _ queue.id channel _ now)))
