-- ===== src/QueueWorkflow/Served.antt =====
-- Every caller who enters a queue is answered or hung up.
use comm_care.Prelude.{
  ℕ, zero, suc, ◌+◌, ◌*◌, String, ◌≡◌, refl, true, Option, some, List, [], ◌∷◌, leb, present,
}
use comm_care.QueueStrategy.{QueueMember, resolve_dial_set}
use comm_care.Ari.{RawAriEventBody, QueueLeg, parse_queue_args}
use comm_care.Entities.{
  Queue, QueueCall, QueueCallStatus, QueueCallEventType, QueueCallPayload, timed_out, queue_timeout,
}
use comm_care.World.{Environment, History, Action, M, skip, do_action}
use comm_care.World.Ensures.{Triple, Triple-bind, Triple-exhausted}
use comm_care.World.Keeps.{
  Keeps, IsStable, Keeps-pure, Keeps-ask, Keeps-bind, Keeps-then, Keeps-modify, Keeps-do_action,
  Triple-if, Triple-elim,
}
use comm_care.World.Served.{
  IsServed, IsServed-stable, unless_thrown, answer-IsServed, hangup-IsServed,
}
use comm_care.QueueWorkflow.Rows.{
  EligibleMember, create_queue_call, log_event, timeout_queue_call, resolve_eligible_members,
  find_enabled_queue, new_queue_call,
}
use comm_care.QueueWorkflow.Ringing.{
  ring_chosen, ring_eligible, start_ring_attempt, ringing_on, dial_input, with_fresh_cycle,
}
use comm_care.QueueWorkflow.Handlers.{
  is_full, turn_away, start_waiting, enter_queue, handle_caller_entered_queue, handle_queue_args,
  handle_stasis_start, handle_type, handle_event,
}
use comm_care.QueueWorkflow.Quiet.{
  log_event-Keeps, log_position_changed-Keeps, ring_members-Keeps, save_cursor-Keeps,
}

-- What every request keeps, the ring attempts keep, on any fuel.
module _ (env : Environment) {P : History → Type 0} (stable : IsStable (λ e. true) P) where
  pub action-Keeps : (a : Action) → Keeps (unless_thrown P) P (do_action env a)
  action-Keeps a = Keeps-do_action (λ e. true) stable (λ h p. tt) env a refl refl

  timeout_queue_call-Keeps :
      (q : QueueCall) (reason : String)
      → Keeps (unless_thrown P) P (timeout_queue_call env q reason)
  unfolding timeout_queue_call
  timeout_queue_call-Keeps q reason = Keeps-then _ _ (Keeps-modify _ (λ w. refl)) (
      Keeps-bind _ _ (Keeps-ask env _) (λ now. Keeps-then _ _ (action-Keeps _) (
        Keeps-then _ _ (log_event-Keeps (λ e h p. stable e h refl) (λ h p. tt) env _ _ _)
          (action-Keeps _))))

  ring_chosen-Keeps :
      (again : Queue → QueueCall → M (Unit {0})) (queue : Queue) (q : QueueCall)
      (eligible : List EligibleMember) (members : List QueueMember) (cursor : Option String)
      → ((queue : Queue) (q : QueueCall) → Keeps (unless_thrown P) P (again queue q))
      → Keeps (unless_thrown P) P (
          ring_chosen env again queue q eligible
            (record { members_to_ring = members; next_cursor_member_id = cursor }))
  unfolding ring_chosen
  ring_chosen-Keeps again queue q eligible [] cursor k = timeout_queue_call-Keeps q _
  ring_chosen-Keeps again queue q eligible (m ∷ ms) cursor k =
      Keeps-bind _ _ (save_cursor-Keeps (λ e h p. stable e h refl) (λ h p. tt) env queue cursor)
        (λ saved.
          Keeps-bind _ _
            (ring_members-Keeps (λ e h p. stable e h refl) (λ h p. tt) env saved q eligible
              (m ∷ ms))
            (λ channels. Keeps-then _ _ (action-Keeps _) (by_channels channels saved)))
    where
      by_channels :
          (channels : List String) (saved : Queue)
          → Keeps
              (unless_thrown P)
              P
              (elim channels [ [] ↦ again saved (ringing_on q (m ∷ ms) []) | c ∷ cs ↦ skip ])
      by_channels [] saved = k saved _
      by_channels (c ∷ cs) saved = Keeps-pure tt

  ring_eligible-Keeps :
      (again : Queue → QueueCall → M (Unit {0})) (queue : Queue) (q : QueueCall)
      (eligible : List EligibleMember)
      → ((queue : Queue) (q : QueueCall) → Keeps (unless_thrown P) P (again queue q))
      → Keeps (unless_thrown P) P (ring_eligible env again queue q eligible)
  unfolding ring_eligible
  ring_eligible-Keeps again queue q [] k = timeout_queue_call-Keeps q _
  ring_eligible-Keeps again queue q (e ∷ es) k = Keeps-bind _ _ (Keeps-ask env _) (λ aggregates.
      Keeps-bind _ _ (Keeps-ask env _) (λ random.
        let chosen =
          resolve_dial_set random
            (dial_input queue (with_fresh_cycle (e ∷ es) q) (e ∷ es) aggregates) in
        ring_chosen-Keeps again queue _ (e ∷ es) chosen.members_to_ring chosen.next_cursor_member_id
          k))

  start_ring_attempt-Keeps :
      (fuel : ℕ) (queue : Queue) (q : QueueCall)
      → Keeps (unless_thrown P) P (start_ring_attempt env fuel queue q)
  unfolding start_ring_attempt resolve_eligible_members
  start_ring_attempt-Keeps zero queue q = Triple-exhausted (λ h p. p)
  start_ring_attempt-Keeps (suc fuel) queue q =
      let again = start_ring_attempt-Keeps fuel in
      Keeps-bind _ _ (Keeps-ask env _) (λ now.
        Triple-if (leb (q.entered_at + queue.max_wait_time_seconds * 1000) now) _ _
          (λ _. timeout_queue_call-Keeps q _)
          (λ _.
            Keeps-bind _ _ (Keeps-ask env _) (λ eligible.
              ring_eligible-Keeps (start_ring_attempt env fuel) queue q eligible again)))

-- The handlers that end with the channel answered or hung up, if they do not throw.
abbrev pub Serves : String → M (Unit {0}) → Type 0
Serves channel m =
    Triple (unless_thrown (IsServed channel)) (λ h. Unit {0}) m (λ _. IsServed channel)

abbrev pub PassesOn : {A : Type 0} → String → M A → Type 0
PassesOn channel m = Keeps (unless_thrown (IsServed channel)) (λ h. Unit {0}) m

module _ (env : Environment) where
  log_event-PassesOn :
      (channel : String) (q : QueueCall) (type : QueueCallEventType) (p : QueueCallPayload)
      → PassesOn channel (log_event env q type p)
  log_event-PassesOn channel q type p = log_event-Keeps (λ e h p x. tt) (λ h p. tt) env q type p

  create_queue_call-PassesOn :
      (channel : String) (q : QueueCall) → PassesOn channel (create_queue_call env q)
  unfolding create_queue_call
  create_queue_call-PassesOn channel q = Keeps-bind _ _ (Keeps-ask env _) (λ id.
      Keeps-then _ _ (Keeps-do_action (λ e. true) (λ e h p x. tt) (λ h p. tt) env _ refl refl)
        (Keeps-pure _))

  turn_away-Serves :
      (q : QueueCall) (status : QueueCallStatus) (type : QueueCallEventType)
      (reason : Option String)
      → Serves q.caller_channel_id (turn_away env q status type reason)
  unfolding turn_away
  turn_away-Serves q status type reason =
      Triple-bind _ _ (create_queue_call-PassesOn q.caller_channel_id _) (λ saved.
        Triple-bind _ _ (log_event-PassesOn q.caller_channel_id saved _ _)
          (λ _. hangup-IsServed env q.caller_channel_id))

  start_waiting-Serves :
      (fuel : ℕ) (queue : Queue) (q : QueueCall)
      → Serves q.caller_channel_id (start_waiting env fuel queue q)
  unfolding start_waiting
  start_waiting-Serves fuel queue q =
      let channel = q.caller_channel_id in
      Triple-bind _ _ (create_queue_call-PassesOn channel _) (λ saved.
        Triple-bind _ _ (Keeps-modify _ (λ w. refl)) (λ _.
          Triple-bind _ _ (log_event-PassesOn channel saved _ _) (λ _.
            Triple-bind _ _ (log_position_changed-Keeps (λ e h p x. tt) (λ h p. tt) env saved) (λ _.
              Triple-bind _ _ (answer-IsServed env channel)
                (λ _. start_ring_attempt-Keeps env (IsServed-stable channel) fuel queue saved)))))

  enter_queue-Serves :
      (fuel : ℕ) (queue : Queue) (q : QueueCall)
      → Serves q.caller_channel_id (enter_queue env fuel queue q)
  unfolding enter_queue resolve_eligible_members
  enter_queue-Serves fuel queue q = Triple-bind _ _ (Keeps-ask env _) (λ count.
      Triple-if (is_full queue count) _ _ (λ _. turn_away-Serves q _ _ _)
        (λ _. Triple-bind _ _ (Keeps-ask env _) by_eligible))
    where
      by_eligible :
          (es : List EligibleMember)
          → Serves q.caller_channel_id (elim es [
            | [] ↦ turn_away env q timed_out queue_timeout (some "no_eligible_members")
            | e ∷ es ↦ start_waiting env fuel queue q
          ])
      by_eligible [] = turn_away-Serves q _ _ _
      by_eligible (e ∷ es) = start_waiting-Serves fuel queue q

  -- A caller whom the arguments send to a queue is answered or hung up, whether the queue exists, is
  -- full, has no free member, or lets the caller wait, unless the handler throws.
  pub handle_event-Serves :
      (fuel : ℕ) (event : RawAriEventBody) (channel tenant_id queue_id : String)
      → present event.type ≡ some "StasisStart"
      → present event.channel_id ≡ some channel
      → parse_queue_args event.args
        ≡ some (record { tenant_id = tenant_id; queue_id = queue_id; leg = QueueLeg.caller })
      → Serves channel (handle_event env fuel event)
  unfolding handle_event handle_type handle_stasis_start handle_queue_args
      handle_caller_entered_queue find_enabled_queue
  handle_event-Serves fuel event channel tenant_id queue_id type on parsed =
      rw (handle_event, type, handle_type, handle_stasis_start, on, parsed)
        (Triple-bind _ _ (Keeps-ask env _) (λ found.
          Triple-elim found _ _ (λ _. hangup-IsServed env channel)
            (λ queue _. Triple-bind _ _ (Keeps-ask env _) (λ now.
              enter_queue-Serves fuel queue
                (new_queue_call tenant_id queue.id channel event.caller_number now)))))
