-- ===== src/QueueWorkflow/Termination.antt =====
-- The recursion of `startRingAttempt` ends, and how much fuel is enough for it.
use comm_care.Prelude.{
  ℕ, zero, suc, length, ◌≤◌, ◌+◌, ◌-◌, ◌*◌, ◌<◌, String, ◌≡◌, refl, ◌∙◌, arith, true, false, Option,
  none, some, List, [], ◌∷◌, leb, present, Bool-cases, inl, inr,
}
use comm_care.QueueStrategy.{QueueMember}
use comm_care.Entities.{Queue, QueueCall}
use comm_care.World.{History, Environment, World, M, pure, skip, ◌>>◌, do_action, write_queue}
use comm_care.World.Ensures.{
  Ends, ends, Triple, Triple-pure, Triple-bind, Triple-weaken, Triple-given, Triple-ask,
  Triple-exhausted, Triple-do_action, Ensures-Ends,
}
use comm_care.World.Keeps.{
  IsStable, Keeps-ask, Keeps-then, Keeps-bind, Keeps-modify, Keeps-do_action,
}
use comm_care.QueueWorkflow.Rows.{
  EligibleMember, eligible_among, timeout_queue_call, resolve_eligible_members,
}
use comm_care.QueueWorkflow.Ringing.{
  with_fresh_cycle, ringing_on, save_cursor, ring_chosen, ring_eligible, start_ring_attempt,
}
use comm_care.QueueWorkflow.Lifecycle.{is_quiet}
use comm_care.QueueWorkflow.Quiet.{log_event-Keeps, ring_members-Keeps}

-- Once `n` requests have been made in all, the clock has reached `limit`. In between it can stand still
-- or step back.
abbrev pub ReachesBy : Environment → ℕ → ℕ → Type 0
ReachesBy env n limit = (h : History) → n ≤ length h → limit ≤ env.clock h

-- When a call has waited too long.
abbrev pub deadline : Queue → QueueCall → ℕ
deadline queue q = q.entered_at + queue.max_wait_time_seconds * 1000

module _ (env : Environment) where
  -- Fewer than `n` requests are missing to `total`.
  abbrev Left : ℕ → ℕ → History → Type 0
  Left total n h = total - length h < n

  Left-stable : (total n : ℕ) → IsStable is_quiet (Left total n)
  Left-stable total n e h q p = omega arith

  abbrev Anything : History → Type 0
  Anything h = Unit {0}

  timeout-ends :
      (q : QueueCall) (reason : String) {P : History → Type 0}
      → Triple ends P (timeout_queue_call env q reason) (λ _. Anything)
  unfolding timeout_queue_call
  timeout-ends q reason =
      Triple-weaken {P' = Anything}
        (Keeps-then _ _ (Keeps-modify _ (λ w. refl)) (
          Keeps-bind _ _ (Keeps-ask env _) (λ now.
            Keeps-then _ _ (Keeps-do_action (λ e. true) (λ e h p u. tt) (λ h u. tt) env _ refl refl)
              (Keeps-then _ _ (log_event-Keeps (λ e h p u. tt) (λ h u. tt) env _ _ _)
                (Keeps-do_action (λ e. true) (λ e h p u. tt) (λ h u. tt) env _ refl refl)))))
        (λ h p. tt) (λ a h p. tt)

  -- The attempt that follows ends, given the fuel that is left by then.
  abbrev GoesOn : (total limit f : ℕ) → (Queue → QueueCall → M (Unit {0})) → Type 0
  GoesOn total limit f again =
      (queue : Queue) (q : QueueCall)
      → deadline queue q ≡ limit
      → Triple ends (Left total f) (again queue q) (λ _. Anything)

  after_ringing-ends :
      (total limit f : ℕ) (again : Queue → QueueCall → M (Unit {0})) (queue : Queue) (q : QueueCall)
      (ms : List QueueMember) (channels : List String)
      → GoesOn total limit f again
      → deadline queue q ≡ limit
      → Triple ends
          (Left total f)
          (elim channels [ [] ↦ again queue (ringing_on q ms []) | c ∷ cs ↦ skip ])
          (λ _. Anything)
  after_ringing-ends total limit f again queue q ms [] k d = k queue (ringing_on q ms []) d
  after_ringing-ends total limit f again queue q ms (c ∷ cs) k d = Triple-pure tt (λ h p. tt)

  -- Saving the cursor leaves the queue's longest wait as it is.
  save_cursor-same :
      (total n : ℕ) (queue : Queue) (cursor : Option String)
      → Triple ends
          (Left total n)
          (save_cursor env queue cursor)
          (λ saved h. Left total n h × (saved.max_wait_time_seconds ≡ queue.max_wait_time_seconds))
  unfolding save_cursor
  save_cursor-same total n queue cursor = by_cursor (present cursor)
    where
      by_cursor :
          (o : Option String)
          → Triple ends
              (Left total n)
              (elim o [
                | none ↦ pure queue
                | some id ↦
                    do_action env
                      (write_queue (record queue { round_robin_cursor_member_id = some id }))
                    >> pure (record queue { round_robin_cursor_member_id = some id })
              ])
              (λ saved h.
                Left total n h × (saved.max_wait_time_seconds ≡ queue.max_wait_time_seconds))
      by_cursor none = Triple-pure queue (λ h p. (p, refl))
      by_cursor (some id) =
          Triple-bind _ _
            (Keeps-do_action is_quiet (Left-stable total n) (λ h p. tt) env _ refl refl)
            (λ _. Triple-pure _ (λ h p. (p, refl)))

  ring_chosen-ends :
      (total limit f : ℕ) (again : Queue → QueueCall → M (Unit {0})) (queue : Queue) (q : QueueCall)
      (es : List EligibleMember) (ms : List QueueMember) (cursor : Option String)
      → GoesOn total limit f again
      → deadline queue q ≡ limit
      → 0 < f
      → Triple ends
          (Left total (suc f))
          (ring_chosen env again queue q es
            (record { members_to_ring = ms; next_cursor_member_id = cursor }))
          (λ _. Anything)
  unfolding ring_chosen
  ring_chosen-ends total limit f again queue q es [] cursor k d p = timeout-ends q _
  ring_chosen-ends total limit f again queue q es (m ∷ ms) cursor k d p =
      Triple-bind _ _ (save_cursor-same total (suc f) queue cursor) (λ saved.
        Triple-given (λ h g. g.1)
          (λ same.
            Triple-weaken {P' = Left total (suc f)}
              (Triple-bind _ _
                (ring_members-Keeps (Left-stable total (suc f)) (λ h g. tt) env saved q es (m ∷ ms))
                (λ channels.
                  Triple-bind {Q = λ _. Left total f} _ _
                    (Triple-do_action env _ (λ h g. tt) (λ h g. omega arith))
                    (λ _.
                      after_ringing-ends total limit f again saved q (m ∷ ms) channels k
                        (rw same d))))
              (λ h g. g.0) (λ a h g. g)))

  with_fresh_cycle-deadline :
      (queue : Queue) (es : List EligibleMember) (q : QueueCall)
      → deadline queue (with_fresh_cycle es q) ≡ deadline queue q
  with_fresh_cycle-deadline queue es q = ground arith

  ring_eligible-ends :
      (total limit f : ℕ) (again : Queue → QueueCall → M (Unit {0})) (queue : Queue) (q : QueueCall)
      (es : List EligibleMember)
      → GoesOn total limit f again
      → deadline queue q ≡ limit
      → 0 < f
      → Triple ends (Left total (suc f)) (ring_eligible env again queue q es) (λ _. Anything)
  unfolding ring_eligible
  ring_eligible-ends total limit f again queue q [] k d p = timeout-ends q _
  ring_eligible-ends total limit f again queue q (e ∷ es) k d p =
      Triple-bind _ _ (Keeps-ask env _) (λ aggregates. Triple-bind _ _ (Keeps-ask env _) (λ random.
        ring_chosen-ends total limit f again queue (with_fresh_cycle (e ∷ es) q) (e ∷ es) _ _ k
          (with_fresh_cycle-deadline queue (e ∷ es) q ∙ d) p))

  start_ring_attempt-ends :
      (total limit : ℕ)
      → ReachesBy env total limit
      → (fuel : ℕ) (queue : Queue) (q : QueueCall) → deadline queue q ≡ limit
      → Triple ends (Left total fuel) (start_ring_attempt env fuel queue q) (λ _. Anything)
  unfolding start_ring_attempt resolve_eligible_members
  start_ring_attempt-ends total limit past zero queue q d =
      Triple-exhausted (λ h p. absurd (omega arith))
  start_ring_attempt-ends total limit past (suc f) queue q d =
      Triple-bind _ _ (Triple-ask env env.clock) (λ now.
        elim (Bool-cases (leb (deadline queue q) now)) [
          | inl late ↦ rw late (timeout-ends q _)
          | inr soon ↦ rw soon (
              Triple-given (λ h g. fuel_left h now g.0 g.1 soon)
                (λ p.
                  Triple-weaken {P' = Left total (suc f)}
                    (Triple-bind _ _
                      (Keeps-ask env
                        (λ h. eligible_among env h queue (env.members_by_queue h queue.id)))
                      (λ es.
                        ring_eligible-ends total limit f (start_ring_attempt env f) queue q es
                          (λ queue' q' d'. start_ring_attempt-ends total limit past f queue' q' d')
                          d p))
                    (λ h g. g.0) (λ a h g. g)))
        ])
    where
      fuel_left :
          (h : History) (now : ℕ)
          → Left total (suc f) h
          → env.clock h ≡ now
          → leb (deadline queue q) now ≡ false
          → 0 < f
      fuel_left h now left e soon = elim (Bool-cases (leb total (length h))) [
        | inr before ↦ ground arith
        | inl over ↦ let late : limit ≤ env.clock h = past h (ground arith) in absurd (ground arith)
      ]

-- If the clock has reached the call's longest wait once `n` requests have been made in all, then a ring
-- attempt with more fuel than the requests that are missing to `n` never runs out of fuel: it returns or
-- throws, however often nobody can be rung. Until then the clock can stand still from request to request,
-- or step back.
pub start_ring_attempt-Ends :
    (env : Environment) (n : ℕ) (fuel : ℕ) (queue : Queue) (q : QueueCall) (w : World)
    → ReachesBy env n (deadline queue q)
    → n - length w.history < fuel
    → Ends (start_ring_attempt env fuel queue q w)
start_ring_attempt-Ends env n fuel queue q w past h =
    Ensures-Ends _ (start_ring_attempt env fuel queue q w)
      ((start_ring_attempt-ends env n (deadline queue q) past fuel queue q refl).at w h)
