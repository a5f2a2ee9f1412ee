-- ===== src/QueueWorkflow/Attempts.antt =====
-- A ring attempt keeps the life of its queue call legal: what `startRingAttempt` and `timeoutQueueCall` write.
use comm_care.Prelude.{
  ℕ, zero, suc, ◌+◌, ◌*◌, leb, String, ◌≡◌, refl, ◌∙◌, arith, true, Option, some, List, [], ◌∷◌,
  if◌then◌else◌, includes, every, Bool-cases, inl, inr,
}
use comm_care.QueueStrategy.{QueueMember}
use comm_care.Entities.{Queue, QueueCall, ringing}
use comm_care.World.{Entry, did, failed, History, Environment, M, skip, do_action, write_queue_call}
use comm_care.World.Ensures.{
  always, Triple, Triple-pure, Triple-exhausted, Triple-bind, Triple-weaken, Triple-do_action,
}
use comm_care.World.Keeps.{IsStable, MayThrow, Keeps-ask, Keeps-modify, Keeps-do_action}
use comm_care.QueueWorkflow.Rows.{
  EligibleMember, timed_out_at, timeout_queue_call, eligible_among, resolve_eligible_members,
}
use comm_care.QueueWorkflow.Ringing.{
  with_fresh_cycle, ringing_on, ring_chosen, ring_eligible, start_ring_attempt,
}
use comm_care.QueueWorkflow.Lifecycle.{
  IsWellFormed, Follows, may_follow, latest, IsLegal, is_quiet, IsLegal-quiet, latest-quiet,
  latest-IsWellFormed, latest-write,
}
use comm_care.QueueWorkflow.Quiet.{log_event-Keeps, ring_members-Keeps, save_cursor-Keeps}

-- `h` is `h₀` with later entries.
pub data Extends (start : History) : History → Type 0 where
  here : Extends start start
  later : {h : History} (e : Entry) → Extends start h → Extends start (e ∷ h)

-- A call that a ring attempt can go on with: it waits or rings, and no channel rings.
pub record IsRingable (p : QueueCall) : Type 0 where
  pub status : may_follow p.status ringing ≡ true
  pub idle : p.ringing_channel_ids ≡ []

ringing_on-Follows :
    (p : QueueCall) (order : List String) (ms : List QueueMember) (channels : List String)
    → IsRingable p
    → IsWellFormed p
    → Follows p (ringing_on (record p { attempt_order = order }) ms channels)
ringing_on-Follows p order ms channels r v = record {
  going_on = ground arith;
  status = r.status;
  tenant = refl;
  queue = refl;
  caller = refl;
  number = refl;
  entered = refl;
  form = record {
    ended = ground arith;
    bridge = ground arith;
    agent = ground arith;
    bridged_since = ground arith;
    channels = λ e. cc;
  };
}

timed_out_at-Follows :
    (p : QueueCall) (order : List String) (now : ℕ)
    → IsRingable p
    → IsWellFormed p
    → Follows p (timed_out_at (record p { attempt_order = order }) now)
timed_out_at-Follows p order now r v = record {
  going_on = ground arith;
  status = ground arith;
  tenant = refl;
  queue = refl;
  caller = refl;
  number = refl;
  entered = refl;
  form = record {
    ended = refl;
    bridge = ground arith;
    agent = ground arith;
    bridged_since = ground arith;
    channels = λ e. r.idle;
  };
}

module _ (env : Environment) (start : History) where
  -- The history is legal and goes on from where the run began; and `p` is the last row of its call.
  pub record IsGood (h : History) : Type 0 where
    pub legal : IsLegal h
    pub extends : Extends start h

  pub record IsAt (p : QueueCall) (h : History) : Type 0 where
    pub good : IsGood h
    pub row : latest p.id h ≡ some p

  pub IsGood-stable : IsStable is_quiet IsGood
  IsGood-stable e h q g = record {
    legal = IsLegal-quiet e h q g.legal;
    extends = later e g.extends;
  }

  pub IsAt-stable : (p : QueueCall) → IsStable is_quiet (IsAt p)
  IsAt-stable p e h q g = record {
    good = IsGood-stable e h q g.good;
    row = latest-quiet p.id e h q ∙ g.row;
  }

  pub IsAt-fails : (p : QueueCall) → MayThrow (always IsGood) (IsAt p)
  IsAt-fails p h g = g.good

  pub forget_row :
      {A : Type 0} {p : QueueCall} {m : M A}
      → Triple (always IsGood) IsGood m (λ _. IsGood)
      → Triple (always IsGood) (IsAt p) m (λ _. IsGood)
  forget_row t = Triple-weaken t (λ h g. g.good) (λ a h g. g)

  -- Writing a row that follows the last one.
  pub write-Triple :
      (p q : QueueCall)
      → q.id ≡ p.id
      → (IsWellFormed p → Follows p q)
      → Triple (always IsGood) (IsAt p) (do_action env (write_queue_call q)) (λ _. IsAt q)
  write-Triple p q same follows =
      Triple-do_action env (write_queue_call q)
        (λ h g. IsGood-stable (failed (write_queue_call q)) h refl g.good)
        (λ h g.
          let found : latest q.id h ≡ some p = rw same g.row in
          record {
            good = record {
              legal = (
                rw found (follows (latest-IsWellFormed p.id h g.good.legal g.row)),
                g.good.legal,
              );
              extends = later (did (write_queue_call q)) g.good.extends;
            };
            row = latest-write h q;
          })

  pub timeout_queue_call-Triple :
      (p : QueueCall) (order : List String) (reason : String)
      → IsRingable p
      → Triple
          (always IsGood)
          (IsAt p)
          (timeout_queue_call env (record p { attempt_order = order }) reason)
          (λ _. IsGood)
  unfolding timeout_queue_call
  timeout_queue_call-Triple p order reason r = Triple-bind _ _ ((Keeps-modify _ (λ w. refl))) (λ _.
      Triple-bind _ _ ((Keeps-ask env _)) (λ now.
        Triple-bind _ _ (write-Triple p _ refl (timed_out_at-Follows p order now r)) (λ _.
          forget_row (
            Triple-bind _ _ (log_event-Keeps IsGood-stable (λ h g. g) env _ _ _)
              (λ _. Keeps-do_action is_quiet IsGood-stable (λ h g. g) env _ refl refl)))))

  abbrev Continues : (Queue → QueueCall → M (Unit {0})) → Type 0
  Continues again =
      (queue : Queue) (q : QueueCall)
      → IsRingable q
      → Triple (always IsGood) (IsAt q) (again queue q) (λ _. IsGood)

  after_ringing :
      (again : Queue → QueueCall → M (Unit {0})) (queue : Queue) (q : QueueCall)
      (ms : List QueueMember) (channels : List String)
      → Continues again
      → Triple
          (always IsGood)
          (IsAt (ringing_on q ms channels))
          (elim channels [ [] ↦ again queue (ringing_on q ms []) | c ∷ cs ↦ skip ])
          (λ _. IsGood)
  after_ringing again queue q ms [] k =
      k queue (ringing_on q ms []) (record { status = refl; idle = refl })
  after_ringing again queue q ms (c ∷ cs) k = Triple-pure tt (λ h g. g.good)

  ring_chosen-Triple :
      (again : Queue → QueueCall → M (Unit {0})) (queue : Queue) (p : QueueCall)
      (order : List String) (es : List EligibleMember) (ms : List QueueMember)
      (cursor : Option String)
      → Continues again
      → IsRingable p
      → Triple
          (always IsGood)
          (IsAt p)
          (ring_chosen env again queue
            (record p { attempt_order = order })
            es
            (record { members_to_ring = ms; next_cursor_member_id = cursor }))
          (λ _. IsGood)
  unfolding ring_chosen
  ring_chosen-Triple again queue p order es [] cursor k r = timeout_queue_call-Triple p order _ r
  ring_chosen-Triple again queue p order es (m ∷ ms) cursor k r =
      Triple-bind _ _ ((save_cursor-Keeps (IsAt-stable p) (IsAt-fails p) env queue cursor))
        (λ saved.
          Triple-bind _ _
            ((ring_members-Keeps (IsAt-stable p) (IsAt-fails p) env saved _ es (m ∷ ms)))
            (λ channels.
              Triple-bind _ _
                (write-Triple p _ refl (ringing_on-Follows p order (m ∷ ms) channels r))
                (λ _.
                  after_ringing again saved (record p { attempt_order = order }) (m ∷ ms) channels
                    k)))

  abbrev fresh_order : List EligibleMember → QueueCall → List String
  fresh_order es p =
      if every (λ e. includes p.attempt_order e.member.id) es then [] else p.attempt_order

  with_fresh_cycle-order :
      (es : List EligibleMember) (p : QueueCall)
      → with_fresh_cycle es p ≡ record p { attempt_order = fresh_order es p }
  with_fresh_cycle-order es p =
      elim (Bool-cases (every (λ e. includes p.attempt_order e.member.id) es)) [
        | inl e ↦ rw e refl
        | inr e ↦ rw e refl
      ]

  ring_eligible-Triple :
      (again : Queue → QueueCall → M (Unit {0})) (queue : Queue) (p : QueueCall)
      (es : List EligibleMember)
      → Continues again
      → IsRingable p
      → Triple (always IsGood) (IsAt p) (ring_eligible env again queue p es) (λ _. IsGood)
  unfolding ring_eligible
  ring_eligible-Triple again queue p [] k r = timeout_queue_call-Triple p p.attempt_order _ r
  ring_eligible-Triple again queue p (e ∷ es) k r =
      Triple-bind _ _ ((Keeps-ask env _)) (λ aggregates.
        Triple-bind _ _ ((Keeps-ask env _)) (λ random.
          rw (with_fresh_cycle-order (e ∷ es) p)
            (ring_chosen-Triple again queue p _ (e ∷ es) _ _ k r)))

  pub start_ring_attempt-Triple :
      (fuel : ℕ) (queue : Queue) (p : QueueCall)
      → IsRingable p
      → Triple (always IsGood) (IsAt p) (start_ring_attempt env fuel queue p) (λ _. IsGood)
  unfolding start_ring_attempt resolve_eligible_members
  start_ring_attempt-Triple zero queue p r = Triple-exhausted (λ h g. g.good)
  start_ring_attempt-Triple (suc fuel) queue p r = Triple-bind _ _ ((Keeps-ask env _)) (λ now.
      elim (Bool-cases (leb (p.entered_at + queue.max_wait_time_seconds * 1000) now)) [
        | inl late ↦ rw late (timeout_queue_call-Triple p p.attempt_order _ r)
        | inr soon ↦ rw soon (
            Triple-bind _ _
              ((Keeps-ask env (λ h. eligible_among env h queue (env.members_by_queue h queue.id))))
              (λ es.
                ring_eligible-Triple (start_ring_attempt env fuel) queue p es
                  (λ queue' q r'. start_ring_attempt-Triple fuel queue' q r') r))
      ])
