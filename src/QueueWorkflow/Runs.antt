-- ===== src/QueueWorkflow/Runs.antt =====
-- The queue workflow over any sequence of events.
use comm_care.Prelude.{
  ℕ, String, ◌≡◌, sym, subst, true, Option, none, some, List, [], ◌∷◌, is_some, ◌==◌, eq_iff,
  Bool-cases, inl, inr,
}
use comm_care.Ari.{RawAriEventBody}
use comm_care.Entities.{QueueCall}
use comm_care.World.{did, failed, write_queue_call, History, Environment, World}
use comm_care.World.Ensures.{world_of, Ensures-world_of}
use comm_care.QueueWorkflow.Handlers.{handle_event}
use comm_care.QueueWorkflow.Lifecycle.{IsStep, IsStore, latest, IsLegal}
use comm_care.QueueWorkflow.Attempts.{Extends, here, later, IsGood}
use comm_care.QueueWorkflow.Safety.{handle_event-Safe}

-- The world after one event more; what a handler did before it threw stays done.
unfoldable pub step : Environment → ℕ → World → RawAriEventBody → World
step env fuel w event = world_of (handle_event env fuel event w)

unfoldable pub run : Environment → ℕ → World → List RawAriEventBody → World
run env fuel w [] = w
run env fuel w (event ∷ events) = run env fuel (step env fuel w event) events

Extends-trans : {a b c : History} → Extends a b → Extends b c → Extends a c
Extends-trans x here = x
Extends-trans x (later e y) = later e (Extends-trans x y)

module _ (env : Environment) (store : IsStore env) (fuel : ℕ) where
  step-IsGood :
      (w : World) (event : RawAriEventBody)
      → IsLegal w.history
      → IsGood env w.history (step env fuel w event).history
  unfolding step
  step-IsGood w event l = Ensures-world_of (IsGood env w.history) (handle_event env fuel event w) (
      (handle_event-Safe env store w.history fuel event).at w
        (record { legal = l; extends = here }))

  pub run-IsGood :
      (w : World) (events : List RawAriEventBody)
      → IsLegal w.history
      → IsGood env w.history (run env fuel w events).history
  unfolding run
  run-IsGood w [] l = record { legal = l; extends = here }
  run-IsGood w (event ∷ events) l =
      let first = step-IsGood w event l in
      let rest = run-IsGood (step env fuel w event) events first.legal in
      record { legal = rest.legal; extends = Extends-trans first.extends rest.extends }

-- From a legal history, whatever events arrive and whichever requests fail, every row of a queue call
-- that is ever written starts a call as waiting, timed out or full, or follows the row written before
-- it: along the moves waiting, ringing, bridged, completed, with a timeout or an abandoned call from
-- the first two; with the same caller, queue and time of entry; never after the call's end; and with the end,
-- the bridge and the agent set exactly in the statuses that have them.
pub run-IsLegal :
    (env : Environment)
    → IsStore env
    → (fuel : ℕ) (w : World) (events : List RawAriEventBody) → IsLegal w.history
    → IsLegal (run env fuel w events).history
run-IsLegal env store fuel w events l = (run-IsGood env store fuel w events l).legal

ended_not_followed :
    (o : Option QueueCall) (q r : QueueCall)
    → o ≡ some q
    → is_some q.ended_at ≡ true
    → IsStep o r
    → ⊥
ended_not_followed none q r e over s = cc
ended_not_followed (some p) q r e over s =
    let same : p ≡ q = cc in
    let going_on : p.ended_at ≡ none = s.going_on in
    let over' : is_some p.ended_at ≡ true = rw same over in
    let absurd_test : is_some {A = ℕ} none ≡ true = rw going_on at over' in cc

is_end_row-kept :
    (id : String) (q : QueueCall) (start h : History)
    → latest id start ≡ some q
    → is_some q.ended_at ≡ true
    → IsLegal h
    → Extends start h
    → latest id h ≡ some q
unfolding latest
is_end_row-kept id q start _ row over l here = row
is_end_row-kept id q start _ row over l (later {h} (did (write_queue_call r)) x) =
    elim (Bool-cases (r.id == id)) [
      | inr e ↦ rw e (is_end_row-kept id q start h row over l.1 x)
      | inl e ↦
          let before = is_end_row-kept id q start h row over l.1 x in
          let same : r.id ≡ id = (eq_iff r.id id).0 e in
          absurd (
            ended_not_followed (latest r.id h) q r
              (subst (λ i. latest i h ≡ some q) (sym same) before) over l.0)
    ]
is_end_row-kept id q start _ row over l (later {h} (did _) x) =
    is_end_row-kept id q start h row over l x
is_end_row-kept id q start _ row over l (later {h} (failed a) x) =
    is_end_row-kept id q start h row over l x

-- Once a queue call has ended, its last row stays its last row, whatever events arrive later.
pub run-keeps_ended :
    (env : Environment)
    → IsStore env
    → (fuel : ℕ) (w : World) (events : List RawAriEventBody) (id : String) (q : QueueCall)
    → IsLegal w.history
    → latest id w.history ≡ some q
    → is_some q.ended_at ≡ true
    → latest id (run env fuel w events).history ≡ some q
run-keeps_ended env store fuel w events id q l row over =
    let g = run-IsGood env store fuel w events l in
    is_end_row-kept id q w.history _ row over g.legal g.extends
