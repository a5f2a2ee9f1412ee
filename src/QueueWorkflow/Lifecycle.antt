-- ===== src/QueueWorkflow/Lifecycle.antt =====
-- The life of a queue call, as the rows that are written of it: which rows are well formed, which row
-- may follow which, and the histories in which every row follows the one before it.
use comm_care.Prelude.{
  String, ◌≡◌, refl, arith, Bool, true, false, Option, none, some, [], ◌∷◌, if◌then◌else◌, is_some,
  ◌==◌, eq_iff, eq_refl, Bool-cases, inl, inr,
}
use comm_care.Entities.{
  QueueCall, QueueCallStatus, waiting, ringing, bridged, completed, abandoned, timed_out, full,
}
use comm_care.World.{Entry, did, failed, History, Environment, write_queue_call}

-- The statuses that end a call, and those of a call that an agent has answered.
abbrev pub is_end : QueueCallStatus → Bool
is_end waiting = false
is_end ringing = false
is_end bridged = false
is_end _ = true

abbrev pub is_answered : QueueCallStatus → Bool
is_answered bridged = true
is_answered completed = true
is_answered _ = false

abbrev pub is_open : QueueCallStatus → Bool
is_open ringing = true
is_open _ = false

pub record IsWellFormed (q : QueueCall) : Type 0 where
  pub ended : is_some q.ended_at ≡ is_end q.status
  pub bridge : is_some q.bridge_id ≡ is_answered q.status
  pub agent : is_some q.answered_agent_id ≡ is_answered q.status
  pub bridged_since : is_some q.bridged_at ≡ is_answered q.status
  pub channels : is_open q.status ≡ false → q.ringing_channel_ids ≡ []

-- A new row waits, or is turned away at once.
abbrev pub may_start : QueueCallStatus → Bool
may_start waiting = true
may_start timed_out = true
may_start full = true
may_start _ = false

abbrev pub may_follow : QueueCallStatus → QueueCallStatus → Bool
may_follow waiting ringing = true
may_follow waiting timed_out = true
may_follow waiting abandoned = true
may_follow ringing ringing = true
may_follow ringing bridged = true
may_follow ringing timed_out = true
may_follow ringing abandoned = true
may_follow bridged completed = true
may_follow _ _ = false

pub record Starts (q : QueueCall) : Type 0 where
  pub status : may_start q.status ≡ true
  pub form : IsWellFormed q

-- A later row of the same call: same caller, same queue, same time of entry; and the one before it
-- had not ended.
pub record Follows (p q : QueueCall) : Type 0 where
  pub going_on : p.ended_at ≡ none
  pub status : may_follow p.status q.status ≡ true
  pub tenant : q.tenant_id ≡ p.tenant_id
  pub queue : q.queue_id ≡ p.queue_id
  pub caller : q.caller_channel_id ≡ p.caller_channel_id
  pub number : q.caller_number ≡ p.caller_number
  pub entered : q.entered_at ≡ p.entered_at
  pub form : IsWellFormed q

-- The row of a call that was written last.
unfoldable pub latest : String → History → Option QueueCall
latest id [] = none
latest id (did (write_queue_call q) ∷ h) = if q.id == id then some q else latest id h
latest id (e ∷ h) = latest id h

abbrev pub IsStep : Option QueueCall → QueueCall → Type 0
IsStep none q = Starts q
IsStep (some p) q = Follows p q

-- Every row starts a call or follows the row of its call that was written before it.
abbrev pub IsLegal : History → Type 0
IsLegal [] = Unit
IsLegal (did (write_queue_call q) ∷ h) = IsStep (latest q.id h) q × IsLegal h
IsLegal (e ∷ h) = IsLegal h

-- The two things that the workflow relies on: a query by id finds the row that was written last, and
-- the database gives a new row an id that no row has.
pub record IsStore (env : Environment) : Type 0 where
  pub reads_last_write : (h : History) (id : String) → env.queue_call_by_id h id ≡ latest id h
  pub fresh_ids : (h : History) → latest (env.new_id h) h ≡ none

-- Requests that write no row of a queue call, and requests that failed.
abbrev pub is_quiet : Entry → Bool
is_quiet (did (write_queue_call q)) = false
is_quiet _ = true

pub latest-quiet :
    (id : String) (e : Entry) (h : History) → is_quiet e ≡ true → latest id (e ∷ h) ≡ latest id h
unfolding latest
latest-quiet id (did (write_queue_call q)) h p = cc
latest-quiet id (did _) h p = refl
latest-quiet id (failed a) h p = refl

pub IsLegal-quiet : (e : Entry) (h : History) → is_quiet e ≡ true → IsLegal h → IsLegal (e ∷ h)
IsLegal-quiet (did (write_queue_call q)) h p l = cc
IsLegal-quiet (did _) h p l = l
IsLegal-quiet (failed a) h p l = l

-- The row that is found has the id that was asked for, and is well formed.
pub latest-id : (id : String) (h : History) {q : QueueCall} → latest id h ≡ some q → q.id ≡ id
unfolding latest
latest-id id [] e = cc
latest-id id (did (write_queue_call r) ∷ h) {q} e = elim (Bool-cases (r.id == id)) [
  | inl same ↦ ground (arith, eq_iff r.id id)
  | inr other ↦ latest-id id h {q = q} (ground arith)
]
latest-id id (did _ ∷ h) e = latest-id id h e
latest-id id (failed a ∷ h) e = latest-id id h e

IsStep-IsWellFormed : (o : Option QueueCall) (q : QueueCall) → IsStep o q → IsWellFormed q
IsStep-IsWellFormed none q s = s.form
IsStep-IsWellFormed (some p) q s = s.form

pub latest-IsWellFormed :
    (id : String) (h : History) {q : QueueCall} → IsLegal h → latest id h ≡ some q → IsWellFormed q
unfolding latest
latest-IsWellFormed id [] l e = cc
latest-IsWellFormed id (did (write_queue_call r) ∷ h) {q} l e = elim (Bool-cases (r.id == id)) [
  | inl same ↦
      let found : r ≡ q = ground arith in rw (← found) (IsStep-IsWellFormed (latest r.id h) r l.0)
  | inr other ↦ latest-IsWellFormed id h {q = q} l.1 (ground arith)
]
latest-IsWellFormed id (did _ ∷ h) l e = latest-IsWellFormed id h l e
latest-IsWellFormed id (failed a ∷ h) l e = latest-IsWellFormed id h l e

pub latest-write :
    (h : History) (q : QueueCall) → latest q.id (did (write_queue_call q) ∷ h) ≡ some q
unfolding latest
latest-write h q = rw eq_refl
