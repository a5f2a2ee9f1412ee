-- ===== src/Click2Call/Once.antt =====
-- What a call has once, it has for good: the order on the rows of a call, and the histories whose
-- rows go along it.
use comm_care.Prelude.{
  String, ◌≡◌, refl, ◌⊎◌, inl, inr, arith, Bool, true, false, Option, none, some, [], ◌∷◌,
  if◌then◌else◌, present, ◌==◌, eq_iff, eq_refl, Bool-cases,
}
use comm_care.Entities.{Call}
use comm_care.World.{Entry, did, failed, write_call, History, Environment}

-- A text that is set is the same afterwards.
abbrev pub IsKept : Option String → Option String → Type 0
IsKept a b = (present a ≡ none) ⊎ (b ≡ a)

-- `q` can be written after `p` for the same call: the two channels and the bridge, once set, are
-- the same, and so are the start and, once the call has ended, the time of its end and its duration.
pub record Refines (p q : Call) : Type 0 where
  pub caller : IsKept p.caller_channel_id q.caller_channel_id
  pub callee : IsKept p.callee_channel_id q.callee_channel_id
  pub bridge : IsKept p.bridge_id q.bridge_id
  pub start : (p.started_at ≡ none) ⊎ (q.started_at ≡ p.started_at)
  pub ending : (p.ended_at ≡ none) ⊎ ((q.ended_at ≡ p.ended_at) × (q.duration ≡ p.duration))
  pub parties :
      (q.tenant_id ≡ p.tenant_id)
      × (q.direction ≡ p.direction)
      × (q.caller_number ≡ p.caller_number)
      × (q.call_to_number ≡ p.call_to_number)

-- The row of a call that was written last.
unfoldable pub latest_call : String → History → Option Call
latest_call id [] = none
latest_call id (did (write_call c) ∷ h) = if c.id == id then some c else latest_call id h
latest_call id (e ∷ h) = latest_call id h

abbrev pub RefinesLatest : Option Call → Call → Type 0
RefinesLatest none q = Unit
RefinesLatest (some p) q = Refines p q

-- Every row refines the row of its call before it.
abbrev pub IsMonotone : History → Type 0
IsMonotone [] = Unit
IsMonotone (did (write_call c) ∷ h) = RefinesLatest (latest_call c.id h) c × IsMonotone h
IsMonotone (e ∷ h) = IsMonotone h

-- The queries find rows that were written last, and the query for active calls finds no ended one.
pub record IsCallStore (env : Environment) : Type 0 where
  pub by_id : (h : History) (id : String) → env.call_by_id h id ≡ latest_call id h
  pub by_channel :
      (h : History) (channel : String) (c : Call)
      → env.click2call_by_channel h channel ≡ some c
      → latest_call c.id h ≡ some c
  pub active :
      (h : History) (channel : String) (c : Call)
      → env.active_click2call_by_channel h channel ≡ some c
      → (latest_call c.id h ≡ some c) × (c.ended_at ≡ none)

-- Requests that write no row of a call, and requests that failed.
abbrev pub spares_calls : Entry → Bool
spares_calls (did (write_call c)) = false
spares_calls _ = true

pub latest_call-spared :
    (id : String) (e : Entry) (h : History)
    → spares_calls e ≡ true
    → latest_call id (e ∷ h) ≡ latest_call id h
unfolding latest_call
latest_call-spared id (did (write_call c)) h p = cc
latest_call-spared id (did _) h p = refl
latest_call-spared id (failed a) h p = refl

pub IsMonotone-spared :
    (e : Entry) (h : History) → spares_calls e ≡ true → IsMonotone h → IsMonotone (e ∷ h)
IsMonotone-spared (did (write_call c)) h p l = cc
IsMonotone-spared (did _) h p l = l
IsMonotone-spared (failed a) h p l = l

pub latest_call-id : (id : String) (h : History) {c : Call} → latest_call id h ≡ some c → c.id ≡ id
unfolding latest_call
latest_call-id id [] e = cc
latest_call-id id (did (write_call r) ∷ h) {c} e = elim (Bool-cases (r.id == id)) [
  | inl same ↦ ground (arith, eq_iff r.id id)
  | inr other ↦ latest_call-id id h {c = c} (ground arith)
]
latest_call-id id (did _ ∷ h) e = latest_call-id id h e
latest_call-id id (failed a ∷ h) e = latest_call-id id h e

-- The row before, in the course of an event: the history is monotone, and the last row of the call
-- is the given one.
pub record IsCurrent (c : Call) (h : History) : Type 0 where
  pub monotone : IsMonotone h
  pub row : latest_call c.id h ≡ some c

pub IsCurrent-spared :
    (c : Call) (e : Entry) (h : History)
    → spares_calls e ≡ true
    → IsCurrent c h
    → IsCurrent c (e ∷ h)
IsCurrent-spared c e h p s = record {
  monotone = IsMonotone-spared e h p s.monotone;
  row = rw (latest_call-spared c.id e h p) s.row;
}

-- Some row that `q` refines is current: what holds while the handler does not know which of the
-- rows it wrote was accepted.
pub record IsBehind (q : Call) (h : History) : Type 0 where
  pub before : Call
  pub current : IsCurrent before h
  pub same_id : before.id ≡ q.id
  pub refined : Refines before q

pub IsBehind-spared :
    (q : Call) (e : Entry) (h : History) → spares_calls e ≡ true → IsBehind q h → IsBehind q (e ∷ h)
IsBehind-spared q e h p s = record {
  before = s.before;
  current = IsCurrent-spared s.before e h p s.current;
  same_id = s.same_id;
  refined = s.refined;
}

pub IsCurrent-write : (q : Call) (h : History) → IsBehind q h → IsCurrent q (did (write_call q) ∷ h)
unfolding latest_call
IsCurrent-write q h s =
    let row : latest_call q.id h ≡ some s.before = rw (← s.same_id) s.current.row in
    record { monotone = (rw row s.refined, s.current.monotone); row = rw eq_refl refl }
