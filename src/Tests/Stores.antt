-- ===== src/Tests/Stores.antt =====
-- The small installation meets what the theorems rely on.
use comm_care.Prelude.{
  ◌+◌, ◌<◌, String, ◌≡◌, refl, sym, ap, subst, ◌∙◌, arith, Option, none, some, [], ◌∷◌, ◌==◌,
  eq_iff, Bool-cases, Option-cases, inl, inr, is_some,
}
use Prim.Native.String.{count, ◌++◌}
use text.Mathlib.TextLemmas.{length-append}
use comm_care.Entities.{QueueCall, Call}
use comm_care.World.{did, failed, write_queue_call, History}
use comm_care.QueueWorkflow.Lifecycle.{latest, IsStore}
use comm_care.Click2Call.Once.{latest_call, latest_call-id, IsCallStore}
use comm_care.Click2Call.Monotone.{not_set}
use comm_care.Tests.Bench.{bench, new_id, on_channel, unless_ended}

new_id-longer :
    (id : String) (h : History) (q : QueueCall) → latest id h ≡ some q → count id < count (new_id h)
unfolding latest new_id
new_id-longer id [] q e = cc
new_id-longer id (did (write_queue_call r) ∷ h) q e =
    let long : count ("n" ++ (r.id ++ new_id h)) ≡ 1 + (count r.id + count (new_id h)) =
      length-append "n" (r.id ++ new_id h) ∙ ap (λ k. 1 + k) (length-append r.id (new_id h)) in
    elim (Bool-cases (r.id == id)) [
      | inl same ↦
          let named : count r.id ≡ count id = ap count ((eq_iff r.id id).0 same) in omega arith
      | inr other ↦
          let before : count id < count (new_id h) = new_id-longer id h q (ground arith) in
          omega arith
    ]
new_id-longer id (did _ ∷ h) q e = new_id-longer id h q e
new_id-longer id (failed a ∷ h) q e = new_id-longer id h q e

pub bench-IsStore : IsStore bench
bench-IsStore = record { reads_last_write = λ h id. refl; fresh_ids = fresh }
  where
    fresh : (h : History) → latest (new_id h) h ≡ none
    fresh h = elim (Option-cases (latest (new_id h) h)) [
      | inl e ↦ e
      | inr found ↦ absurd (omega (arith, new_id-longer (new_id h) h found.0 found.1))
    ]

on_channel-row :
    (o : Option Call) (channel : String) (c : Call) → on_channel o channel ≡ some c → o ≡ some c
on_channel-row none channel c e = e
on_channel-row (some d) channel c e = ground arith

unless_ended-row :
    (o : Option Call) (c : Call) → unless_ended o ≡ some c → (o ≡ some c) × (c.ended_at ≡ none)
unless_ended-row none c e = cc
unless_ended-row (some d) c e = elim (Bool-cases (is_some d.ended_at)) [
  | inr going_on ↦
      let same : some d ≡ some c = rw going_on at e in
      let row : d ≡ c = cc in
      (same, subst (λ x. x.ended_at ≡ none) row (not_set d.ended_at going_on))
  | inl over ↦ let nothing : none ≡ some c = rw over at e in absurd (none-some nothing)
]
  where
    none-some : {x : Call} → none ≡ some x → ⊥
    none-some n = cc

by_its_id : (h : History) (c : Call) → latest_call "c2c" h ≡ some c → latest_call c.id h ≡ some c
by_its_id h c e = subst (λ i. latest_call i h ≡ some c) (sym (latest_call-id "c2c" h e)) e

pub bench-IsCallStore : IsCallStore bench
bench-IsCallStore = record {
  by_id = λ h id. refl;
  by_channel = λ h channel c e. by_its_id h c (on_channel-row (latest_call "c2c" h) channel c e);
  active = λ h channel c e.
      let open_row = unless_ended-row (on_channel (latest_call "c2c" h) channel) c e in
      (by_its_id h c (on_channel-row (latest_call "c2c" h) channel c open_row.0), open_row.1);
}
