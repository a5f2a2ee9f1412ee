-- ===== src/Click2Call/Ended.antt =====
-- A call ends once: the second leg to go changes no call, sends no webhook and hangs nothing up.
use comm_care.Prelude.{
  ℕ, String, ◌≡◌, refl, Bool, true, false, ◌||◌, Option, none, some, ◌∷◌, is_some, present,
  holds_text,
}
use comm_care.Ari.{RawAriEventBody}
use comm_care.CallLegs.{finalize_leg_end, save_leg, append_ari_event}
use comm_care.Hangup.{CallLegStatus}
use comm_care.Entities.{Call}
use comm_care.World.{
  Entry, did, failed, write_call_leg, write_call_event, History, Environment, World, M, ◌>>=◌, ask,
}
use comm_care.World.Ensures.{always, world_of, Ensures-world_of}
use comm_care.World.Keeps.{
  Keeps, IsStable, Keeps-pure, Keeps-ask, Keeps-bind, Keeps-then, Keeps-elim, Keeps-do_action,
  Triple-if,
}
use comm_care.Click2Call.Rows.{parse_ari_event_time, record_event_at}
use comm_care.Click2Call.Handlers.{leg_destroyed, handle_channel_destroyed}

-- Requests that write a leg or a call event.
abbrev is_note : Entry → Bool
is_note (did (write_call_leg l)) = true
is_note (did (write_call_event e)) = true
is_note (failed (write_call_leg l)) = true
is_note (failed (write_call_event e)) = true
is_note _ = false

-- The second history is the first with notes added.
pub data AddsNotes : History → History → Type 0 where
  same : {h : History} → AddsNotes h h
  note : {h k : History} (e : Entry) → is_note e ≡ true → AddsNotes h k → AddsNotes h (e ∷ k)

module _ (env : Environment) (h₀ : History) where
  abbrev Notes : {A : Type 0} → M A → Type 0
  Notes m = Keeps (always (AddsNotes h₀)) (AddsNotes h₀) m

  notes_stable : IsStable is_note (AddsNotes h₀)
  notes_stable e h q p = note e q p

  finalize_leg_end-Notes :
      (channel : String) (s : CallLegStatus) (t : ℕ) (cause : Option ℕ) (text : Option String)
      → Notes (finalize_leg_end env channel s t cause text)
  unfolding finalize_leg_end save_leg
  finalize_leg_end-Notes channel s t cause text = Keeps-bind _ _ (Keeps-ask env _) (λ found.
      Keeps-elim found _ _ (Keeps-pure none) (λ leg.
        Keeps-bind _ _
          (Keeps-then _ _ (Keeps-do_action is_note notes_stable (λ h p. p) env _ refl refl)
            (Keeps-pure _))
          (λ saved. Keeps-pure (some saved))))

  leg_destroyed-Notes :
      (event : RawAriEventBody) (channel : String) (c : Call) (is_caller : Bool)
      → is_some c.ended_at ≡ true
      → Notes (leg_destroyed env event channel c is_caller)
  unfolding leg_destroyed parse_ari_event_time record_event_at append_ari_event
  leg_destroyed-Notes event channel c is_caller over =
      Keeps-bind _ _
        (Keeps-bind _ _ (Keeps-ask env _)
          (λ now. Keeps-elim (present event.timestamp) _ _ (Keeps-pure _) (λ t. Keeps-pure _)))
        (λ t. Keeps-bind _ _ (Keeps-ask env _) (λ existing.
          Keeps-bind _ _ (finalize_leg_end-Notes channel _ t _ _) (λ leg.
            Keeps-then _ _ (Keeps-do_action is_note notes_stable (λ h p. p) env _ refl refl) (
              Triple-if (is_some c.ended_at) _ _ (λ _. Keeps-pure tt)
                (λ going_on. absurd (true-not-false over going_on))))))
    where
      true-not-false : {b : Bool} → b ≡ true → b ≡ false → ⊥
      true-not-false t f = cc

-- A channel of a call that has ended is destroyed: only rows of legs and of call events are written. No
-- row of the call is written, so its end stays as it was; no webhook is sent and no channel is hung up.
pub ended_call-only_noted :
    (env : Environment) (w : World) (event : RawAriEventBody) (channel : String) (c : Call)
    → present event.channel_id ≡ some channel
    → env.click2call_by_channel w.history channel ≡ some c
    → is_some c.ended_at ≡ true
    → AddsNotes w.history (world_of (handle_channel_destroyed env event w)).history
unfolding handle_channel_destroyed ask ◌>>=◌
ended_call-only_noted env w event channel c on found over =
    rw (handle_channel_destroyed, on, found)
      (Ensures-world_of (AddsNotes w.history) _ (
        (Triple-if
            (holds_text c.caller_channel_id channel || holds_text c.callee_channel_id channel) _ _
            (λ _. leg_destroyed-Notes env w.history event channel c _ over) (λ _. Keeps-pure tt)).at
          w same))
