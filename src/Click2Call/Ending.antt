-- ===== src/Click2Call/Ending.antt =====
-- The first leg to go ends the call: with the status of its hangup cause, and with the other leg hung up.
use comm_care.Prelude.{
  ℕ, String, ◌≡◌, refl, sym, ap, subst, ◌∙◌, Bool, true, false, ◌||◌, Option, none, some, ◌∷◌,
  if◌then◌else◌, is_some, present, holds_text, eq_refl, inl, inr,
}
use comm_care.Ari.{RawAriEventBody}
use comm_care.Hangup.{CallLegStatus, CallStatus, resolve_call_end_status}
use comm_care.CallLegs.{finalize_leg_end, save_leg, append_ari_event}
use comm_care.Entities.{Call, WebhookTrigger}
use comm_care.World.{
  Action, did, write_call, hangup_channel, History, Environment, World, ◌>>=◌, do_action, ask,
}
use comm_care.World.Ensures.{
  Failing, Ensures, Triple, Triple-pure, Triple-bind, Triple-weaken, Triple-ask, Triple-given,
  Triple-attempt, Triple-do_action,
}
use comm_care.World.Keeps.{
  Keeps, Keeps-pure, Keeps-ask, Keeps-bind, Keeps-then, Keeps-elim, Keeps-do_action, Triple-if,
  Triple-elim,
}
use comm_care.World.Served.{WasAsked, unless_thrown}
use comm_care.Click2Call.Rows.{
  WebhookExtra, ended_call, parse_ari_event_time, record_event_at, update_call,
  emit_click2call_webhook,
}
use comm_care.Click2Call.Handlers.{
  was_answered, end_context, hang_up_peer, end_call, leg_destroyed, handle_channel_destroyed,
}
use comm_care.Click2Call.Once.{latest_call}

-- Without fuel, a handler returns or throws.
abbrev pub Returns : Failing
Returns = unless_thrown (λ h. ⊥)

abbrev Anything : History → Type 0
Anything h = Unit {0}

-- The hangup of the other leg is asked for, if there is one and the legs were not bridged.
abbrev pub PeerAsked : Option String → Bool → History → Type 0
PeerAsked other was_bridged h =
    (channel : String)
    → present other ≡ some channel
    → was_bridged ≡ false
    → WasAsked (hangup_channel channel) h

-- The call's last row is ended, with this status.
pub record HasEnded (c : Call) (status : CallStatus) (h : History) : Type 0 where
  pub end_time : ℕ
  pub row : latest_call c.id h ≡ some (ended_call c status end_time)

abbrev pub peer_of : Call → Bool → Option String
peer_of c is_caller_leg = if is_caller_leg then c.callee_channel_id else c.caller_channel_id

last_row :
    (c : Call) (status : CallStatus) (t : ℕ) (h : History)
    → latest_call c.id (did (write_call (ended_call c status t)) ∷ h) ≡ some (ended_call c status t)
unfolding latest_call ended_call
last_row c status t h = rw (eq_refl c.id) refl

module _ (env : Environment) where
  Anything-Keeps : (a : Action) → Keeps Returns Anything (do_action env a)
  Anything-Keeps a = Keeps-do_action (λ e. true) (λ e h p x. tt) (λ h p. tt) env a refl refl

  hang_up_peer-asks :
      (other : Option String) (was_bridged : Bool)
      → Triple Returns Anything
          (hang_up_peer env other was_bridged)
          (λ _. PeerAsked other was_bridged)
  unfolding hang_up_peer
  hang_up_peer-asks other was_bridged =
      Triple-elim (present other) _ _
        (λ e. Triple-pure tt (λ h p channel on b. absurd (none-some e on)))
        (λ peer e.
          Triple-if was_bridged _ _
            (λ bridged. Triple-pure tt (λ h p channel on b. absurd (true-false bridged b)))
            (λ apart.
              Triple-weaken
                (Triple-bind _ _
                  (Triple-attempt {Q = WasAsked (hangup_channel peer)} (
                    Triple-do_action env (hangup_channel peer) (λ h p. inl refl) (λ h p. inl refl)))
                  (λ _. Triple-pure tt (λ h p. p)))
                (λ h p. p)
                (λ a h asked channel on b.
                  subst (λ c. WasAsked (hangup_channel c) h) (same_peer e on) asked)))
    where
      none-some : {o : Option String} {s : String} → o ≡ none → o ≡ some s → ⊥
      none-some a b = cc

      true-false : {b : Bool} → b ≡ true → b ≡ false → ⊥
      true-false a b = cc

      same_peer : {o : Option String} {s t : String} → o ≡ some s → o ≡ some t → s ≡ t
      same_peer a b = cc

  emit_click2call_webhook-Returns :
      (c : Call) (trigger : WebhookTrigger) (extra : WebhookExtra)
      → Keeps Returns Anything (emit_click2call_webhook env c trigger extra)
  unfolding emit_click2call_webhook
  emit_click2call_webhook-Returns c trigger extra =
      Keeps-elim (present c.tenant_id) _ _ (Keeps-pure tt)
        (λ tenant. Keeps-bind _ _ (Keeps-ask env _) (λ now. Anything-Keeps _))

  end_call-ends :
      (event : RawAriEventBody) (channel : String) (c : Call) (is_caller answered : Bool) (t : ℕ)
      → Triple Returns Anything (end_call env event channel c is_caller answered t) (λ _ h.
        HasEnded c (resolve_call_end_status (end_context c channel answered event.cause)) h
        × PeerAsked (peer_of c is_caller) (is_some (present c.bridge_id)) h)
  unfolding end_call update_call
  end_call-ends event channel c is_caller answered t =
      Triple-bind _ _ (emit_click2call_webhook-Returns c _ _) (λ _.
        Triple-bind _ _ (hang_up_peer-asks _ _) (λ _.
          Triple-do_action env _ (λ h p. tt)
            (λ h p. (
              record { end_time = t; row = last_row c _ t h },
              λ peer on apart. inr (p peer on apart),
            ))))

  finalize_leg_end-Returns :
      (channel : String) (s : CallLegStatus) (t : ℕ) (cause : Option ℕ) (text : Option String)
      → Keeps Returns Anything (finalize_leg_end env channel s t cause text)
  unfolding finalize_leg_end save_leg
  finalize_leg_end-Returns channel s t cause text = Keeps-bind _ _ (Keeps-ask env _) (λ found.
      Keeps-elim found _ _ (Keeps-pure none) (λ leg.
        Keeps-bind _ _ (Keeps-then _ _ (Anything-Keeps _) (Keeps-pure _))
          (λ saved. Keeps-pure (some saved))))

  leg_destroyed-ends :
      (event : RawAriEventBody) (channel : String) (c : Call) (is_caller : Bool) (h₀ : History)
      → is_some c.ended_at ≡ false
      → Triple Returns
          (λ h. h ≡ h₀)
          (leg_destroyed env event channel c is_caller)
          (λ _ h.
            HasEnded c
              (resolve_call_end_status (
                end_context c channel (was_answered (env.leg_by_unique_id h₀ channel)) event.cause))
              h
            × PeerAsked (peer_of c is_caller) (is_some (present c.bridge_id)) h)
  unfolding leg_destroyed parse_ari_event_time record_event_at append_ari_event
  leg_destroyed-ends event channel c is_caller h₀ going_on =
      Triple-bind _ _
        (Keeps-bind {P = λ h. h ≡ h₀} _ _ (Keeps-ask env _)
          (λ now. Keeps-elim (present event.timestamp) _ _ (Keeps-pure _) (λ t. Keeps-pure _)))
        (λ t. Triple-bind _ _ (Triple-ask env (λ h. env.leg_by_unique_id h channel)) (λ existing.
          Triple-given (λ h p. sym p.1 ∙ ap (λ k. env.leg_by_unique_id k channel) p.0)
            (λ same.
              Triple-weaken {P' = Anything}
                (Triple-bind _ _ (finalize_leg_end-Returns channel _ t _ _) (λ leg.
                  Triple-bind _ _ (Anything-Keeps _) (λ _.
                    Triple-if (is_some c.ended_at) _ _ (λ over. absurd (true-false over going_on))
                      (λ _. end_call-ends event channel c is_caller (was_answered existing) t))))
                (λ h p. tt)
                (λ a h p.
                  subst
                    (λ o.
                      HasEnded c
                        (resolve_call_end_status
                          (end_context c channel (was_answered o) event.cause))
                        h
                      × PeerAsked (peer_of c is_caller) (is_some (present c.bridge_id)) h)
                    same p))))
    where
      true-false : {b : Bool} → b ≡ true → b ≡ false → ⊥
      true-false a b = cc

-- The first channel of a call to be destroyed ends the call, unless the handler throws: the call's
-- last row has an end and the status that `resolve_call_end_status` gives for the cause, for the leg that
-- went, for whether it had been answered and for whether the legs were bridged; and if they were not, the
-- hangup of the other leg's channel was asked for, where there is one.
pub first_leg-ends_call :
    (env : Environment) (w : World) (event : RawAriEventBody) (channel : String) (c : Call)
    → present event.channel_id ≡ some channel
    → env.click2call_by_channel w.history channel ≡ some c
    → (holds_text c.caller_channel_id channel || holds_text c.callee_channel_id channel) ≡ true
    → is_some c.ended_at ≡ false
    → Ensures Returns
        (λ _ h.
          HasEnded c
            (resolve_call_end_status (
              end_context c channel
                (was_answered (env.leg_by_unique_id w.history channel))
                event.cause))
            h
          × PeerAsked
              (peer_of c (holds_text c.caller_channel_id channel))
              (is_some (present c.bridge_id))
              h)
        (handle_channel_destroyed env event w)
unfolding handle_channel_destroyed ask ◌>>=◌
first_leg-ends_call env w event channel c on found listed going_on =
    rw (handle_channel_destroyed, on, found, listed)
      ((leg_destroyed-ends env event channel c _ w.history going_on).at w refl)
