-- ===== src/Click2Call/Events.antt =====
-- What an event does to a click-to-call once its call is found: every row that is written refines the
-- row that was read.
use comm_care.Prelude.{
  ℕ, String, ◌≡◌, refl, inl, arith, Bool, false, not, ◌&&◌, Option, none, some, is_some, present,
  holds_text, ◌==◌, eq_iff,
}
use comm_care.Ari.{RawAriEventBody, Click2CallArgs}
use comm_care.CallLegs.{save_leg, finalize_leg_end, update_leg_status}
use comm_care.Hangup.{CallLegStatus}
use comm_care.Entities.{Call}
use comm_care.World.{Environment}
use comm_care.World.Ensures.{always, Triple-bind}
use comm_care.World.Keeps.{
  Keeps, Keeps-pure, Keeps-ask, Keeps-bind, Keeps-then, Keeps-attempt, Keeps-elim, Triple-if,
}
use comm_care.Click2Call.Rows.{with_caller, with_callee, ended_call, parse_ari_event_time}
use comm_care.Click2Call.Handlers.{
  is_other, join_call, channel_arrived, channel_up, channel_changed, hang_up_peer, end_call,
  leg_destroyed,
}
use comm_care.Click2Call.Once.{IsKept, IsMonotone, IsBehind, IsBehind-spared}
use comm_care.Click2Call.Monotone.{
  Refines-with_caller, Refines-with_callee, Refines-ended_call, IsSafe, IsSafe-skip, IsSafe-refine,
  IsMonotone-of, not_set, quiet_action-Keeps, record_event_at-Keeps, emit_click2call_webhook-Keeps,
  upsert_from_ari_channel-Keeps,
}
use comm_care.Click2Call.Connects.{
  update_call-IsSafe, originate_callee_leg-IsSafe, bridge_click2call_legs-IsSafe,
}

is_other-IsKept : (o : Option String) (c : String) → is_other o c ≡ false → IsKept o (some c)
is_other-IsKept none c e = inl refl
is_other-IsKept (some s) c e = ground (arith, eq_iff s c)

module _ (env : Environment) where
  parse_ari_event_time-Keeps :
      (c : Call) (event : RawAriEventBody)
      → Keeps (always IsMonotone) (IsBehind c) (parse_ari_event_time env event)
  unfolding parse_ari_event_time
  parse_ari_event_time-Keeps c event =
      Keeps-bind _ _ (Keeps-ask env _)
        (λ now. Keeps-elim (present event.timestamp) _ _ (Keeps-pure _) (λ t. Keeps-pure _))

  join_call-IsSafe :
      (c : Call) (parsed : Click2CallArgs) (channel : String) (t : ℕ)
      → IsSafe c (join_call env c parsed channel t)
  unfolding join_call
  join_call-IsSafe c parsed channel t =
      Triple-if (parsed.leg == "agent") _ _
        (λ _.
          Triple-if (is_other c.caller_channel_id channel) _ _ (λ _. IsSafe-skip c)
            (λ e.
              IsSafe-refine c (with_caller c channel t) _ refl
                (Refines-with_caller c channel t (is_other-IsKept c.caller_channel_id channel e))
                (update_call-IsSafe env (with_caller c channel t))))
        (λ _.
          Triple-if (parsed.leg == "callee") _ _
            (λ _.
              Triple-if (is_other c.callee_channel_id channel) _ _ (λ _. IsSafe-skip c)
                (λ e.
                  IsSafe-refine c (with_callee c channel) _ refl
                    (Refines-with_callee c channel (is_other-IsKept c.callee_channel_id channel e))
                    (update_call-IsSafe env (with_callee c channel))))
            (λ _. IsSafe-skip c))

  pub channel_arrived-IsSafe :
      (c : Call) (event : RawAriEventBody) (channel : String) (parsed : Click2CallArgs)
      → IsSafe c (channel_arrived env event channel parsed c)
  unfolding channel_arrived
  channel_arrived-IsSafe c event channel parsed =
      Triple-bind _ _ (parse_ari_event_time-Keeps c event) (λ t.
        Triple-bind _ _ (upsert_from_ari_channel-Keeps env (IsBehind-spared c) (IsMonotone-of c) _)
          (λ leg.
            Triple-bind _ _
              (record_event_at-Keeps env (IsBehind-spared c) (IsMonotone-of c) _ _ _ _)
              (λ _. join_call-IsSafe c parsed channel t)))

  channel_up-IsSafe :
      (c : Call) (channel : String) → c.ended_at ≡ none → IsSafe c (channel_up env channel c)
  unfolding channel_up
  channel_up-IsSafe c channel going_on =
      Triple-if
        (holds_text c.caller_channel_id channel && not (is_some (present c.callee_channel_id))) _ _
        (λ _.
          Triple-bind _ _
            (emit_click2call_webhook-Keeps env (IsBehind-spared c) (IsMonotone-of c) _ _ _)
            (λ _. originate_callee_leg-IsSafe env c going_on))
        (λ _.
          Triple-if (holds_text c.callee_channel_id channel && not (is_some (present c.bridge_id)))
            _ _ (λ _. bridge_click2call_legs-IsSafe env c going_on) (λ _. IsSafe-skip c))

  update_leg_status-Keeps :
      (c : Call) (channel : String) (s : CallLegStatus) (t : Option ℕ)
      → Keeps (always IsMonotone) (IsBehind c) (update_leg_status env channel s t)
  unfolding update_leg_status save_leg
  update_leg_status-Keeps c channel s t = Keeps-bind _ _ (Keeps-ask env _) (λ found.
      Keeps-elim found _ _ (Keeps-pure none) (λ leg.
        Keeps-bind _ _
          (Keeps-then _ _ (quiet_action-Keeps env (IsBehind-spared c) (IsMonotone-of c) _ refl)
            (Keeps-pure _))
          (λ saved. Keeps-pure (some saved))))

  finalize_leg_end-Keeps :
      (c : Call) (channel : String) (s : CallLegStatus) (t : ℕ) (cause : Option ℕ)
      (text : Option String)
      → Keeps (always IsMonotone) (IsBehind c) (finalize_leg_end env channel s t cause text)
  unfolding finalize_leg_end save_leg
  finalize_leg_end-Keeps c channel s t cause text = Keeps-bind _ _ (Keeps-ask env _) (λ found.
      Keeps-elim found _ _ (Keeps-pure none) (λ leg.
        Keeps-bind _ _
          (Keeps-then _ _ (quiet_action-Keeps env (IsBehind-spared c) (IsMonotone-of c) _ refl)
            (Keeps-pure _))
          (λ saved. Keeps-pure (some saved))))

  pub channel_changed-IsSafe :
      (c : Call) (event : RawAriEventBody) (channel state : String)
      → c.ended_at ≡ none
      → IsSafe c (channel_changed env event channel state c)
  unfolding channel_changed
  channel_changed-IsSafe c event channel state going_on =
      Triple-bind _ _ (parse_ari_event_time-Keeps c event) (λ t.
        Triple-bind _ _ (update_leg_status-Keeps c channel _ _) (λ leg.
          Triple-bind _ _ (record_event_at-Keeps env (IsBehind-spared c) (IsMonotone-of c) _ _ _ _)
            (λ _.
              Triple-if (state == "Up") _ _ (λ _. channel_up-IsSafe c channel going_on)
                (λ _. IsSafe-skip c))))

  hang_up_peer-Keeps :
      (c : Call) (other : Option String) (was_bridged : Bool)
      → Keeps (always IsMonotone) (IsBehind c) (hang_up_peer env other was_bridged)
  unfolding hang_up_peer
  hang_up_peer-Keeps c other was_bridged =
      Keeps-elim (present other) _ _ (Keeps-pure tt) (λ channel.
        Triple-if was_bridged _ _ (λ _. Keeps-pure tt)
          (λ _.
            Keeps-then _ _
              (Keeps-attempt _ (quiet_action-Keeps env (IsBehind-spared c) (λ h b. b) _ refl))
              (Keeps-pure tt)))

  end_call-IsSafe :
      (c : Call) (event : RawAriEventBody) (channel : String) (is_caller answered : Bool) (t : ℕ)
      → c.ended_at ≡ none
      → IsSafe c (end_call env event channel c is_caller answered t)
  unfolding end_call ended_call
  end_call-IsSafe c event channel is_caller answered t going_on =
      Triple-bind _ _
        (emit_click2call_webhook-Keeps env (IsBehind-spared c) (IsMonotone-of c) _ _ _)
        (λ _. Triple-bind _ _ (hang_up_peer-Keeps c _ _) (λ _.
          IsSafe-refine c (ended_call c _ t) _ refl (Refines-ended_call c _ t going_on)
            (update_call-IsSafe env (ended_call c _ t))))

  pub leg_destroyed-IsSafe :
      (c : Call) (event : RawAriEventBody) (channel : String) (is_caller : Bool)
      → IsSafe c (leg_destroyed env event channel c is_caller)
  unfolding leg_destroyed
  leg_destroyed-IsSafe c event channel is_caller =
      Triple-bind _ _ (parse_ari_event_time-Keeps c event) (λ t.
        Triple-bind _ _ (Keeps-ask env _) (λ existing.
          Triple-bind _ _ (finalize_leg_end-Keeps c channel _ t _ _) (λ leg.
            Triple-bind _ _
              (record_event_at-Keeps env (IsBehind-spared c) (IsMonotone-of c) _ _ _ _)
              (λ _.
                Triple-if (is_some c.ended_at) _ _ (λ _. IsSafe-skip c)
                  (λ e. end_call-IsSafe c event channel is_caller _ t (not_set c.ended_at e))))))
