-- ===== src/Click2Call/Connects.antt =====
-- Dialling the callee and bridging the legs write rows that refine one another, whatever fails.
use comm_care.Prelude.{String, ◌≡◌, refl, inl, none, some, is_some, present}
use comm_care.Entities.{Call}
use comm_care.World.{Reply, Environment}
use comm_care.World.Ensures.{Failing, Triple, Triple-bind, Triple-weaken, Triple-attempt}
use comm_care.World.Keeps.{
  Keeps, MayThrow, Keeps-pure, Keeps-ask, Keeps-bind, Keeps-then, Keeps-attempt, Keeps-elim,
  Triple-if, Triple-elim,
}
use comm_care.Click2Call.Rows.{with_callee, failed_at, bridged_at, update_call}
use comm_care.Click2Call.Connecting.{
  is_internal, fail_call, originate_failed, callee_dialled, dial_callee, originate_to,
  originate_callee_leg, build_bridge, legs_bridged, bridge_failed, bridge_legs,
  bridge_click2call_legs,
}
use comm_care.Click2Call.Once.{IsKept, IsMonotone-spared, IsBehind, IsBehind-spared}
use comm_care.Click2Call.Monotone.{
  IsBehind-refine, Refines-with_callee, Refines-failed_at, Refines-bridged_at, update_call-Keeps,
  quiet_action-Keeps, quiet_perform-Keeps, record_event_now-Keeps, emit_click2call_webhook-Keeps,
  upsert_from_ari_channel-Keeps, IsMonotone-of, caught_row, IsSafe-Keeps, IsSafe-skip,
  IsSafe-refine, IsMonotone-fails, not_set, IsSafe,
}

module _ (env : Environment) where
  pub update_call-IsSafe : (c : Call) → IsSafe c (update_call env c)
  update_call-IsSafe c = IsSafe-Keeps c _ (update_call-Keeps env c (IsMonotone-of c))

  fail_call-IsSafe : (c : Call) → c.ended_at ≡ none → IsSafe c (fail_call env c)
  unfolding fail_call
  fail_call-IsSafe c going_on = Triple-bind _ _ (Keeps-ask env _) (λ now.
      IsSafe-refine c (failed_at c now) _ refl (Refines-failed_at c now going_on)
        (update_call-IsSafe (failed_at c now)))

  originate_failed-IsSafe : (c : Call) → c.ended_at ≡ none → IsSafe c (originate_failed env c)
  unfolding originate_failed
  originate_failed-IsSafe c going_on = Triple-bind _ _ (fail_call-IsSafe c going_on) (λ _.
      Keeps-then _ _ (record_event_now-Keeps env IsMonotone-spared IsMonotone-fails _ _ _) (
        Keeps-elim (present c.caller_channel_id) _ _ (Keeps-pure tt) (λ channel.
          Keeps-then _ _
            (Keeps-attempt _ (quiet_action-Keeps env IsMonotone-spared (λ h m. m) _ refl))
            (Keeps-pure tt))))

  callee_dialled-Keeps :
      (c : Call) (number : String) (channel : Reply) {E : Failing}
      → MayThrow E (IsBehind (with_callee c channel.id))
      → IsKept c.callee_channel_id (some channel.id)
      → Triple E
          (IsBehind c)
          (callee_dialled env c number channel)
          (λ _. IsBehind (with_callee c channel.id))
  unfolding callee_dialled
  callee_dialled-Keeps c number channel fails free =
      let q = with_callee c channel.id in
      Triple-weaken
        (Keeps-then _ _ (update_call-Keeps env q fails) (
          Keeps-bind _ _ (Keeps-ask env _) (λ now.
            Keeps-then _ _ (upsert_from_ari_channel-Keeps env (IsBehind-spared q) fails _)
              (record_event_now-Keeps env (IsBehind-spared q) fails _ _ _))))
        (λ h b. IsBehind-refine c q h refl (Refines-with_callee c channel.id free) b) (λ a h b. b)

  dial_callee-IsSafe :
      (c : Call) (number endpoint : String)
      → c.ended_at ≡ none
      → present c.callee_channel_id ≡ none
      → IsSafe c (dial_callee env c number endpoint)
  unfolding dial_callee
  dial_callee-IsSafe c number endpoint going_on free =
      Triple-bind _ _
        (Keeps-attempt _ (quiet_perform-Keeps env (IsBehind-spared c) (caught_row c) _ refl))
        (λ answer.
          Triple-elim answer _ _ (λ _. originate_failed-IsSafe c going_on)
            (λ channel _.
              let q = with_callee c channel.id in
              Triple-bind _ _
                (Triple-attempt (callee_dialled-Keeps c number channel (caught_row q) (inl free)))
                (λ noted.
                  Triple-if (is_some noted) _ _ (λ _. IsSafe-skip q)
                    (λ _. originate_failed-IsSafe q going_on))))

  originate_to-IsSafe :
      (c : Call) (number : String)
      → c.ended_at ≡ none
      → present c.callee_channel_id ≡ none
      → IsSafe c (originate_to env c number)
  unfolding originate_to
  originate_to-IsSafe c number going_on free =
      Triple-if (is_internal c.direction) _ _
        (λ _. Triple-bind _ _ (Keeps-ask env _) (λ found.
          Triple-elim found _ _ (λ _. fail_call-IsSafe c going_on)
            (λ extension _. dial_callee-IsSafe c number _ going_on free)))
        (λ _. dial_callee-IsSafe c number _ going_on free)

  pub originate_callee_leg-IsSafe :
      (c : Call) → c.ended_at ≡ none → IsSafe c (originate_callee_leg env c)
  unfolding originate_callee_leg
  originate_callee_leg-IsSafe c going_on =
      Triple-elim (present c.call_to_number) _ _ (λ _. IsSafe-skip c)
        (λ number _.
          Triple-if (is_some (present c.callee_channel_id)) _ _ (λ _. IsSafe-skip c)
            (λ free.
              originate_to-IsSafe c number going_on (not_set (present c.callee_channel_id) free)))

  build_bridge-Keeps :
      (c : Call) (a b : String) {E : Failing}
      → MayThrow E (IsBehind c)
      → Keeps E (IsBehind c) (build_bridge env a b)
  unfolding build_bridge
  build_bridge-Keeps c a b fails =
      Keeps-bind _ _ (quiet_perform-Keeps env (IsBehind-spared c) fails _ refl) (λ bridge.
        Keeps-then _ _ (quiet_action-Keeps env (IsBehind-spared c) fails _ refl)
          (Keeps-then _ _ (quiet_action-Keeps env (IsBehind-spared c) fails _ refl) (Keeps-pure _)))

  legs_bridged-Keeps :
      (c : Call) (caller_channel callee_channel bridge : String) {E : Failing}
      → MayThrow E (IsBehind c)
      → Keeps E (IsBehind c) (legs_bridged env c caller_channel callee_channel bridge)
  unfolding legs_bridged
  legs_bridged-Keeps c a b bridge fails = Keeps-then _ _ (update_call-Keeps env c fails) (
      Keeps-bind _ _ (Keeps-ask env _) (λ now.
        Keeps-then _ _ (upsert_from_ari_channel-Keeps env (IsBehind-spared c) fails _) (
          Keeps-then _ _ (upsert_from_ari_channel-Keeps env (IsBehind-spared c) fails _) (
            Keeps-then _ _ (record_event_now-Keeps env (IsBehind-spared c) fails _ _ _)
              (emit_click2call_webhook-Keeps env (IsBehind-spared c) fails _ _ _)))))

  bridge_failed-IsSafe : (c : Call) → c.ended_at ≡ none → IsSafe c (bridge_failed env c)
  unfolding bridge_failed
  bridge_failed-IsSafe c going_on =
      Triple-bind _ _ (fail_call-IsSafe c going_on)
        (λ _. record_event_now-Keeps env IsMonotone-spared IsMonotone-fails _ _ _)

  bridge_legs-IsSafe :
      (c : Call) (a b : String)
      → c.ended_at ≡ none
      → present c.bridge_id ≡ none
      → IsSafe c (bridge_legs env c a b)
  unfolding bridge_legs
  bridge_legs-IsSafe c a b going_on free =
      Triple-bind _ _ (Keeps-attempt _ (build_bridge-Keeps c a b (caught_row c))) (λ answer.
        Triple-elim answer _ _ (λ _. bridge_failed-IsSafe c going_on)
          (λ bridge _. Triple-bind _ _ (Keeps-ask env _) (λ now.
            let q = bridged_at c bridge.id now in
            IsSafe-refine c q _ refl (Refines-bridged_at c bridge.id now free) (
              Triple-bind _ _ (Keeps-attempt _ (legs_bridged-Keeps q a b bridge.id (caught_row q)))
                (λ noted.
                  Triple-if (is_some noted) _ _ (λ _. IsSafe-skip q)
                    (λ _. bridge_failed-IsSafe q going_on))))))

  pub bridge_click2call_legs-IsSafe :
      (c : Call) → c.ended_at ≡ none → IsSafe c (bridge_click2call_legs env c)
  unfolding bridge_click2call_legs
  bridge_click2call_legs-IsSafe c going_on =
      Triple-elim (present c.caller_channel_id) _ _ (λ _. IsSafe-skip c)
        (λ a _.
          Triple-elim (present c.callee_channel_id) _ _ (λ _. IsSafe-skip c)
            (λ b _.
              Triple-if (is_some (present c.bridge_id)) _ _ (λ _. IsSafe-skip c)
                (λ free. bridge_legs-IsSafe c a b going_on (not_set (present c.bridge_id) free))))
