-- ===== src/Click2Call/Runs.antt =====
-- The click-to-call workflow over any sequence of events.
use comm_care.Prelude.{
  String, ◌≡◌, sym, subst, ◌||◌, some, List, [], ◌∷◌, present, holds_text, ◌==◌, ◌∙◌,
}
use comm_care.Ari.{RawAriEventBody, parse_click2call_args}
use comm_care.Entities.{Call}
use comm_care.World.{History, Environment, World, M}
use comm_care.World.Ensures.{
  always, Triple, Triple-pure, Triple-ask, Triple-bind, Triple-weaken, Triple-given, world_of,
  Ensures-world_of,
}
use comm_care.World.Keeps.{Triple-if, Triple-elim}
use comm_care.Click2Call.Rows.{load_click2call}
use comm_care.Click2Call.Handlers.{
  handle_stasis_start, handle_channel_state_change, handle_channel_destroyed, handle_type,
  handle_event,
}
use comm_care.Click2Call.Once.{latest_call, IsMonotone, IsCallStore, IsBehind, latest_call-id}
use comm_care.Click2Call.Monotone.{IsCurrent-IsBehind}
use comm_care.Click2Call.Events.{
  channel_arrived-IsSafe, channel_changed-IsSafe, leg_destroyed-IsSafe,
}

-- The world after one event more; what a handler did before it threw stays done.
pub step : Environment → World → RawAriEventBody → World
step env w event = world_of (handle_event env event w)

pub run : Environment → World → List RawAriEventBody → World
run env w [] = w
run env w (event ∷ events) = run env (step env w event) events

abbrev KeepsMonotone : M (Unit {0}) → Type 0
KeepsMonotone m = Triple (always IsMonotone) IsMonotone m (λ _. IsMonotone)

module _ (env : Environment) (store : IsCallStore env) where
  start : (c : Call) (h : History) → IsMonotone h → latest_call c.id h ≡ some c → IsBehind c h
  start c h m row = IsCurrent-IsBehind c h (record { monotone = m; row = row })

  by_id-row :
      (h : History) (id : String) (c : Call)
      → env.call_by_id h id ≡ some c
      → latest_call c.id h ≡ some c
  by_id-row h id c e =
      let row : latest_call id h ≡ some c = sym (store.by_id h id) ∙ e in
      subst (λ i. latest_call i h ≡ some c) (sym (latest_call-id id h row)) row

  handle_stasis_start-KeepsMonotone :
      (event : RawAriEventBody) → KeepsMonotone (handle_stasis_start env event)
  unfolding handle_stasis_start load_click2call
  handle_stasis_start-KeepsMonotone event =
      Triple-elim (parse_click2call_args event.args) _ _ (λ _. Triple-pure tt (λ h m. m))
        (λ parsed _.
          Triple-elim (present event.channel_id) _ _ (λ _. Triple-pure tt (λ h m. m))
            (λ channel _.
              Triple-bind _ _ (Triple-ask env (λ h. env.call_by_id h parsed.call_id)) (λ found.
                Triple-elim found _ _ (λ _. Triple-pure tt (λ h m. m.0))
                  (λ c e.
                    Triple-weaken (channel_arrived-IsSafe env c event channel parsed)
                      (λ h m. start c h m.0 (by_id-row h parsed.call_id c (m.1 ∙ e)))
                      (λ a h m. m)))))

  handle_channel_state_change-KeepsMonotone :
      (event : RawAriEventBody) → KeepsMonotone (handle_channel_state_change env event)
  unfolding handle_channel_state_change
  handle_channel_state_change-KeepsMonotone event =
      Triple-elim (present event.channel_id) _ _ (λ _. Triple-pure tt (λ h m. m))
        (λ channel _.
          Triple-elim (present event.channel_state) _ _ (λ _. Triple-pure tt (λ h m. m))
            (λ state _.
              Triple-bind _ _ (Triple-ask env (λ h. env.active_click2call_by_channel h channel))
                (λ found.
                  Triple-elim found _ _ (λ _. Triple-pure tt (λ h m. m.0))
                    (λ c e.
                      Triple-given (λ h m. (store.active h channel c (m.1 ∙ e)).1)
                        (λ going_on.
                          Triple-weaken (channel_changed-IsSafe env c event channel state going_on)
                            (λ h m. start c h m.0 (store.active h channel c (m.1 ∙ e)).0)
                            (λ a h m. m))))))

  handle_channel_destroyed-KeepsMonotone :
      (event : RawAriEventBody) → KeepsMonotone (handle_channel_destroyed env event)
  unfolding handle_channel_destroyed
  handle_channel_destroyed-KeepsMonotone event =
      Triple-elim (present event.channel_id) _ _ (λ _. Triple-pure tt (λ h m. m))
        (λ channel _.
          Triple-bind _ _ (Triple-ask env (λ h. env.click2call_by_channel h channel)) (λ found.
            Triple-elim found _ _ (λ _. Triple-pure tt (λ h m. m.0))
              (λ c e.
                Triple-if
                  (holds_text c.caller_channel_id channel || holds_text c.callee_channel_id channel)
                  _ _
                  (λ _.
                    Triple-weaken (leg_destroyed-IsSafe env c event channel _)
                      (λ h m. start c h m.0 (store.by_channel h channel c (m.1 ∙ e))) (λ a h m. m))
                  (λ _. Triple-pure tt (λ h m. m.0)))))

  handle_event-KeepsMonotone : (event : RawAriEventBody) → KeepsMonotone (handle_event env event)
  unfolding handle_event handle_type
  handle_event-KeepsMonotone event =
      Triple-elim (present event.type) _ _ (λ _. Triple-pure tt (λ h m. m))
        (λ type _.
          Triple-if (type == "StasisStart") _ _ (λ _. handle_stasis_start-KeepsMonotone event)
            (λ _.
              Triple-if (type == "ChannelStateChange") _ _
                (λ _. handle_channel_state_change-KeepsMonotone event)
                (λ _.
                  Triple-if (type == "ChannelDestroyed") _ _
                    (λ _. handle_channel_destroyed-KeepsMonotone event)
                    (λ _. Triple-pure tt (λ h m. m)))))

-- From a monotone history, whatever events arrive and whichever requests fail, every row of a call that
-- the workflow writes refines the row of that call before it: its two channels, its bridge and its start,
-- once set, never change, and once the call has ended neither does the time of its end nor its duration.
pub run-IsMonotone :
    (env : Environment)
    → IsCallStore env
    → (w : World) (events : List RawAriEventBody) → IsMonotone w.history
    → IsMonotone (run env w events).history
unfolding run step
run-IsMonotone env store w [] m = m
run-IsMonotone env store w (event ∷ events) m = run-IsMonotone env store (step env w event) events (
    Ensures-world_of IsMonotone (handle_event env event w)
      ((handle_event-KeepsMonotone env store event).at w m))
