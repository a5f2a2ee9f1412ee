-- ===== src/IvrWorkflow/Served.antt =====
-- Every caller who enters an IVR is answered or hung up.
use comm_care.Prelude.{ℕ, String, ◌≡◌, refl, true, some, present, ◌==◌}
use comm_care.Ari.{RawAriEventBody, IvrArgs, parse_ivr_args}
use comm_care.Entities.{Ivr}
use comm_care.World.{Environment}
use comm_care.World.Ensures.{Triple-bind}
use comm_care.World.Keeps.{
  Keeps, Keeps-pure, Keeps-ask, Keeps-bind, Keeps-then, Keeps-modify, Keeps-elim, Keeps-do_action,
  Triple-if, Triple-elim,
}
use comm_care.World.Served.{
  IsServed, IsServed-stable, unless_thrown, answer-IsServed, hangup-IsServed,
}
use comm_care.QueueWorkflow.Served.{Serves, PassesOn, action-Keeps}
use comm_care.IvrWorkflow.Handlers.{
  create_session_for_call, find_session, play_recording, play_announcement, enter_ivr,
  handle_stasis_start, handle_type, handle_event,
}

module _ (env : Environment) where
  create_session_for_call-PassesOn :
      (channel tenant_id ivr_id call_id : String)
      → PassesOn channel (create_session_for_call env tenant_id ivr_id call_id)
  unfolding create_session_for_call
  create_session_for_call-PassesOn channel tenant_id ivr_id call_id =
      Keeps-bind _ _ (Keeps-ask env _) (λ id.
        Keeps-then _ _ (Keeps-do_action (λ e. true) (λ e h p x. tt) (λ h p. tt) env _ refl refl)
          (Keeps-pure _))

  find_session-PassesOn :
      (channel : String) (parsed : IvrArgs) → PassesOn channel (find_session env channel parsed)
  unfolding find_session
  find_session-PassesOn channel parsed =
      Triple-if (parsed.ivr_session_id == "") _ _
        (λ _. create_session_for_call-PassesOn channel _ _ _)
        (λ _. Keeps-bind _ _ (Keeps-ask env _) (λ existing.
          Keeps-elim existing _ _ (create_session_for_call-PassesOn channel _ _ _)
            (λ session. Keeps-pure session)))

  play_announcement-Keeps :
      (channel tenant_id : String) (menu : Ivr)
      → Keeps
          (unless_thrown (IsServed channel))
          (IsServed channel)
          (play_announcement env channel tenant_id menu)
  unfolding play_announcement play_recording
  play_announcement-Keeps channel tenant_id menu =
      Keeps-elim (present menu.announcement_recording_id) _ _ (Keeps-pure tt) (λ recording.
        Keeps-bind _ _ (Keeps-ask env _) (λ url.
          Keeps-elim url _ _ (Keeps-pure tt) (λ u. action-Keeps env (IsServed-stable channel) _)))

  enter_ivr-Serves :
      (channel : String) (parsed : IvrArgs) (menu : Ivr)
      → Serves channel (enter_ivr env channel parsed menu)
  unfolding enter_ivr
  enter_ivr-Serves channel parsed menu =
      Triple-bind _ _ (find_session-PassesOn channel parsed) (λ session.
        Triple-bind _ _ (Keeps-modify _ (λ w. refl)) (λ _.
          Triple-bind _ _ (answer-IsServed env channel) (λ _.
            Keeps-then _ _ (play_announcement-Keeps channel _ menu) (
              Keeps-then _ _ (Keeps-modify _ (λ w. refl))
                (action-Keeps env (IsServed-stable channel) _)))))

  pub handle_event-EntersIvr :
      (fuel : ℕ) (event : RawAriEventBody) (channel : String) (parsed : IvrArgs)
      → present event.type ≡ some "StasisStart"
      → present event.channel_id ≡ some channel
      → parse_ivr_args event.args ≡ some parsed
      → Serves channel (handle_event env fuel event)
  unfolding handle_event handle_type handle_stasis_start
  handle_event-EntersIvr fuel event channel parsed type on read =
      rw (handle_event, type, handle_type, handle_stasis_start, on, read)
        (Triple-bind _ _ (Keeps-ask env _) (λ found.
          Triple-elim found _ _ (λ _. hangup-IsServed env channel)
            (λ menu _. enter_ivr-Serves channel parsed menu)))
