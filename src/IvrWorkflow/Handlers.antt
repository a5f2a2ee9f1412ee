-- ===== src/IvrWorkflow/Handlers.antt =====
-- The event handlers of the IVR workflow. `sessionsByChannel` holds the session object that the handlers
-- change, so each change is written to the map before the row is saved.
use comm_care.Prelude.{
  ℕ, ◌+◌, String, Option, none, some, List, if◌then◌else◌, or_else, present, ◌==◌, lookup, insert,
  remove,
}
use comm_care.Ari.{
  RawAriEventBody, IvrArgs, parse_ivr_args, build_ivr_app_args, build_queue_app_args, QueueLeg,
}
use comm_care.Entities.{
  Ivr, IvrSession, phone_number, ivr, extension, queue, hangup, announcement, IvrOption, started,
  playing_announcement, processing_input,
}
use comm_care.World.{
  Environment, World, M, pure, skip, ◌>>=◌, ◌>>◌, gets, modify, do_action, ask, answer_channel,
  hangup_channel, play_media, write_ivr_session,
}
use comm_care.DialOut.{connect_to_extension, connect_to_number}
use comm_care.QueueWorkflow.Handlers.{handle_event as handle_queue_event}
use Prim.Native.String.{◌++◌}

abbrev pub new_session : (id tenant_id ivr_id call_id : String) → IvrSession
new_session id tenant_id ivr_id call_id = record {
  id = id;
  tenant_id = tenant_id;
  call_id = call_id;
  ivr_id = ivr_id;
  state = started;
  invalid_attempts = 0;
  timeout_attempts = 0;
  last_digit = none;
}

-- An event of the kind that one workflow hands to another.
abbrev pub stasis_start : String → List String → RawAriEventBody
stasis_start channel args = record {
  type = some "StasisStart";
  timestamp = none;
  channel_id = some channel;
  channel_name = none;
  channel_state = none;
  caller_number = none;
  caller_name = none;
  args = args;
  cause = none;
  cause_txt = none;
  digit = none;
}

abbrev pub pressed : IvrSession → String → IvrSession
pressed session digit = record session { last_digit = some digit; state = processing_input }

abbrev pub missed : IvrSession → IvrSession
missed session = record session { invalid_attempts = session.invalid_attempts + 1 }

abbrev hold_session : String → IvrSession → World → World
hold_session channel session w = record w {
  sessions_by_channel = insert channel session w.sessions_by_channel;
}

module _ (env : Environment) where
  unfoldable pub create_session_for_call : (tenant_id ivr_id call_id : String) → M IvrSession
  create_session_for_call tenant_id ivr_id call_id = do
    id ← ask env env.new_id
    do_action env (write_ivr_session (new_session id tenant_id ivr_id call_id))
    pure (new_session id tenant_id ivr_id call_id)

  -- The session of the arguments, if it exists, or a new one.
  unfoldable pub find_session : String → IvrArgs → M IvrSession
  find_session channel parsed =
      if parsed.ivr_session_id == ""
      then create_session_for_call parsed.tenant_id parsed.ivr_id channel
      else (do
        existing ←
            ask env (λ h. env.ivr_session_by_id_and_tenant h parsed.ivr_session_id parsed.tenant_id)
        elim existing [
          | some session ↦ pure session
          | none ↦ create_session_for_call parsed.tenant_id parsed.ivr_id channel
        ])

  unfoldable pub play_recording : (channel tenant_id recording_id : String) → M (Unit {0})
  play_recording channel tenant_id recording_id = do
    playback_url ← ask env (λ h. present (env.playback_url h tenant_id recording_id))
    elim playback_url [
      | none ↦ skip
      | some url ↦ do_action env (play_media channel ("sound:" ++ url))
    ]

  unfoldable pub play_announcement : (channel tenant_id : String) → Ivr → M (Unit {0})
  play_announcement channel tenant_id menu = elim (present menu.announcement_recording_id) [
    | none ↦ skip
    | some recording_id ↦ play_recording channel tenant_id recording_id
  ]

  unfoldable pub enter_ivr : String → IvrArgs → Ivr → M (Unit {0})
  enter_ivr channel parsed menu = do
    session ← find_session channel parsed
    modify (hold_session channel session)
    do_action env (answer_channel channel)
    play_announcement channel parsed.tenant_id menu
    modify (hold_session channel (record session { state = playing_announcement }))
    do_action env (write_ivr_session (record session { state = playing_announcement }))

  unfoldable pub handle_stasis_start : RawAriEventBody → M (Unit {0})
  handle_stasis_start event = elim (present event.channel_id) [
    | none ↦ skip
    | some channel ↦ elim (parse_ivr_args event.args) [
      | none ↦ skip
      | some parsed ↦ do
        found ← ask env (λ h. env.ivr_by_id_and_tenant h parsed.ivr_id parsed.tenant_id)
        elim found [
          | none ↦ do_action env (hangup_channel channel)
          | some menu ↦ enter_ivr channel parsed menu
        ]
    ]
  ]

  unfoldable pub nested_ivr : (channel tenant_id ivr_id : String) → M (Unit {0})
  nested_ivr channel tenant_id ivr_id = do
    nested ← create_session_for_call tenant_id ivr_id channel
    handle_stasis_start (stasis_start channel (build_ivr_app_args tenant_id nested.id ivr_id))

  unfoldable pub enter_queue : ℕ → (channel tenant_id queue_id : String) → M (Unit {0})
  enter_queue fuel channel tenant_id queue_id =
      handle_queue_event env fuel
        (stasis_start channel (build_queue_app_args tenant_id queue_id "" QueueLeg.caller none))

  unfoldable pub announce : (channel tenant_id recording_id : String) → M (Unit {0})
  announce channel tenant_id recording_id = do
    play_recording channel tenant_id recording_id
    do_action env (hangup_channel channel)

  -- A destination with an id, or the end of the call.
  unfoldable pub with_destination : String → Option String → (String → M (Unit {0})) → M (Unit {0})
  with_destination channel id f = elim (present id) [
    | none ↦ do_action env (hangup_channel channel)
    | some i ↦ f i
  ]

  unfoldable pub execute_destination :
      ℕ → (channel tenant_id : String) → IvrOption → Option String → M (Unit {0})
  execute_destination fuel channel tenant_id option caller_number = elim option.destination_type [
    | hangup ↦ do_action env (hangup_channel channel)
    | extension ↦ connect_to_extension env channel tenant_id option.destination_id caller_number
    | ivr ↦ with_destination channel option.destination_id (nested_ivr channel tenant_id)
    | phone_number ↦ connect_to_number env channel option.destination_value caller_number
    | queue ↦ with_destination channel option.destination_id (enter_queue fuel channel tenant_id)
    | announcement ↦ with_destination channel option.destination_id (announce channel tenant_id)
  ]

  unfoldable pub digit_pressed :
      ℕ → RawAriEventBody → (channel digit : String) → IvrArgs → IvrSession → M (Unit {0})
  digit_pressed fuel event channel digit parsed session = do
    modify (hold_session channel (pressed session digit))
    do_action env (write_ivr_session (pressed session digit))
    option ← ask env (λ h. env.option_by_ivr_and_digit h parsed.ivr_id digit)
    elim option [
      | none ↦ do
        modify (hold_session channel (missed (pressed session digit)))
        do_action env (write_ivr_session (missed (pressed session digit)))
      | some o ↦ execute_destination fuel channel parsed.tenant_id o event.caller_number
    ]

  unfoldable pub handle_dtmf : ℕ → RawAriEventBody → M (Unit {0})
  handle_dtmf fuel event = elim (present event.channel_id) [
    | none ↦ skip
    | some channel ↦ elim (present event.digit) [
      | none ↦ skip
      | some digit ↦ elim (parse_ivr_args event.args) [
        | none ↦ skip
        | some parsed ↦ do
          session ← gets (λ w. lookup channel w.sessions_by_channel)
          elim session [ none ↦ skip | some s ↦ digit_pressed fuel event channel digit parsed s ]
      ]
    ]
  ]

  unfoldable pub handle_type : ℕ → String → RawAriEventBody → M (Unit {0})
  handle_type fuel type event =
      if type == "StasisStart"
      then handle_stasis_start event
      else if type == "ChannelDtmfReceived"
      then handle_dtmf fuel event
      else if type == "ChannelDestroyed"
      then modify (λ w. record w {
        sessions_by_channel = remove (or_else event.channel_id "") w.sessions_by_channel;
      })
      else skip

  unfoldable pub handle_event : ℕ → RawAriEventBody → M (Unit {0})
  handle_event fuel event = elim (present event.type) [
    | none ↦ skip
    | some type ↦ handle_type fuel type event
  ]
