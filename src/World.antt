-- ===== src/World.antt =====
-- What the call workflows share: the requests that leave the process, the answers that come back,
-- the maps that the services hold in memory, and the monad in which a handler runs.
-- Asterisk, the database, Redis, the event bus and the clock are not the program's code: an
-- `Environment` answers each request from the history of all requests before it. A handler runs to
-- its end before the next event; an `await` is a step of it.
pub mod Ensures
pub mod Keeps
pub mod Served
use comm_care.Prelude.{
  ℕ, String, Bool, true, false, Option, none, some, List, [], ◌∷◌, if◌then◌else◌,
}
use comm_care.QueueStrategy.{QueueMember, QueueMemberAggregate}
use comm_care.Entities.{
  Queue, QueueCall, QueueCallEvent, Extension, IvrSession, Ivr, IvrOption, InboundRoute, Call,
  CallLeg, CallEvent, WebhookTrigger, Click2CallWebhookData,
}

-- `OriginateCallOptions` of src/modules/pbx/services/asterisk.service.ts
pub record OriginateCallOptions : Type 0 where
  pub app_args : List String
  pub caller_id_number : Option String
  pub timeout : Option ℕ

pub data Action : Type 0 where
  answer_channel hangup_channel : String → Action
  originate_call : String → OriginateCallOptions → Action
  create_bridge : Action
  add_channel_to_bridge : String → String → Action
  play_media : String → String → Action
  write_queue_call : QueueCall → Action
  write_queue_call_event : QueueCallEvent → Action
  write_queue : Queue → Action
  write_ivr_session : IvrSession → Action
  write_call : Call → Action
  write_call_leg : CallLeg → Action
  write_call_event : CallEvent → Action
  publish_webhook : WebhookTrigger → String → Click2CallWebhookData → Action
  mark_seen : String → Action

-- A request that was answered, or one that failed.
pub data Entry : Type 0 where
  did failed : Action → Entry

-- Newest first.
abbrev pub History : Type 0
History = List Entry

-- `AriChannel`; of a bridge and of a written row only the id is read.
pub record Reply : Type 0 where
  pub id : String
  pub name : String
  pub state : String
  pub caller_name : Option String

-- A query is answered at once: what it finds can depend on every request made before.
pub record Environment : Type 0 where
  pub clock : History → ℕ
  pub random : History → ℕ → ℕ
  pub fails : History → Action → Bool
  pub reply : History → Action → Reply
  pub new_id : History → String
  pub queue_by_id_and_tenant : History → String → String → Option Queue
  pub members_by_queue : History → String → List QueueMember
  pub aggregates_by_queue : History → String → List QueueMemberAggregate
  pub queue_call_by_id : History → String → Option QueueCall
  pub count_active_by_queue : History → String → ℕ
  pub active_by_queue : History → String → List QueueCall
  pub active_bridged_by_agent : History → String → Option QueueCall
  pub extensions_by_user : History → String → List Extension
  pub extensions_by_tenant : History → String → List Extension
  pub extension_by_number : History → String → Option Extension
  pub ivr_by_id_and_tenant : History → String → String → Option Ivr
  pub ivr_session_by_id_and_tenant : History → String → String → Option IvrSession
  pub option_by_ivr_and_digit : History → String → String → Option IvrOption
  pub playback_url : History → String → String → Option String
  pub enabled_route_by_did : History → String → Option InboundRoute
  pub call_by_id : History → String → Option Call
  pub active_click2call_by_channel : History → String → Option Call
  pub click2call_by_channel : History → String → Option Call
  pub leg_by_unique_id : History → String → Option CallLeg
  pub is_seen : History → String → Bool
  pub parse_time : String → Option ℕ
  pub outbound_endpoint : String → String

pub record RingingAgentLeg : Type 0 where
  pub queue_call_id : String
  pub member_id : String
  pub agent_id : String

-- `queueCallByCallerChannel` and `ringingAgentLegs` of the queue workflow, and `sessionsByChannel` of
-- the IVR workflow, beside the history of requests.
pub record World : Type 0 where
  pub history : History
  pub queue_call_by_caller_channel : List (String × String)
  pub ringing_agent_legs : List (String × RingingAgentLeg)
  pub sessions_by_channel : List (String × IvrSession)

-- A handler returns, throws, or has used up the fuel of its recursion.
pub data Result (A : Type 0) : Type 0 where
  done : A → World → Result A
  thrown : World → Result A
  exhausted : World → Result A

abbrev pub M : Type 0 → Type 0
M A = World → Result A

abbrev pub pure : {A : Type 0} → A → M A
pure a w = done a w

abbrev pub continue : {A B : Type 0} → Result A → (A → M B) → Result B
continue (done a w) f = f a w
continue (thrown w) f = thrown w
continue (exhausted w) f = exhausted w

infixl 5 ◌>>=◌ ◌>>◌
unfoldable pub ◌>>=◌ : {A B : Type 0} → M A → (A → M B) → M B
◌>>=◌ m f w = continue (m w) f

abbrev pub ◌>>◌ : {A B : Type 0} → M A → M B → M B
m >> k = m >>= λ _. k

abbrev pub skip : M (Unit {0})
skip = pure tt

unfoldable pub gets : {A : Type 0} → (World → A) → M A
gets f w = done (f w) w

unfoldable pub modify : (World → World) → M (Unit {0})
modify f w = done tt (f w)

abbrev pub logged : World → Entry → World
logged w e = record w { history = e ∷ w.history }

-- `try { m } catch { }`, with what was returned, if anything was
unfoldable pub attempt : {A : Type 0} → M A → M (Option A)
attempt m w = elim (m w) [
  | done a w' ↦ done (some a) w'
  | thrown w' ↦ done none w'
  | exhausted w' ↦ exhausted w'
]

module _ (env : Environment) where
  -- A request: it is logged, and answered or refused.
  unfoldable pub perform : Action → M Reply
  perform a w =
      if env.fails w.history a
      then thrown (logged w (failed a))
      else done (env.reply w.history a) (logged w (did a))

  unfoldable pub do_action : Action → M (Unit {0})
  unfolding perform ◌>>=◌
  do_action a = perform a >>= λ _. skip

  -- A query of the environment.
  unfoldable pub ask : {A : Type 0} → (History → A) → M A
  ask q w = done (q w.history) w
