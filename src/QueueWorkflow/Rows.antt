-- ===== src/QueueWorkflow/Rows.antt =====
-- The rows that the queue workflow writes (`logEvent`, `logPositionChanged`, `timeoutQueueCall`), and the
-- queries of QueueMembersService, QueuesService and the queue repositories that it makes.
use comm_care.Prelude.{
  ℕ, ◌+◌, String, Bool, true, false, not, ◌&&◌, Option, none, some, List, [], ◌∷◌, ltb,
  if◌then◌else◌, ◌==◌, holds_text, is_some, keep, find_first, length, seconds_between, remove,
}
use comm_care.QueueStrategy.{QueueMember}
use comm_care.Entities.{
  Queue, QueueCall, QueueCallEventType, QueueCallPayload, Extension, ExtensionStatus, assigned,
  waiting, timed_out, queue_timeout, position_changed,
}
use comm_care.World.{
  Environment, History, M, pure, ◌>>=◌, ◌>>◌, modify, do_action, ask, write_queue_call,
  write_queue_call_event, hangup_channel,
}

pub record EligibleMember : Type 0 where
  pub member : QueueMember
  pub extension : Extension

abbrev pub no_payload : QueueCallPayload
no_payload = record {
  member_id = none;
  agent_id = none;
  channel_id = none;
  bridge_id = none;
  reason = none;
  cause = none;
  position = none;
}

abbrev pub is_assigned : ExtensionStatus → Bool
is_assigned assigned = true
is_assigned _ = false

-- `getEnabledQueueForTenant(…).catch(() => null)`
abbrev pub enabled_or_none : Option Queue → Option Queue
enabled_or_none none = none
enabled_or_none (some q) = if q.enabled then some q else none

-- A new `QueueCallEntity`, with the columns' defaults; the database gives the id.
abbrev pub new_queue_call :
    (tenant_id queue_id caller_channel_id : String) (caller_number : Option String) (now : ℕ)
    → QueueCall
new_queue_call tenant_id queue_id caller_channel_id caller_number now = record {
  id = "";
  tenant_id = tenant_id;
  queue_id = queue_id;
  caller_channel_id = caller_channel_id;
  caller_number = caller_number;
  status = waiting;
  ringing_channel_ids = [];
  attempt_order = [];
  bridge_id = none;
  answered_member_id = none;
  answered_agent_id = none;
  entered_at = now;
  bridged_at = none;
  ended_at = none;
  wait_seconds = none;
  talk_seconds = none;
}

abbrev pub timed_out_at : QueueCall → ℕ → QueueCall
timed_out_at q now = record q {
  status = timed_out;
  ended_at = some now;
  wait_seconds = some (seconds_between q.entered_at now);
}

module _ (env : Environment) where
  unfoldable pub create_queue_call : QueueCall → M QueueCall
  create_queue_call q = do
    id ← ask env env.new_id
    do_action env (write_queue_call (record q { id = id }))
    pure (record q { id = id })

  unfoldable pub log_event : QueueCall → QueueCallEventType → QueueCallPayload → M (Unit {0})
  log_event q type payload = do
    now ← ask env env.clock
    do_action env (
        write_queue_call_event (record {
          tenant_id = q.tenant_id;
          queue_id = q.queue_id;
          queue_call_id = q.id;
          event_type = type;
          member_id = payload.member_id;
          agent_id = payload.agent_id;
          channel_id = payload.channel_id;
          payload = payload;
          event_time = now;
        }))

  -- One more than the active calls of the queue that entered before this one.
  pub position_in_queue : QueueCall → List QueueCall → ℕ
  position_in_queue q active =
      length (keep (λ c. not (c.id == q.id) && ltb c.entered_at q.entered_at) active) + 1

  unfoldable pub log_position_changed : QueueCall → M (Unit {0})
  log_position_changed q = do
    active ← ask env (λ h. env.active_by_queue h q.queue_id)
    log_event q position_changed
        (record no_payload { position = some (position_in_queue q active) })

  unfoldable pub timeout_queue_call : QueueCall → String → M (Unit {0})
  timeout_queue_call q reason = do
    modify (λ w. record w {
      queue_call_by_caller_channel = remove q.caller_channel_id w.queue_call_by_caller_channel;
    })
    now ← ask env env.clock
    do_action env (write_queue_call (timed_out_at q now))
    log_event (timed_out_at q now) queue_timeout (record no_payload { reason = some reason })
    do_action env (hangup_channel q.caller_channel_id)

  -- `resolveEligibleMembers`: enabled members who are on no bridged call and have an assigned
  -- extension of the queue's tenant.
  pub eligible_among : History → Queue → List QueueMember → List EligibleMember
  eligible_among h queue [] = []
  eligible_among h queue (m ∷ ms) =
      let rest = eligible_among h queue ms in
      if m.enabled && not (is_some (env.active_bridged_by_agent h m.agent_id))
      then elim (find_first (λ e. holds_text e.tenant_id queue.tenant_id && is_assigned e.status)
          (env.extensions_by_user h m.agent_id)) [
            | none ↦ rest
            | some extension ↦ record { member = m; extension = extension } ∷ rest
          ]
      else rest

  unfoldable pub resolve_eligible_members : Queue → M (List EligibleMember)
  unfolding eligible_among
  resolve_eligible_members queue =
      ask env (λ h. eligible_among h queue (env.members_by_queue h queue.id))

  unfoldable pub find_enabled_queue : (tenant_id queue_id : String) → M (Option Queue)
  find_enabled_queue tenant_id queue_id =
      ask env (λ h. enabled_or_none (env.queue_by_id_and_tenant h queue_id tenant_id))
