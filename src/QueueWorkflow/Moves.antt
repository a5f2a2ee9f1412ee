-- ===== src/QueueWorkflow/Moves.antt =====
-- The rows that the handlers write follow the rows that they have read.
use comm_care.Prelude.{ℕ, String, ◌≡◌, refl, arith, true, false, is_some}
use comm_care.Entities.{QueueCall}
use comm_care.World.{RingingAgentLeg}
use comm_care.QueueWorkflow.Handlers.{
  is_ringing, is_bridged, bridged_to, completed_at, abandoned_at, without_channel,
}
use comm_care.QueueWorkflow.Lifecycle.{IsWellFormed, Follows}

pub bridged_to-Follows :
    (q : QueueCall) (leg : RingingAgentLeg) (bridge : String) (now : ℕ)
    → is_ringing q.status ≡ true
    → IsWellFormed q
    → Follows q (bridged_to q leg bridge now)
bridged_to-Follows q leg bridge now r v = record {
  going_on = ground arith;
  status = ground arith;
  tenant = refl;
  queue = refl;
  caller = refl;
  number = refl;
  entered = refl;
  form = record {
    ended = ground arith;
    bridge = refl;
    agent = refl;
    bridged_since = refl;
    channels = λ e. refl;
  };
}

pub completed_at-Follows :
    (q : QueueCall) (now : ℕ)
    → is_bridged q.status ≡ true
    → IsWellFormed q
    → Follows q (completed_at q now)
completed_at-Follows q now b v = record {
  going_on = ground arith;
  status = ground arith;
  tenant = refl;
  queue = refl;
  caller = refl;
  number = refl;
  entered = refl;
  form = record {
    ended = refl;
    bridge = ground arith;
    agent = ground arith;
    bridged_since = ground arith;
    channels = λ e. v.channels (ground arith);
  };
}

pub abandoned_at-Follows :
    (q : QueueCall) (now : ℕ)
    → is_bridged q.status ≡ false
    → is_some q.ended_at ≡ false
    → IsWellFormed q
    → Follows q (abandoned_at q now)
abandoned_at-Follows q now b e v = record {
  going_on = ground arith;
  status = ground arith;
  tenant = refl;
  queue = refl;
  caller = refl;
  number = refl;
  entered = refl;
  form = record {
    ended = refl;
    bridge = ground arith;
    agent = ground arith;
    bridged_since = ground arith;
    channels = λ e. refl;
  };
}

pub without_channel-Follows :
    (q : QueueCall) (channel : String)
    → is_ringing q.status ≡ true
    → IsWellFormed q
    → Follows q (without_channel q channel)
without_channel-Follows q channel r v = record {
  going_on = ground arith;
  status = ground arith;
  tenant = refl;
  queue = refl;
  caller = refl;
  number = refl;
  entered = refl;
  form = record {
    ended = v.ended;
    bridge = v.bridge;
    agent = v.agent;
    bridged_since = v.bridged_since;
    channels = λ e. absurd (ground arith);
  };
}
