-- ===== src/Tests.antt =====
-- Concrete devices, connectors and buffers on which the theorems are applied.
mod Control
mod Data
mod Handles
mod Memory
mod Windows
mod Discovery
mod Races
mod Pairs
mod Regions
use rdma_on_asio.Base.{
  ℕ, ◌+◌, ◌-◌, ◌≤◌, ◌<◌, ◌≡◌, refl, Bool, true, false, Option, none, some, List, [], ◌∷◌, arith,
  if◌then◌else◌, ◌==◌,
}
use rdma_on_asio.Base.Int.{ℤ, pos, negsuc, is_nonzero}
use rdma_on_asio.Error.{cleared}
use rdma_on_asio.Config.{Config, default_config}
use rdma_on_asio.Memory.{Buffer, RemoteAddr}
use rdma_on_asio.Cm.{
  Env, Log, Call, CmEvent, EventType, established, rdma_get_cm_event, rdma_create_event_channel,
}
use rdma_on_asio.Cm.Drain.{IsFinite}
use rdma_on_asio.Connect.{ConnectOp, Stage, ConnectState, idle, connected}
use rdma_on_asio.Connector.{Connector}
use rdma_on_asio.Verbs.{VerbsOp, Buffers, sequence, PostEnv}

abbrev pub gets : Log → ℕ
gets [] = 0
gets (rdma_get_cm_event ch ∷ log) = 1 + gets log
gets (_ ∷ log) = gets log

-- One event is reported, an ESTABLISHED; every other call succeeds.
abbrev pub value_of : Log → Call → ℤ
value_of log (rdma_get_cm_event ch) = if gets log == 0 then pos 0 else negsuc 0
value_of log rdma_create_event_channel = pos 7
value_of log _ = pos 0

abbrev pub event_of : EventType → CmEvent
event_of t = record { event = t; status = pos 0; private_data = some (5 ∷ 6 ∷ []); id = 3 }

abbrev pub env : Env
env = record {
  answer = λ log c. record { value = value_of log c; errno = pos 11 };
  next_event = λ log. event_of established;
}

abbrev pub pending : Log → ℕ
pending log = 1 - gets log

pub env-IsFinite : IsFinite env 7 pending
env-IsFinite = record {
  falls = λ log h. ground arith;
  acking = λ log e. omega arith;
  disconnecting = λ log id. omega arith;
}

abbrev pub op : ConnectOp
op = record {
  stage = Stage.addr_resolve;
  ec = cleared;
  channel = 7;
  cm_id = 3;
  timeout = 2000;
  request = 1 ∷ 2 ∷ [];
  has_reply_buf = true;
  reply_cap = 1;
  reply = [];
  responder_resources = 1;
  initiator_depth = 1;
  rnr_retry = 7;
  min_rnr_timer = 12;
  create_qp = none;
}

abbrev pub open_connector : ConnectState → Connector
open_connector s = record { cm_channel = some 7; cm_id = some 3; state = s; peer_closed = false }

abbrev pub config : Config
config = record default_config { max_send_sge = 4; max_recv_sge = 4 }

-- Ten buffers spill the native list.
abbrev pub buffer : ℕ → Buffer
buffer n = record { addr = n; length = 100; lkey = 9 }

abbrev pub two : Buffers
two = sequence (buffer 1000 ∷ buffer 2000 ∷ [])

abbrev pub verbs_op : VerbsOp
verbs_op = record { id = 77; ec = cleared; bytes_transferred = 0 }

abbrev pub accepting : PostEnv
accepting calls wr = pos 0

abbrev pub remote : RemoteAddr
remote = record { addr = 4096; token = 21 }
