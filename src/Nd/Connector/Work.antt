-- ===== src/Nd/Connector/Work.antt =====
-- The scheduler's count of outstanding work in nd/detail/nd_service_connector.hpp and
-- nd/detail/nd_op_connect.hpp: what is started is handed over.
use rdma_on_asio.Base.{ℕ, suc, ◌+◌, ◌≡◌, Bool, Option, List, [], ◌∷◌, arith}
use rdma_on_asio.Error.{ErrorCode, cleared}
use rdma_on_asio.Nd.{
  Env, Log, Call, overlapped, plain, new_connector, work_started, on_pending, on_completion,
}
use rdma_on_asio.Nd.Connector.{
  Connector, Device, do_open, start_connect_op, start_accept_op, async_accept, async_move_accept,
  connect_checked, async_connect, async_wait_disconnect, get,
}

abbrev start_count : Call → ℕ
start_count work_started = 1
start_count _ = 0

abbrev hand_over_count : Call → ℕ
hand_over_count on_pending = 1
hand_over_count (on_completion ec) = 1
hand_over_count _ = 0

-- Calls of `work_started`, and of `on_pending` or `on_completion`.
abbrev pub starts : Log → ℕ
starts [] = 0
starts (c ∷ log) = start_count c + starts log

abbrev pub hand_overs : Log → ℕ
hand_overs [] = 0
hand_overs (c ∷ log) = hand_over_count c + hand_overs log

-- One operation is started and handed over between two logs.
abbrev pub OneHandedOver : Log → Log → Type 0
OneHandedOver before after =
    (starts after ≡ suc (starts before)) × (hand_overs after ≡ suc (hand_overs before))

do_open-work :
    (env : Env) (device : Device) (c : Connector) (log : Log)
    → (starts (do_open env device c log).1 ≡ starts log)
      × (hand_overs (do_open env device c log).1 ≡ hand_overs log)
unfolding do_open new_connector
do_open-work env device c log = ground arith

start_connect_op-work :
    (env : Env) (device : Device) (qp endpoint : ℕ) (is_v4 : Bool) (private_data : List ℕ)
    (c : Connector) (log : Log)
    → OneHandedOver log (start_connect_op env device qp endpoint is_v4 private_data c log).1
unfolding start_connect_op overlapped plain
start_connect_op-work env device qp endpoint is_v4 private_data c log = ground arith

start_accept_op-work :
    (env : Env) (device : Device) (qp : ℕ) (private_data : List ℕ) (c : Connector) (log : Log)
    → OneHandedOver log (start_accept_op env device qp private_data c log).1
unfolding start_accept_op overlapped
start_accept_op-work env device qp private_data c log = ground arith

connect_checked-work :
    (env : Env) (device : Device) (qp : Option ℕ) (endpoint : ℕ) (is_v4 : Bool) (request : List ℕ)
    (c : Connector) (open_ec : ErrorCode) (log : Log)
    → OneHandedOver log (connect_checked env device qp endpoint is_v4 request c open_ec log).1
unfolding connect_checked
connect_checked-work env device qp endpoint is_v4 request c open_ec log =
    ground (arith, start_connect_op-work env device (get qp) endpoint is_v4 request c log)

async_connect-work :
    (env : Env) (device : Device) (qp : Option ℕ) (endpoint : ℕ) (is_v4 : Bool) (request : List ℕ)
    (c : Connector) (log : Log)
    → OneHandedOver log (async_connect env device qp endpoint is_v4 request c log).1
unfolding async_connect
async_connect-work env device qp endpoint is_v4 request c log = ground (
  arith,
  do_open-work env device c log,
  connect_checked-work env device qp endpoint is_v4 request c cleared log,
  connect_checked-work env device qp endpoint is_v4 request (do_open env device c log).0.0
      (do_open env device c log).0.1 (do_open env device c log).1,
)

async_accept-work :
    (env : Env) (device : Device) (qp : Option ℕ) (private_data : List ℕ) (c : Connector)
    (log : Log)
    → OneHandedOver log (async_accept env device qp private_data c log).1
unfolding async_accept
async_accept-work env device qp private_data c log =
    ground (arith, start_accept_op-work env device (get qp) private_data c log)

async_move_accept-work :
    (env : Env) (bind_ec : ErrorCode) (device : Device) (qp : Option ℕ) (private_data : List ℕ)
    (c : Connector) (log : Log)
    → OneHandedOver log (async_move_accept env bind_ec device qp private_data c log).1
unfolding async_move_accept
async_move_accept-work env bind_ec device qp private_data c log =
    ground (arith, async_accept-work env device qp private_data c log)

async_wait_disconnect-work :
    (env : Env) (c : Connector) (log : Log) → OneHandedOver log (async_wait_disconnect env c log).1
unfolding async_wait_disconnect overlapped
async_wait_disconnect-work env c log = ground arith

-- async_connect, async_accept, async_move_accept and async_wait_disconnect each start one operation and
-- hand it over once, on every path.
pub initiating-OneHandedOver :
    (env : Env) (device : Device) (qp : Option ℕ) (endpoint : ℕ) (is_v4 : Bool)
    (private_data : List ℕ) (bind_ec : ErrorCode) (c : Connector) (log : Log)
    → OneHandedOver log (async_connect env device qp endpoint is_v4 private_data c log).1
      × OneHandedOver log (async_accept env device qp private_data c log).1
      × OneHandedOver log (async_move_accept env bind_ec device qp private_data c log).1
      × OneHandedOver log (async_wait_disconnect env c log).1
initiating-OneHandedOver env device qp endpoint is_v4 private_data bind_ec c log = (
  async_connect-work env device qp endpoint is_v4 private_data c log,
  async_accept-work env device qp private_data c log,
  async_move_accept-work env bind_ec device qp private_data c log,
  async_wait_disconnect-work env c log,
)
