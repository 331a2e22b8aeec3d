-- ===== src/Nd/Race.antt =====
-- nd/detail/impl/nd_op_connect.ipp and nd/detail/nd_op_connect.hpp on the threads of the scheduler against
-- disconnect() of nd/detail/nd_service_connector.hpp on others: each action makes at most one access to
-- `connect_state_`, with the calls up to the next, and a schedule is any list of actions.
pub mod Segments
pub mod Invariant
pub mod Lost
use rdma_on_asio.Base.{
  ℕ, Bool, true, false, not, ◌&&◌, ◌||◌, Option, none, some, List, [], ◌∷◌, if◌then◌else◌, is_some,
}
use rdma_on_asio.Base.Int.{is_negative}
use rdma_on_asio.Error.{
  ErrorCode, rdma, asio, nd, is_error, operation_aborted, invalid_handle,
  address_family_not_supported,
}
use rdma_on_asio.Nd.{
  ConnectState, idle, connecting, connected, closed, is_state, compare_exchange, Stage, Env, Log,
  Call, overlapped, plain, cancel_io_ex, connector_bind, connector_connect, complete_connect,
  connector_disconnect, work_started, on_pending, on_completion, is_pending,
}
use rdma_on_asio.Nd.Operations.{ConnectRun, capture_remote_pd, mark_connected}
use rdma_on_asio.Nd.Connector.{Connector, Device, get, local_address, effective_config, outgoing}

-- Where the operation stands. `handed (some ec)` was posted with its code, `handed none` waits for the
-- device.
pub data Pc : Type 0 where
  starting issuing marking : Pc
  handed : Option ErrorCode → Pc
  rejecting failing retired : ErrorCode → Pc

-- `pending` are the states that calls of disconnect() have replaced by `closed` and not acted on yet.
pub record Machine : Type 0 where
  pub run : ConnectRun
  pub pc : Pc
  pub pending : List ConnectState
  pub peer_closed : Bool

-- What `start_connect_op` was called with: the connector's interface and address do not change.
pub record Request : Type 0 where
  pub conn : Connector
  pub device : Device
  pub qp : ℕ
  pub endpoint : ℕ
  pub is_v4 : Bool
  pub private_data : List ℕ

-- An action of the schedule: the operation goes on, the scheduler completes it with a code of the
-- device's, a call of disconnect() makes its exchange, or acts on what that returned.
pub data Action : Type 0 where
  deliver : ErrorCode → Action
  go_on claim act : Action

abbrev pub log_call : Call → ConnectRun → ConnectRun
log_call c r = record r { log = c ∷ r.log }

-- The operation is posted with a code.
abbrev pub post : ErrorCode → ConnectRun → ConnectRun × Pc
post ec r = (log_call (on_completion ec) r, handed (some ec))

-- `start_connect_op` up to its exchange.
unfoldable pub publish : ConnectRun → ConnectRun × Pc
publish r =
    let (stored, s) = compare_exchange r.state idle connecting in
    let started = log_call work_started r in
    if stored
    then (record started { state = s }, issuing)
    else post (asio operation_aborted) started

module _ (env : Env) (q : Request) where
  -- The rest of `start_connect_op`.
  unfoldable pub issue : ConnectRun → ConnectRun × Pc
  unfolding plain overlapped
  issue r =
      let c = q.conn in
      let address = local_address c.adapter q.is_v4 in
      let (bind_ec, bound) = plain env (connector_bind (get c.connector) (get address)) r.log in
      let eff = effective_config q.device in
      let call =
        connector_connect (get c.connector) q.qp q.endpoint eff.inbound_read_limit
          eff.outbound_read_limit (outgoing q.private_data) in
      let (o, log') = overlapped env call bound in
      if not (is_some address)
      then post (rdma address_family_not_supported) r
      else if is_error bind_ec
      then post bind_ec (record r { log = bound })
      else if is_error o.ec || not (is_pending o.hr)
      then post o.ec (record r { log = log' })
      else (record r { log = on_pending ∷ log' }, handed none)

  -- `process_complete_connect` up to its first access to the state.
  unfoldable pub complete_connecting : ConnectRun → ConnectRun × Pc
  complete_connecting r =
      let r' = capture_remote_pd env r in
      let hr = env.hr r'.log (complete_connect r'.connector) in
      let r'' = log_call (complete_connect r'.connector) r' in
      let up = record r'' { stage = Stage.connected } in
      if is_negative hr
      then (r'', rejecting (nd hr))
      else if is_pending hr
      then (record up { log = on_pending ∷ work_started ∷ up.log }, handed none)
      else (up, marking)

  -- `do_complete` up to its first access to the state.
  unfoldable pub complete_at : ErrorCode → ConnectRun → ConnectRun × Pc
  unfolding complete_connecting
  complete_at ec r = if is_error ec then (r, failing ec) else elim r.stage [
    | Stage.connecting ↦ complete_connecting r
    | Stage.connected ↦ (r, marking)
    | Stage.done ↦ (record r { stage = Stage.error }, failing (rdma invalid_handle))
    | Stage.error ↦ (record r { stage = Stage.error }, failing (rdma invalid_handle))
  ]

  -- `mark_connected`, and what follows it.
  unfoldable pub mark : ConnectRun → ConnectRun × Pc
  unfolding mark_connected
  mark r =
      let (r', ec, stored) = mark_connected r in
      if stored then (record r' { stage = Stage.done }, retired ec) else (r', failing ec)

  -- The next segment of the operation.
  unfoldable pub proceed : ConnectRun → Pc → ConnectRun × Pc
  unfolding publish issue mark
  proceed r starting = publish r
  proceed r issuing = issue r
  proceed r marking = mark r
  proceed r (handed o) = (r, handed o)
  proceed r (rejecting ec) = (record r { state = closed; stage = Stage.error }, failing ec)
  proceed r (failing ec) = (record r { state = closed }, retired ec)
  proceed r (retired ec) = (r, retired ec)

  -- A posted operation completes with the code that it was posted with.
  unfoldable pub deliver_at : ErrorCode → ConnectRun → Pc → ConnectRun × Pc
  unfolding complete_at
  deliver_at ec r (handed none) = complete_at ec r
  deliver_at ec r (handed (some posted)) = complete_at posted r
  deliver_at ec r starting = (r, starting)
  deliver_at ec r issuing = (r, issuing)
  deliver_at ec r marking = (r, marking)
  deliver_at ec r (rejecting e) = (r, rejecting e)
  deliver_at ec r (failing e) = (r, failing e)
  deliver_at ec r (retired e) = (r, retired e)

  -- The `switch (old)` of disconnect(): the calls it makes.
  unfoldable pub act_calls : ConnectState → Log → Log
  unfolding overlapped
  act_calls idle log = log
  act_calls closed log = log
  act_calls connecting log = cancel_io_ex (get q.conn.connector_handle) ∷ log
  act_calls connected log =
      let started = work_started ∷ cancel_io_ex (get q.conn.connector_handle) ∷ log in
      let (o, log') = overlapped env (connector_disconnect (get q.conn.connector)) started in
      (if not (is_error o.ec) && is_pending o.hr then on_pending else on_completion o.ec) ∷ log'

  unfoldable pub act_pending : List ConnectState → Machine → Machine
  unfolding act_calls
  act_pending [] m = m
  act_pending (old ∷ rest) m = record m {
    run = record (m.run) { log = act_calls old m.run.log };
    pending = rest;
    peer_closed = true;
  }

  abbrev pub moved : Machine → ConnectRun × Pc → Machine
  moved m (r, pc) = record m { run = r; pc = pc }

-- The exchange loop of disconnect(), which returns at once where the state is `closed`.
unfoldable pub claim_by_disconnect : Machine → Machine
claim_by_disconnect m =
    if is_state m.run.state closed
    then m
    else record m { run = record (m.run) { state = closed }; pending = m.run.state ∷ m.pending }

module _ (env : Env) (q : Request) where
  unfoldable pub step : Action → Machine → Machine
  unfolding proceed deliver_at act_pending claim_by_disconnect
  step (deliver ec) m = moved env q m (deliver_at env q ec m.run m.pc)
  step go_on m = moved env q m (proceed env q m.run m.pc)
  step claim m = claim_by_disconnect m
  step act m = act_pending env q m.pending m

  unfoldable pub run : List Action → Machine → Machine
  run [] m = m
  run (a ∷ actions) m = run actions (step a m)

-- async_connect behind its guards; no call of disconnect() yet.
abbrev pub start : ConnectRun → Machine
start r = record { run = r; pc = starting; pending = []; peer_closed = false }
