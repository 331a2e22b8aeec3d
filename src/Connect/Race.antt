-- ===== src/Connect/Race.antt =====
-- The connect operation on the reactor's thread against disconnect() on others
-- (ibv/detail/impl/ibv_op_connect.ipp and ibv/detail/ibv_service_connector.hpp): each action below makes
-- at most one access to `connect_state_`, and a schedule is any list of them.
pub mod Segments
pub mod Counts
pub mod Delivery
pub mod Routing
pub mod Invariant
pub mod Order
pub mod Teardown
use rdma_on_asio.Base.{
  ℕ, Bool, true, false, not, ◌&&◌, ◌||◌, Option, none, some, List, [], ◌∷◌, if◌then◌else◌, is_some,
}
use rdma_on_asio.Base.Int.{ℤ, is_nonzero}
use rdma_on_asio.Error.{
  ErrorCode, system, rdma, asio, cleared, is_error, operation_aborted, connection_aborted,
  connection_refused, host_unreachable, invalid_device,
}
use rdma_on_asio.Cm
use rdma_on_asio.Cm.{
  Env, Log, CmEvent, EventType, is_established, resolve_route, disconnect, rdma_ack_cm_event,
  rdma_get_cm_event, established, addr_resolved, addr_error, route_resolved, route_error,
  connect_error, unreachable, rejected,
}
use rdma_on_asio.Connect.{
  ConnectState, idle, addr_resolve, addr_route, connecting, connected, closed, is_state,
  compare_exchange, Stage, ConnectOp, Run, advance, set_ec, fail, status_error, run_create_qp,
  connect_param, adopt, tear_down, do_complete,
}

-- Where the operation stands. `do_perform` is past its first access to the state, holding the event,
-- from `routing` to `claiming`.
pub data Pc : Type 0 where
  starting arming armed finished completed : Pc
  routing calling_connect adopting tearing : CmEvent → Pc
  claiming : CmEvent → ErrorCode → Pc

-- `pending` are the states that calls of disconnect() have replaced by `closed` and not acted on yet.
pub record Machine : Type 0 where
  pub run : Run
  pub pc : Pc
  pub pending : List ConnectState

-- The first access: the exchange of each stage, or none where the event is a failure.
unfoldable pub begin_at : Stage → CmEvent → Run → Run × Pc
begin_at Stage.addr_resolve e r = elim e.event [
  | addr_resolved ↦
      let (stored, r') = advance r addr_resolve addr_route in
      if stored then (r', routing e) else (set_ec r (asio operation_aborted), finished)
  | addr_error ↦ (r, claiming e (status_error e))
  | _ ↦ (r, claiming e (asio connection_aborted))
]
begin_at Stage.addr_route e r = elim e.event [
  | route_resolved ↦
      let (stored, r') = advance r addr_route connecting in
      if stored then (r', calling_connect e) else (set_ec r (asio operation_aborted), finished)
  | route_error ↦ (r, claiming e (status_error e))
  | _ ↦ (r, claiming e (asio connection_aborted))
]
begin_at Stage.connect e r = elim e.event [
  | established ↦
      let (stored, r') = advance r connecting connected in
      if stored then (r', adopting e) else (r, tearing e)
  | connect_error ↦ (r, claiming e (asio connection_aborted))
  | unreachable ↦ (r, claiming e (asio host_unreachable))
  | rejected ↦ (r, claiming e (asio connection_refused))
  | _ ↦ (r, claiming e (asio connection_aborted))
]
begin_at Stage.done e r = (set_ec r (rdma invalid_device), finished)
begin_at Stage.error e r = (set_ec r (rdma invalid_device), finished)

-- The event leaves its scope.
abbrev pub ack : CmEvent → Run → Run
ack e r = record r { log = rdma_ack_cm_event e.event ∷ r.log }

-- An exit of `do_process` that needs no further access acknowledges at once.
abbrev pub ack_if_finished : CmEvent → Run × Pc → Run × Pc
ack_if_finished e (r, finished) = (ack e r, finished)
ack_if_finished e (r, starting) = (r, starting)
ack_if_finished e (r, arming) = (r, arming)
ack_if_finished e (r, armed) = (r, armed)
ack_if_finished e (r, completed) = (r, completed)
ack_if_finished e (r, routing f) = (r, routing f)
ack_if_finished e (r, calling_connect f) = (r, calling_connect f)
ack_if_finished e (r, adopting f) = (r, adopting f)
ack_if_finished e (r, tearing f) = (r, tearing f)
ack_if_finished e (r, claiming f ec) = (r, claiming f ec)

module _ (env : Env) where
  -- `create_and_route` up to its claim of `closed`.
  unfoldable pub route_segment : CmEvent → Run → Run × Pc
  unfolding resolve_route
  route_segment e r =
      let (qp_ec, log) = run_create_qp r.op.create_qp r.op.ec r.log in
      let r' = set_ec (record r { log = log }) qp_ec in
      let (o, log') = resolve_route env (some r.op.cm_id) r.op.timeout log in
      let r'' = set_ec (record r { log = log' }) o.ec in
      if is_some r.op.create_qp && is_error qp_ec
      then (r', claiming e qp_ec)
      else if is_nonzero o.rc
      then (r'', claiming e o.ec)
      else (ack e (record r'' { op = record (r''.op) { stage = Stage.addr_route } }), armed)

  -- `start_connect` up to its claim of `closed`.
  unfoldable pub connect_segment : CmEvent → Run → Run × Pc
  unfolding Cm.connect
  connect_segment e r =
      let (o, log) = Cm.connect env (some r.op.cm_id) (connect_param r.op) r.log in
      let r' = set_ec (record r { log = log }) o.ec in
      if is_nonzero o.rc
      then (r', claiming e o.ec)
      else (ack e (record r' { op = record (r'.op) { stage = Stage.connect } }), armed)

  -- The end of `start_connect_op`, after rdma_resolve_addr succeeded: publish the operation, to be
  -- armed next.
  unfoldable pub publish : Run → Run × Pc
  publish r =
      let (stored, s) = compare_exchange r.state idle addr_resolve in
      if stored
      then (set_ec (record r { state = s }) cleared, arming)
      else (set_ec r (asio operation_aborted), finished)

  -- The next segment of the operation.
  unfoldable pub proceed : Run → Pc → Run × Pc
  unfolding publish route_segment connect_segment adopt tear_down fail
  proceed r starting = publish r
  proceed r arming = (r, armed)
  proceed r armed = (r, armed)
  proceed r finished = (do_complete true r, completed)
  proceed r completed = (r, completed)
  proceed r (routing e) = route_segment e r
  proceed r (calling_connect e) = connect_segment e r
  proceed r (adopting e) = (ack e (adopt env e r).0, finished)
  proceed r (tearing e) = (ack e (tear_down env r).0, finished)
  proceed r (claiming e ec) = (ack e (fail r ec).0, finished)

-- An action of the schedule: an event is delivered, pulling one fails, the operation goes on, its own
-- cancellation strikes, a call of disconnect() makes its exchange, or acts on what that returned.
pub data Action : Type 0 where
  deliver : CmEvent → Action
  fault : ℤ → Action
  go_on cancel claim act : Action

-- rdma_cm reports ESTABLISHED only after rdma_connect was issued.
abbrev pub is_due : CmEvent → Stage → Bool
is_due e Stage.connect = true
is_due e Stage.addr_resolve = not (is_established e.event)
is_due e Stage.addr_route = not (is_established e.event)
is_due e Stage.done = not (is_established e.event)
is_due e Stage.error = not (is_established e.event)

abbrev pub is_armed : Pc → Bool
is_armed armed = true
is_armed starting = false
is_armed arming = false
is_armed finished = false
is_armed completed = false
is_armed (routing e) = false
is_armed (calling_connect e) = false
is_armed (adopting e) = false
is_armed (tearing e) = false
is_armed (claiming e ec) = false

-- The reactor holds the descriptor's lock while the operation performs, so cancel_ops waits.
abbrev pub is_settled : Pc → Bool
is_settled starting = true
is_settled arming = true
is_settled armed = true
is_settled finished = true
is_settled completed = true
is_settled (routing e) = false
is_settled (calling_connect e) = false
is_settled (adopting e) = false
is_settled (tearing e) = false
is_settled (claiming e ec) = false

-- The reactor retires an armed operation with `operation_aborted`; others it does not find.
abbrev pub cancel_armed : Machine → Machine
cancel_armed m =
    if is_armed m.pc
    then record m { run = set_ec m.run (asio operation_aborted); pc = finished }
    else m

abbrev pub moved : Machine → Run × Pc → Machine
moved m (r, pc) = record m { run = r; pc = pc }

-- `rdma_get_cm_event` reported an event.
abbrev pub got : Run → Run
got r = record r {
  op = record (r.op) { ec = cleared };
  log = rdma_get_cm_event r.op.channel ∷ r.log;
}

unfoldable pub deliver_event : CmEvent → Machine → Machine
unfolding begin_at
deliver_event e m =
    if is_armed m.pc && is_due e m.run.op.stage
    then moved m (ack_if_finished e (begin_at m.run.op.stage e (got m.run)))
    else m

-- The exchange loop of disconnect(), which returns at once where the state is `closed`.
unfoldable pub claim_by_disconnect : Machine → Machine
claim_by_disconnect m =
    if is_state m.run.state closed
    then m
    else record m { run = record (m.run) { state = closed }; pending = m.run.state ∷ m.pending }

-- The `switch (old)` of disconnect().
unfoldable pub act_on : Env → ConnectState → Machine → Machine
unfolding disconnect
act_on env idle m = m
act_on env addr_resolve m = cancel_armed m
act_on env addr_route m = cancel_armed m
act_on env connecting m = cancel_armed m
act_on env connected m =
    let m' = cancel_armed m in
    record m' {
      run = record (m'.run) { log = (disconnect env (some m'.run.op.cm_id) m'.run.log).1 };
    }
act_on env closed m = m

unfoldable pub act_pending : Env → List ConnectState → Machine → Machine
unfolding act_on
act_pending env [] m = m
act_pending env (old ∷ rest) m =
    if is_settled m.pc then act_on env old (record m { pending = rest }) else m

unfoldable pub step : Env → Action → Machine → Machine
unfolding deliver_event proceed claim_by_disconnect act_pending
step env (deliver e) m = deliver_event e m
step env (fault errno) m =
    if is_armed m.pc then record m { run = set_ec (got m.run) (system errno); pc = finished } else m
step env go_on m = moved m (proceed env m.run m.pc)
step env cancel m = cancel_armed m
step env claim m = claim_by_disconnect m
step env act m = act_pending env m.pending m

unfoldable pub run : Env → List Action → Machine → Machine
run env [] m = m
run env (a ∷ actions) m = run env actions (step env a m)

-- async_connect on an idle connector, rdma_resolve_addr having succeeded; no call of disconnect() yet.
abbrev pub start : ConnectOp → Log → Machine
start op log = record {
  run = record { state = idle; op = op; log = log };
  pc = starting;
  pending = [];
}
