-- ===== src/Accept.antt =====
-- ibv/detail/ibv_op_accept.hpp and ibv/detail/impl/ibv_op_wait_disconnect.ipp: the operations of an
-- accepted connector that stay on its channel, waiting for ESTABLISHED and for the disconnection.
pub mod Balance
use rdma_on_asio.Base.{ℕ, Bool, true, false, ◌&&◌, Option, none, some, List, ◌∷◌, if◌then◌else◌}
use rdma_on_asio.Error.{
  ErrorCode, rdma, asio, cleared, is_error, is_aborted, operation_aborted, connection_aborted,
  connection_refused, device_removed,
}
use rdma_on_asio.Error
use rdma_on_asio.Cm
use rdma_on_asio.Cm.{
  Env, Log, Act, CmEvent, get_cm_event, rdma_ack_cm_event, established, rejected, connect_error,
  disconnected, device_removal,
}
use rdma_on_asio.Connect.{
  ConnectState, connecting, connected, closed, compare_exchange, claim_closed, Status, not_done,
  done, modify_qp,
}

-- `ibv_accept_op`, with the connector's state that it points at, and the calls made.
pub record AcceptRun : Type 0 where
  pub state : ConnectState
  pub ec : ErrorCode
  pub channel : ℕ
  pub cm_id : ℕ
  pub min_rnr_timer : ℕ
  pub log : Log

-- `ec_ = e; if (!claim_closed()) ec_ = operation_aborted;`
unfoldable pub fail_accept : AcceptRun → ErrorCode → AcceptRun
fail_accept r e =
    let (claimed, s) = claim_closed r.state in
    record r { state = s; ec = if claimed then e else asio operation_aborted }

-- ESTABLISHED: the timer is applied, or the connection torn down where `disconnect()` came first.
unfoldable pub establish : Env → AcceptRun → AcceptRun
unfolding modify_qp Cm.disconnect
establish env r =
    let (stored, s) = compare_exchange r.state connecting connected in
    let (ec, log) = modify_qp env r.cm_id r.min_rnr_timer r.log in
    let (ignored, log') = Cm.disconnect env (some r.cm_id) r.log in
    if stored
    then record r { state = s; ec = ec; log = log }
    else record r { ec = asio operation_aborted; log = log' }

unfoldable pub accept_event : Env → CmEvent → AcceptRun → AcceptRun
unfolding establish fail_accept
accept_event env e r = elim e.event [
  | established ↦ establish env r
  | rejected ↦ fail_accept r (asio connection_refused)
  | connect_error ↦ fail_accept r (asio connection_aborted)
  | _ ↦ fail_accept r (asio connection_aborted)
]

unfoldable pub accept_perform : Env → AcceptRun → AcceptRun × Status
unfolding accept_event get_cm_event
accept_perform env r =
    let ((rc, event, ec), log) = get_cm_event env r.channel r.log in
    let r' = record r { ec = ec; log = log } in
    if is_error ec then (r', done) else elim event [
      | none ↦ (r', not_done)
      | some e ↦
          let r'' = accept_event env e r' in
          (record r'' { log = rdma_ack_cm_event e.event ∷ r''.log }, done)
    ]

-- The part of `do_complete` that touches the connector.
unfoldable pub accept_complete : Bool → AcceptRun → AcceptRun
accept_complete owner r = if owner && is_aborted r.ec then record r { state = closed } else r

-- `ibv_wait_disconnect_op_base`, with the latch that it points at.
pub record Watch : Type 0 where
  pub peer_closed : Bool
  pub ec : ErrorCode
  pub channel : ℕ
  pub log : Log

-- The latch and the code after an event, and whether the watcher retires.
unfoldable pub watch_event : CmEvent → Watch → Watch × Status
watch_event e w = elim e.event [
  | disconnected ↦ (record w { peer_closed = true; ec = rdma Error.disconnected }, done)
  | device_removal ↦ (record w { peer_closed = true; ec = rdma device_removed }, done)
  | _ ↦ (w, not_done)
]

unfoldable pub watch_perform : Env → Watch → Watch × Status
unfolding watch_event get_cm_event
watch_perform env w =
    let ((rc, event, ec), log) = get_cm_event env w.channel w.log in
    let w' = record w { ec = ec; log = log } in
    if is_error ec then (w', done) else elim event [
      | none ↦ (w', not_done)
      | some e ↦
          let (w'', status) = watch_event e w' in
          (record w'' { log = rdma_ack_cm_event e.event ∷ w''.log }, status)
    ]
