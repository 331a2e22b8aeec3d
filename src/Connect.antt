-- ===== src/Connect.antt =====
-- connect_state (ibv/detail/ibv_impl_types.hpp) and the connect operation: ibv/detail/ibv_op_connect.hpp
-- and impl/ibv_op_connect.ipp, with ibv_op_cm. The operation and the connector share `state`.
pub mod Race
use rdma_on_asio.Base.{
  ℕ, suc, ◌%◌, Bool, true, false, not, ◌&&◌, min, Option, none, some, List, [], ◌∷◌, if◌then◌else◌,
  ◌==◌, length, take, is_some,
}
use rdma_on_asio.Base.Int.{ℤ, pos, neg, is_nonzero}
use rdma_on_asio.Error.{
  ErrorCode, system, rdma, asio, cleared, is_error, is_aborted, operation_aborted,
  connection_aborted, connection_refused, host_unreachable, ehostunreach, invalid_device,
}
use rdma_on_asio.Cm
use rdma_on_asio.Cm.{
  Env, Log, Act, EventType, CmEvent, ConnParam, Outcome, ibv_modify_qp, get_cm_event, resolve_route,
  disconnect, rdma_ack_cm_event, established, addr_resolved, addr_error, route_resolved,
  route_error, connect_error, unreachable, rejected,
}

pub data ConnectState : Type 0 where
  idle addr_resolve addr_route connecting connected closed : ConnectState

-- The enumerators in order, from 0.
abbrev pub to_int : ConnectState → ℕ
to_int idle = 0
to_int addr_resolve = 1
to_int addr_route = 2
to_int connecting = 3
to_int connected = 4
to_int closed = 5

abbrev pub is_state : ConnectState → ConnectState → Bool
is_state a b = to_int a == to_int b

-- `compare_exchange_strong(e = from, to)`: whether it stored, and the state after it.
abbrev pub compare_exchange : ConnectState → ConnectState → ConnectState → Bool × ConnectState
compare_exchange current from to = if is_state current from then (true, to) else (false, current)

-- Shared by the connect and the accept operation. A weak exchange that fails spuriously is retried with
-- the state unchanged, so the loop ends in one of two ways.
abbrev pub claim_closed : ConnectState → Bool × ConnectState
claim_closed current = if is_state current closed then (false, closed) else (true, closed)

pub data Status : Type 0 where
  not_done done : Status

pub data Stage : Type 0 where
  addr_resolve addr_route connect done error : Stage

abbrev pub max_outgoing_private_data : ℕ
max_outgoing_private_data = 255

-- `ibv_create_qp_fn`: null, or the queue pair's callback.
abbrev pub CreateQp : Type 0
CreateQp = Option (Act ErrorCode)

-- `ibv_connect_op_base`, once armed (the id is not null). `reply` are the bytes written to the caller's
-- reply buffer, `reply_len` of them; `request` the bytes copied.
pub record ConnectOp : Type 0 where
  pub stage : Stage
  pub ec : ErrorCode
  pub channel : ℕ
  pub cm_id : ℕ
  pub timeout : ℕ
  pub request : List ℕ
  pub has_reply_buf : Bool
  pub reply_cap : ℕ
  pub reply : List ℕ
  pub responder_resources : ℕ
  pub initiator_depth : ℕ
  pub rnr_retry : ℕ
  pub min_rnr_timer : ℕ
  pub create_qp : CreateQp

-- What the operation reads and writes while it runs.
pub record Run : Type 0 where
  pub state : ConnectState
  pub op : ConnectOp
  pub log : Log

-- `advance(from, to)`
abbrev pub advance : Run → ConnectState → ConnectState → Bool × Run
advance r from to =
    let (stored, s) = compare_exchange r.state from to in (stored, record r { state = s })

abbrev pub set_ec : Run → ErrorCode → Run
set_ec r e = record r { op = record (r.op) { ec = e } }

unfoldable pub aborted_by_disconnect : Run → Run × Status
aborted_by_disconnect r = (set_ec r (asio operation_aborted), done)

-- `ec_ = e; if (!claim_closed()) ec_ = operation_aborted; return done;`
unfoldable pub fail : Run → ErrorCode → Run × Status
fail r e =
    let (claimed, s) = claim_closed r.state in
    let r' = record r { state = s } in
    (set_ec r' (if claimed then e else asio operation_aborted), done)

-- `make_system_error_code(event->status ? -event->status : EHOSTUNREACH)`
abbrev pub status_error : CmEvent → ErrorCode
status_error e = system (if is_nonzero e.status then neg e.status else pos ehostunreach)

-- `if (create_qp_) ec_ = create_qp_(cm_id_);`
abbrev pub run_create_qp : CreateQp → ErrorCode → Act ErrorCode
run_create_qp none ec log = (ec, log)
run_create_qp (some f) ec log = f log

-- `verbs_ops::modify_qp`
unfoldable pub modify_qp : Env → ℕ → ℕ → Act ErrorCode
modify_qp env cm_id min_rnr_timer log =
    let r = env.answer log (ibv_modify_qp cm_id min_rnr_timer) in
    (
      if is_nonzero r.value then system r.value else cleared,
      ibv_modify_qp cm_id min_rnr_timer ∷ log,
    )

-- What is copied of the server's private data.
abbrev pub received_reply : ConnectOp → Option (List ℕ) → List ℕ
received_reply op none = op.reply
received_reply op (some bytes) =
    if op.has_reply_buf && not (op.reply_cap == 0) && not (length bytes == 0)
    then take (min (length bytes) op.reply_cap) bytes
    else op.reply

-- The parameters of `rdma_connect`.
abbrev pub connect_param : ConnectOp → ConnParam
connect_param op = record {
  private_data = if length op.request == 0 then none else some op.request;
  private_data_len = length op.request;
  responder_resources = op.responder_resources;
  initiator_depth = op.initiator_depth;
  retry_count = 7;
  rnr_retry_count = op.rnr_retry;
}

module _ (env : Env) where
  -- Behind the first `advance`: create the QP, then resolve the route.
  unfoldable pub create_and_route : Run → Run × Status
  unfolding fail resolve_route
  create_and_route r =
      let (qp_ec, log) = run_create_qp r.op.create_qp r.op.ec r.log in
      let r' = set_ec (record r { log = log }) qp_ec in
      let (o, log') = resolve_route env (some r.op.cm_id) r.op.timeout log in
      let r'' = set_ec (record r { log = log' }) o.ec in
      if is_some r.op.create_qp && is_error qp_ec
      then fail r' qp_ec
      else if is_nonzero o.rc
      then fail r'' o.ec
      else (record r'' { op = record (r''.op) { stage = Stage.addr_route } }, not_done)

  unfoldable pub do_process_addr_resolve : CmEvent → Run → Run × Status
  unfolding create_and_route aborted_by_disconnect
  do_process_addr_resolve e r = elim e.event [
    | addr_resolved ↦
        let (stored, r') = advance r addr_resolve addr_route in
        if stored then create_and_route r' else aborted_by_disconnect r
    | addr_error ↦ fail r (status_error e)
    | _ ↦ fail r (asio connection_aborted)
  ]

  -- Behind the second `advance`: `rdma_connect`.
  unfoldable pub start_connect : Run → Run × Status
  unfolding fail Cm.connect
  start_connect r =
      let (o, log) = Cm.connect env (some r.op.cm_id) (connect_param r.op) r.log in
      let r' = set_ec (record r { log = log }) o.ec in
      if is_nonzero o.rc
      then fail r' o.ec
      else (record r' { op = record (r'.op) { stage = Stage.connect } }, not_done)

  unfoldable pub do_process_addr_route : CmEvent → Run → Run × Status
  unfolding start_connect aborted_by_disconnect
  do_process_addr_route e r = elim e.event [
    | route_resolved ↦
        let (stored, r') = advance r addr_route connecting in
        if stored then start_connect r' else aborted_by_disconnect r
    | route_error ↦ fail r (status_error e)
    | _ ↦ fail r (asio connection_aborted)
  ]

  -- The exchange to `connected` stored: keep the reply, apply the timer.
  unfoldable pub adopt : CmEvent → Run → Run × Status
  unfolding modify_qp
  adopt e r =
      let op' = record (r.op) { reply = received_reply r.op e.private_data } in
      let (ec, log) = modify_qp env r.op.cm_id r.op.min_rnr_timer r.log in
      (set_ec (record r { op = op'; log = log }) ec, done)

  -- The exchange failed: `disconnect()` came first, so the connection is torn down here.
  unfoldable pub tear_down : Run → Run × Status
  unfolding disconnect
  tear_down r =
      let (ignored, log) = disconnect env (some r.op.cm_id) r.log in
      (set_ec (record r { log = log }) (asio operation_aborted), done)

  unfoldable pub do_process_connect : CmEvent → Run → Run × Status
  unfolding adopt tear_down fail
  do_process_connect e r = elim e.event [
    | established ↦
        let (stored, r') = advance r connecting connected in
        if stored then adopt e r' else tear_down r
    | connect_error ↦ fail r (asio connection_aborted)
    | unreachable ↦ fail r (asio host_unreachable)
    | rejected ↦ fail r (asio connection_refused)
    | _ ↦ fail r (asio connection_aborted)
  ]

  unfoldable pub do_process_at : Stage → CmEvent → Run → Run × Status
  unfolding do_process_addr_resolve do_process_addr_route do_process_connect
  do_process_at addr_resolve e r = do_process_addr_resolve e r
  do_process_at addr_route e r = do_process_addr_route e r
  do_process_at connect e r = do_process_connect e r
  do_process_at done e r = (set_ec r (rdma invalid_device), done)
  do_process_at error e r = (set_ec r (rdma invalid_device), done)

  unfoldable pub do_process : CmEvent → Run → Run × Status
  unfolding do_process_at
  do_process e r = do_process_at r.op.stage e r

  -- One readiness of the descriptor. The event is acknowledged when it goes out of scope.
  unfoldable pub do_perform : Run → Run × Status
  unfolding do_process get_cm_event
  do_perform r =
      let ((rc, event, ec), log) = get_cm_event env r.op.channel r.log in
      let r' = set_ec (record r { log = log }) ec in
      if is_error ec then (r', done) else elim event [
        | none ↦ (r', not_done)
        | some e ↦
            let (r'', status) = do_process e r' in
            (record r'' { log = rdma_ack_cm_event e.event ∷ r''.log }, status)
      ]

-- The part of `do_complete` that touches the connector: an aborted operation closes it.
unfoldable pub do_complete : Bool → Run → Run
do_complete owner r = if owner && is_aborted r.op.ec then record r { state = closed } else r
