-- ===== src/Connector.antt =====
-- ibv/detail/ibv_service_connector.hpp: the connector's operations on its event channel, its id, its
-- state and the latch of the peer's close. `device` is the effective configuration of
-- ibv/detail/ibv_service_device.hpp, none before `use_device`.
pub mod Valid
pub mod Moves
pub mod Starting
pub mod Teardown
use rdma_on_asio.Base.{
  ℕ, Bool, true, false, not, ◌&&◌, ◌||◌, Option, none, some, List, [], ◌∷◌, if◌then◌else◌, ◌==◌,
  ltb, length, is_some, take, min,
}
use rdma_on_asio.Base.Int.{ℤ, is_nonzero}
use rdma_on_asio.Error.{
  ErrorCode, system, rdma, asio, cleared, is_error, already_open, device_not_registered,
  invalid_handle, private_data_too_large, connector_terminal, operation_aborted, disconnected,
}
use rdma_on_asio.Config.{Config, default_config, default_cm_resolve_timeout_ms}
use rdma_on_asio.Cm
use rdma_on_asio.Cm.{
  Env, Log, Act, ConnParam, create_event_channel, create_cm_id, resolve_addr, drain_cm_events,
  register_descriptor, deregister_descriptor, cleanup_descriptor_data, start_op, cancel_ops,
  post_immediate_completion, rdma_destroy_event_channel, rdma_destroy_id, rdma_destroy_qp,
}
use rdma_on_asio.Connect.{
  ConnectState, idle, addr_resolve, addr_route, connecting, connected, closed, is_state,
  compare_exchange, Stage, ConnectOp, CreateQp, run_create_qp, max_outgoing_private_data,
}

-- The connector's `implementation_type`. A channel's descriptor is named by the channel.
pub record Connector : Type 0 where
  pub cm_channel : Option ℕ
  pub cm_id : Option ℕ
  pub state : ConnectState
  pub peer_closed : Bool

-- `get()` of a holder: 0 is null.
abbrev pub get : Option ℕ → ℕ
get none = 0
get (some h) = h

-- `construct`
abbrev pub construct : Connector
construct = record { cm_channel = none; cm_id = none; state = idle; peer_closed = false }

abbrev pub is_open : Connector → Bool
is_open c = is_some c.cm_id

-- What an initiating function leaves of the operation: its code, and the connector.
pub record Initiated : Type 0 where
  pub connector : Connector
  pub ec : ErrorCode

-- `op->ec_ = e; reactor_.post_immediate_completion(op, false);`
abbrev pub complete_now : Connector → ErrorCode → Act Initiated
complete_now c e log = (record { connector = c; ec = e }, post_immediate_completion ∷ log)

-- `op->ec_ = error_code{}; reactor_.start_op(read_op, cm_channel_->fd, ...)`
abbrev pub arm : Connector → Act Initiated
arm c log = (record { connector = c; ec = cleared }, start_op (get c.cm_channel) ∷ log)

abbrev pub effective_config : Option Config → Config
effective_config none = default_config
effective_config (some c) = c

abbrev pub cm_timeout : Option Config → ℕ
cm_timeout device =
    let t = (effective_config device).cm_resolve_timeout_ms in
    if t == 0 then default_cm_resolve_timeout_ms else t

unfoldable pub to_u8 : ℕ → ℕ
to_u8 v = if ltb 255 v then 255 else v

-- The parameters of `rdma_accept`.
abbrev pub accept_param : Option Config → List ℕ → ConnParam
unfolding to_u8
accept_param device private_data = record {
  private_data = if length private_data == 0 then none else some private_data;
  private_data_len = length private_data;
  responder_resources = to_u8 (effective_config device).inbound_read_limit;
  initiator_depth = to_u8 (effective_config device).outbound_read_limit;
  retry_count = 0;
  rnr_retry_count = (effective_config device).rnr_retry;
}

unfoldable pub async_wait_disconnect : Connector → Act Initiated
async_wait_disconnect c log =
    if c.peer_closed || is_state c.state closed
    then complete_now c (rdma disconnected) log
    else if not (is_open c)
    then complete_now c (rdma invalid_handle) log
    else arm c log

-- `created` is the id that a successful `rdma_create_id` writes, `has_qp` whether `cm_id->qp` is set,
-- both after the calls made so far.
module _ (env : Env) (created : Log → ℕ) where
  -- The holders of a failed open destroy what it made, the id before its channel.
  unfoldable pub open_impl : Option Config → Connector → Act (Connector × ErrorCode)
  unfolding create_event_channel create_cm_id
  open_impl device c log =
      let ((channel, channel_ec), log') = create_event_channel env log in
      let fd = get channel in
      let (made, log'') = create_cm_id env fd log' in
      let id = created log' in
      let err = (env.answer log'' (register_descriptor fd)).value in
      let log''' = register_descriptor fd ∷ log'' in
      if is_open c
      then ((c, asio already_open), log)
      else if not (is_some device)
      then ((c, rdma device_not_registered), log)
      else if is_error channel_ec
      then ((c, channel_ec), log')
      else if is_nonzero made.rc
      then ((c, made.ec), rdma_destroy_event_channel fd ∷ log'')
      else if is_nonzero err
      then ((c, system err), rdma_destroy_event_channel fd ∷ rdma_destroy_id id ∷ log''')
      else (
        (
          record { cm_channel = channel; cm_id = some id; state = idle; peer_closed = false },
          cleared,
        ),
        log''',
      )

module _ (env : Env) where
  -- The connector, the handle as it is left, and the code.
  unfoldable pub assign :
      Option ℕ × Option ℕ → Connector → Act (Connector × (Option ℕ × Option ℕ) × ErrorCode)
  assign (channel, id) c log =
      let fd = get channel in
      let err = (env.answer log (register_descriptor fd)).value in
      let log' = register_descriptor fd ∷ log in
      if is_open c
      then ((c, (channel, id), asio already_open), log)
      else if not (is_some channel) || not (is_some id)
      then ((c, (channel, id), rdma invalid_handle), log)
      else if is_nonzero err
      then ((c, (channel, id), system err), log')
      else (
        (
          record { cm_channel = channel; cm_id = id; state = idle; peer_closed = false },
          (none, none),
          cleared,
        ),
        log',
      )

  unfoldable pub start_connect_op : Option Config → ℕ → Connector → Act Initiated
  unfolding resolve_addr
  start_connect_op device endpoint c log =
      let (o, log') = resolve_addr env c.cm_id endpoint (cm_timeout device) log in
      let (stored, s) = compare_exchange c.state idle addr_resolve in
      if is_nonzero o.rc
      then complete_now (record c { state = closed }) o.ec log'
      else if stored
      then arm (record c { state = s }) log'
      else complete_now c (asio operation_aborted) log'

  unfoldable pub start_accept_op : Option Config → CreateQp → List ℕ → Connector → Act Initiated
  unfolding Cm.accept
  start_accept_op device create_qp private_data c log =
      let (stored, s) = compare_exchange c.state idle connecting in
      let c' = record c { state = s } in
      let (qp_ec, log') = run_create_qp create_qp cleared log in
      let (o, log'') = Cm.accept env c.cm_id (accept_param device private_data) log' in
      if not stored
      then complete_now c (asio operation_aborted) log
      else if is_some create_qp && is_error qp_ec
      then complete_now (record c' { state = closed }) qp_ec log'
      else if is_nonzero o.rc
      then complete_now (record c' { state = closed }) o.ec log''
      else arm c' log''

  -- `async_accept`, and `async_move_accept` behind the error of its queue pair's binding.
  unfoldable pub async_accept : Option Config → CreateQp → List ℕ → Connector → Act Initiated
  unfolding start_accept_op
  async_accept device create_qp private_data c log =
      if not (is_some device)
      then complete_now c (rdma device_not_registered) log
      else if not (is_open c)
      then complete_now c (rdma invalid_handle) log
      else if ltb max_outgoing_private_data (length private_data)
      then complete_now c (rdma private_data_too_large) log
      else if not (is_state c.state idle)
      then complete_now c (rdma connector_terminal) log
      else start_accept_op device create_qp private_data c log

  unfoldable pub async_move_accept :
      ErrorCode → Option Config → CreateQp → List ℕ → Connector → Act Initiated
  unfolding async_accept
  async_move_accept bind_ec device create_qp private_data c log =
      if is_error bind_ec
      then complete_now c bind_ec log
      else async_accept device create_qp private_data c log

  -- The state is read and exchanged at one point here: Connect/Race.antt interleaves.
  unfoldable pub disconnect : Connector → Act (Connector × ErrorCode)
  unfolding Cm.disconnect
  disconnect c log =
      let cancelled = if is_some c.cm_channel then cancel_ops (get c.cm_channel) ∷ log else log in
      let (o, log') = Cm.disconnect env c.cm_id cancelled in
      let c' = record c { state = closed } in
      if not (is_open c) then ((c, rdma invalid_handle), log) else elim c.state [
        | closed ↦ ((c, cleared), log)
        | addr_resolve ↦ ((c', cleared), cancelled)
        | addr_route ↦ ((c', cleared), cancelled)
        | connecting ↦ ((c', cleared), cancelled)
        | connected ↦ ((c', o.ec), log')
        | idle ↦ ((c', cleared), log)
      ]

-- The guards of `async_connect` behind the automatic open, whose code is `open_ec`.
unfoldable pub connect_checked :
    Env → Option Config → ℕ → List ℕ → Connector → ErrorCode → Act Initiated
unfolding start_connect_op
connect_checked env device endpoint request c open_ec log =
    if is_error open_ec
    then complete_now c open_ec log
    else if ltb max_outgoing_private_data (length request)
    then complete_now c (rdma private_data_too_large) log
    else if not (is_state c.state idle)
    then complete_now c (rdma connector_terminal) log
    else start_connect_op env device endpoint c log

unfoldable pub async_connect :
    Env → (Log → ℕ) → Option Config → ℕ → List ℕ → Connector → Act Initiated
unfolding open_impl connect_checked
async_connect env created device endpoint request c log =
    if is_open c
    then connect_checked env device endpoint request c cleared log
    else let ((c', open_ec), log') = open_impl env created device c log in
      connect_checked env device endpoint request c' open_ec log'

-- The operation that `async_connect` makes.
abbrev pub connect_op : Option Config → CreateQp → List ℕ → Bool → ℕ → Connector → ConnectOp
unfolding to_u8
connect_op device create_qp request has_reply_buf reply_cap c = record {
  stage = Stage.addr_resolve;
  ec = cleared;
  channel = get c.cm_channel;
  cm_id = get c.cm_id;
  timeout = cm_timeout device;
  request = take (min (length request) max_outgoing_private_data) request;
  has_reply_buf = has_reply_buf;
  reply_cap = reply_cap;
  reply = [];
  responder_resources = to_u8 (effective_config device).inbound_read_limit;
  initiator_depth = to_u8 (effective_config device).outbound_read_limit;
  rnr_retry = (effective_config device).rnr_retry;
  min_rnr_timer = (effective_config device).min_rnr_timer;
  create_qp = create_qp;
}

-- What goes before the drain, and after it: the queue pair, the id and the channel, in this order.
unfoldable pub close_for_destruction :
    Env → (Log → ℕ → Bool) → ℕ → Connector → Log → Option (Connector × Log)
unfolding drain_cm_events
close_for_destruction env has_qp fuel c log =
    let deregistered =
      if is_some c.cm_channel
      then cleanup_descriptor_data ∷ deregister_descriptor (get c.cm_channel) ∷ log
      else log in
    elim (drain_cm_events fuel env c.cm_channel c.cm_id deregistered) [
      | none ↦ none
      | some drained ↦
          let qp =
            if is_some c.cm_id && has_qp drained (get c.cm_id)
            then rdma_destroy_qp (get c.cm_id) ∷ drained
            else drained in
          let id = if is_some c.cm_id then rdma_destroy_id (get c.cm_id) ∷ qp else qp in
          let channel =
            if is_some c.cm_channel
            then rdma_destroy_event_channel (get c.cm_channel) ∷ id
            else id in
          some (record c { cm_channel = none; cm_id = none }, channel)
    ]
