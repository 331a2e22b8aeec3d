-- ===== src/Nd/Connector.antt =====
-- nd/detail/nd_service_connector.hpp: the connector of the NetworkDirect backend. `device` is the adapter
-- and the effective configuration of nd/detail/nd_service_device.hpp, none before `use_device`.
pub mod Work
pub mod Life
use rdma_on_asio.Base.{
  ℕ, Bool, true, false, not, ◌&&◌, ◌||◌, Option, none, some, List, ◌∷◌, if◌then◌else◌, ◌==◌, ltb,
  length, is_some,
}
use rdma_on_asio.Base.Int.{is_nonzero}
use rdma_on_asio.Error.{
  ErrorCode, rdma, asio, cleared, is_error, already_open, device_not_registered, invalid_handle,
  private_data_too_large, connector_terminal, operation_aborted, disconnected,
  address_family_not_supported,
}
use rdma_on_asio.Config.{Config, default_config}
use rdma_on_asio.Nd.{
  ConnectState, idle, connecting, connected, closed, is_state, compare_exchange, Env, Log, Act,
  Call, overlapped, plain, new_connector, create_overlapped_file, close_handle, register_handle,
  cancel_io_ex, release_connector, connector_bind, connector_connect, connector_accept,
  connector_disconnect, connector_notify_disconnect, work_started, on_pending, on_completion,
  is_pending,
}

-- `nd_adapter_t`: its interface and its local addresses.
pub record Adapter : Type 0 where
  pub adapter : ℕ
  pub v4_address : Option ℕ
  pub v6_address : Option ℕ

abbrev pub Device : Type 0
Device = Option (Adapter × Config)

-- The connector's `implementation_type`.
pub record Connector : Type 0 where
  pub connector : Option ℕ
  pub connector_handle : Option ℕ
  pub adapter : Option Adapter
  pub state : ConnectState
  pub peer_closed : Bool

-- `Get()`: 0 is null.
abbrev pub get : Option ℕ → ℕ
get none = 0
get (some h) = h

abbrev pub is_open : Connector → Bool
is_open c = is_some c.connector

abbrev pub construct : Connector
construct = record {
  connector = none;
  connector_handle = none;
  adapter = none;
  state = idle;
  peer_closed = false;
}

-- `native_connector_type`
pub record Handle : Type 0 where
  pub connector : Option ℕ
  pub overlapped_handle : Option ℕ
  pub adapter : Option Adapter

abbrev pub empty_handle : Handle
empty_handle = record { connector = none; overlapped_handle = none; adapter = none }

abbrev pub effective_config : Device → Config
effective_config none = default_config
effective_config (some (a, c)) = c

abbrev pub max_outgoing_private_data : ℕ
max_outgoing_private_data = 255

-- `private_data.size() == 0 ? nullptr : private_data.data()`, with its size.
abbrev pub outgoing : List ℕ → Option (List ℕ)
outgoing pd = if length pd == 0 then none else some pd

-- `scheduler_.work_started(); scheduler_.on_completion(op, ec);`
abbrev pub complete_now : Connector → ErrorCode → Act Connector
complete_now c ec log = (c, on_completion ec ∷ work_started ∷ log)

-- `get_v4_address` or `get_v6_address` of the connector's adapter.
abbrev pub local_address : Option Adapter → Bool → Option ℕ
local_address none is_v4 = none
local_address (some a) is_v4 = if is_v4 then a.v4_address else a.v6_address

module _ (env : Env) where
  -- The device's adapter, and the file made on it.
  abbrev pub opened : Adapter → Connector → Act (Connector × ErrorCode)
  unfolding new_connector
  opened a c log =
      let file_ec = env.code log (create_overlapped_file a.adapter) in
      let handle = env.made log in
      let log' = create_overlapped_file a.adapter ∷ log in
      let ((id, id_ec), log'') = new_connector env a.adapter handle log' in
      let reg_ec = env.code log'' (register_handle handle) in
      let log''' = register_handle handle ∷ log'' in
      if is_error file_ec
      then ((c, file_ec), log')
      else if is_error id_ec
      then ((record c { connector_handle = none }, id_ec), close_handle handle ∷ log'')
      else if is_error reg_ec
      then (
        (record c { connector = none; connector_handle = none }, reg_ec),
        close_handle handle ∷ release_connector id ∷ log''',
      )
      else (
        (
          record c { connector = some id; connector_handle = some handle; adapter = some a },
          reg_ec,
        ),
        log''',
      )

  unfoldable pub do_open : Device → Connector → Act (Connector × ErrorCode)
  do_open none c log =
      if is_open c then ((c, asio already_open), log) else ((c, rdma device_not_registered), log)
  do_open (some (a, config)) c log =
      if is_open c then ((c, asio already_open), log) else opened a c log

  -- The connector, the handle as it is left, and the code.
  unfoldable pub assign : Handle → Connector → Act (Connector × Handle × ErrorCode)
  assign h c log =
      let ec = env.code log (register_handle (get h.overlapped_handle)) in
      let log' = register_handle (get h.overlapped_handle) ∷ log in
      if is_open c
      then ((c, h, asio already_open), log)
      else if not (is_some h.connector)
      then ((c, h, rdma invalid_handle), log)
      else if is_error ec
      then ((c, h, ec), log')
      else (
        (
          record {
            connector = h.connector;
            connector_handle = h.overlapped_handle;
            adapter = h.adapter;
            state = idle;
            peer_closed = false;
          },
          empty_handle,
          ec,
        ),
        log',
      )

  -- `on_completion` or `on_pending`, by the result of an overlapped call.
  abbrev pub hand_over : Connector → Call → Act Connector
  unfolding overlapped
  hand_over c call log =
      let (o, log') = overlapped env call log in
      (
        c,
        (if is_error o.ec || not (is_pending o.hr) then on_completion o.ec else on_pending) ∷ log',
      )

  unfoldable pub start_connect_op : Device → ℕ → ℕ → Bool → List ℕ → Connector → Act Connector
  unfolding plain
  start_connect_op device qp endpoint is_v4 private_data c log =
      let started = work_started ∷ log in
      let (stored, s) = compare_exchange c.state idle connecting in
      let c' = record c { state = s } in
      let address = local_address c.adapter is_v4 in
      let (bind_ec, bound) = plain env (connector_bind (get c.connector) (get address)) started in
      let eff = effective_config device in
      if not stored
      then (c, on_completion (asio operation_aborted) ∷ started)
      else if not (is_some address)
      then (c', on_completion (rdma address_family_not_supported) ∷ started)
      else if is_error bind_ec
      then (c', on_completion bind_ec ∷ bound)
      else hand_over c'
          (connector_connect (get c.connector) qp endpoint eff.inbound_read_limit
            eff.outbound_read_limit (outgoing private_data))
          bound

  unfoldable pub start_accept_op : Device → ℕ → List ℕ → Connector → Act Connector
  start_accept_op device qp private_data c log =
      let started = work_started ∷ log in
      let (stored, s) = compare_exchange c.state idle connecting in
      let eff = effective_config device in
      if not stored
      then (c, on_completion (asio operation_aborted) ∷ started)
      else hand_over (record c { state = s })
          (connector_accept (get c.connector) qp eff.inbound_read_limit eff.outbound_read_limit
            (outgoing private_data))
          started

  -- The guards that `async_accept` and `async_move_accept` share, and the qp of the queue pair.
  unfoldable pub async_accept : Device → Option ℕ → List ℕ → Connector → Act Connector
  unfolding start_accept_op
  async_accept device qp private_data c log =
      if not (is_some device)
      then complete_now c (rdma device_not_registered) log
      else if not (is_open c)
      then complete_now c (rdma invalid_handle) log
      else if ltb max_outgoing_private_data (length private_data)
      then complete_now c (rdma private_data_too_large) log
      else if not (is_state c.state idle)
      then complete_now c (rdma connector_terminal) log
      else if not (is_some qp)
      then complete_now c (rdma invalid_handle) log
      else start_accept_op device (get qp) private_data c log

  unfoldable pub async_move_accept :
      ErrorCode → Device → Option ℕ → List ℕ → Connector → Act Connector
  unfolding async_accept
  async_move_accept bind_ec device qp private_data c log =
      if is_error bind_ec
      then complete_now c bind_ec log
      else async_accept device qp private_data c log

  -- The guards behind the automatic open, whose code is `open_ec`.
  unfoldable pub connect_checked :
      Device → Option ℕ → ℕ → Bool → List ℕ → Connector → ErrorCode → Act Connector
  unfolding start_connect_op
  connect_checked device qp endpoint is_v4 request c open_ec log =
      if is_error open_ec
      then complete_now c open_ec log
      else if ltb max_outgoing_private_data (length request)
      then complete_now c (rdma private_data_too_large) log
      else if not (is_state c.state idle)
      then complete_now c (rdma connector_terminal) log
      else if not (is_some qp)
      then complete_now c (rdma invalid_handle) log
      else start_connect_op device (get qp) endpoint is_v4 request c log

  unfoldable pub async_connect : Device → Option ℕ → ℕ → Bool → List ℕ → Connector → Act Connector
  unfolding do_open connect_checked
  async_connect device qp endpoint is_v4 request c log =
      if is_open c
      then connect_checked device qp endpoint is_v4 request c cleared log
      else let ((c', open_ec), log') = do_open device c log in
        connect_checked device qp endpoint is_v4 request c' open_ec log'

  -- The state is read and exchanged at one point here.
  unfoldable pub disconnect : Connector → Act (Connector × ErrorCode)
  unfolding overlapped
  disconnect c log =
      let c' = record c { state = closed; peer_closed = true } in
      let cancelled = cancel_io_ex (get c.connector_handle) ∷ log in
      let started = work_started ∷ cancelled in
      let (o, log') = overlapped env (connector_disconnect (get c.connector)) started in
      if not (is_open c) then ((c, rdma invalid_handle), log) else elim c.state [
        | closed ↦ ((c, cleared), log)
        | idle ↦ ((c', cleared), log)
        | connecting ↦ ((c', cleared), cancelled)
        | connected ↦
            if not (is_error o.ec) && is_pending o.hr
            then ((c', cleared), on_pending ∷ log')
            else ((c', o.ec), on_completion o.ec ∷ log')
      ]

  unfoldable pub async_wait_disconnect : Connector → Act Connector
  async_wait_disconnect c log =
      let started = work_started ∷ log in
      if c.peer_closed || is_state c.state closed
      then (c, on_completion (rdma disconnected) ∷ started)
      else if not (is_open c)
      then (c, on_completion (rdma invalid_handle) ∷ started)
      else hand_over c (connector_notify_disconnect (get c.connector)) started

-- `move_construct`: the new connector, and what is left of the other.
unfoldable pub move_construct : Connector → Connector × Connector
move_construct other =
    (other, record other { connector = none; connector_handle = none; adapter = none })

-- `move_assign`: what the target held is given up first.
unfoldable pub move_assign : Connector → Connector → Act (Connector × Connector)
unfolding move_construct
move_assign c other log =
    let released = if is_some c.connector then release_connector (get c.connector) ∷ log else log in
    let closed_handle =
      if is_some c.connector_handle
      then close_handle (get c.connector_handle) ∷ released
      else released in
    (move_construct other, closed_handle)
