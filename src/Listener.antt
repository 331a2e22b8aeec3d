-- ===== src/Listener.antt =====
-- ibv/detail/ibv_service_listener.hpp, ibv/detail/ibv_op_get_connection_request.hpp and the adapter of
-- ibv/ibv_listener.hpp: a listener, and the connector that a request becomes. `device` is whether
-- `use_device` registered one.
pub mod Requests
pub mod Taking
use rdma_on_asio.Base.{
  ℕ, Bool, true, false, not, ◌&&◌, Option, none, some, List, [], ◌∷◌, if◌then◌else◌, is_some, take,
  min, length, ◌==◌,
}
use rdma_on_asio.Base.Int.{ℤ, is_nonzero}
use rdma_on_asio.Error.{
  ErrorCode, system, rdma, asio, cleared, is_error, already_open, device_not_registered,
  invalid_handle, connection_aborted,
}
use rdma_on_asio.Cm
use rdma_on_asio.Cm.{
  Env, Log, Act, Outcome, CmEvent, connect_request, EventType, create_event_channel, create_cm_id,
  migrate_id, get_cm_event, register_descriptor, deregister_descriptor, cleanup_descriptor_data,
  move_descriptor, start_op, cancel_ops, post_immediate_completion, rdma_destroy_event_channel,
  rdma_destroy_id, rdma_ack_cm_event,
}
use rdma_on_asio.Connect.{Status, not_done, done}
use rdma_on_asio.Connector
use rdma_on_asio.Connector.{Connector, get}

-- An endpoint: the family of its address, which is the unspecified one here, and the port.
pub record Endpoint : Type 0 where
  pub is_v4 : Bool
  pub port : ℕ

-- `endpoint_type{}`
abbrev pub default_endpoint : Endpoint
default_endpoint = record { is_v4 = true; port = 0 }

-- The listener's `implementation_type`.
pub record Listener : Type 0 where
  pub cm_channel : Option ℕ
  pub cm_id : Option ℕ
  pub bind_endpoint : Endpoint

abbrev pub construct : Listener
construct = record { cm_channel = none; cm_id = none; bind_endpoint = default_endpoint }

abbrev pub is_open : Listener → Bool
is_open l = is_some l.cm_id

-- What is destroyed of the holders, the id before its channel.
unfoldable pub close_for_destruction : Listener → Log → Listener × Log
close_for_destruction l log =
    let deregistered =
      if is_some l.cm_channel
      then cleanup_descriptor_data ∷ deregister_descriptor (get l.cm_channel) ∷ log
      else log in
    let id =
      if is_some l.cm_id then rdma_destroy_id (get l.cm_id) ∷ deregistered else deregistered in
    let channel =
      if is_some l.cm_channel then rdma_destroy_event_channel (get l.cm_channel) ∷ id else id in
    (record l { cm_channel = none; cm_id = none }, channel)

-- `reactor_.move_descriptor` where there is a channel.
abbrev pub moved_descriptor : Option ℕ → Log → Log
moved_descriptor none log = log
moved_descriptor (some channel) log = move_descriptor channel ∷ log

-- The holders move; the endpoint of the new listener is the default one.
unfoldable pub move_construct : Listener → Log → (Listener × Listener) × Log
move_construct other log = (
  (
    record { cm_channel = other.cm_channel; cm_id = other.cm_id; bind_endpoint = default_endpoint },
    record other { cm_channel = none; cm_id = none },
  ),
  moved_descriptor other.cm_channel log,
)

-- The holders move; the endpoint stays the target's.
unfoldable pub move_assign : Listener → Listener → Log → (Listener × Listener) × Log
unfolding close_for_destruction
move_assign l other log =
    let (closed, log') = close_for_destruction l log in
    (
      (
        record closed { cm_channel = other.cm_channel; cm_id = other.cm_id },
        record other { cm_channel = none; cm_id = none },
      ),
      moved_descriptor other.cm_channel log',
    )

unfoldable pub cancel : Listener → Log → Log
cancel l log = if is_some l.cm_channel then cancel_ops (get l.cm_channel) ∷ log else log

-- The operation's code, and the calls.
unfoldable pub async_get_connection_request : Listener → Act ErrorCode
async_get_connection_request l log =
    if not (is_open l)
    then (rdma invalid_handle, post_immediate_completion ∷ log)
    else (cleared, start_op (get l.cm_channel) ∷ log)

-- `data` is the socket address of an endpoint, `created` the id that a successful `rdma_create_id` writes
-- after the calls made so far.
module _ (env : Env) (created : Log → ℕ) (data_of : Endpoint → ℕ) where
  -- The holders of a failed open destroy what it made, the id before its channel.
  unfoldable pub open_impl : Bool → Bool → Listener → Act (Listener × ErrorCode)
  unfolding create_event_channel create_cm_id
  open_impl device is_v4 l log =
      let ((channel, channel_ec), log') = create_event_channel env log in
      let fd = get channel in
      let (made, log'') = create_cm_id env fd log' in
      let id = created log' in
      let err = (env.answer log'' (register_descriptor fd)).value in
      let log''' = register_descriptor fd ∷ log'' in
      if is_open l
      then ((l, asio already_open), log)
      else if not device
      then ((l, rdma device_not_registered), log)
      else if is_error channel_ec
      then ((l, channel_ec), log')
      else if is_nonzero made.rc
      then ((l, made.ec), rdma_destroy_event_channel fd ∷ log'')
      else if is_nonzero err
      then ((l, system err), rdma_destroy_event_channel fd ∷ rdma_destroy_id id ∷ log''')
      else (
        (
          record {
            cm_channel = channel;
            cm_id = some id;
            bind_endpoint = record { is_v4 = is_v4; port = 0 };
          },
          cleared,
        ),
        log''',
      )

  unfoldable pub bind : ℕ → Listener → Act ErrorCode
  unfolding Cm.bind_addr
  bind port l log =
      let (o, log') =
        Cm.bind_addr env l.cm_id (data_of (record l.bind_endpoint { port = port })) log in
      if not (is_open l) then (rdma invalid_handle, log) else (o.ec, log')

  unfoldable pub listen : ℤ → Listener → Act ErrorCode
  unfolding Cm.listen
  listen backlog l log =
      let (o, log') = Cm.listen env l.cm_id backlog log in
      if not (is_open l) then (rdma invalid_handle, log) else (o.ec, log')

abbrev pub max_private_data_size : ℕ
max_private_data_size = 256

-- `ibv_get_connection_request_op`: `handle` is the channel and the id of the connector to be.
pub record RequestRun : Type 0 where
  pub ec : ErrorCode
  pub channel : ℕ
  pub handle : Option ℕ × Option ℕ
  pub private_data : List ℕ
  pub log : Log

abbrev pub is_connect_request : EventType → Bool
is_connect_request connect_request = true
is_connect_request _ = false

-- The client's bytes, those that fit.
abbrev pub copied : CmEvent → List ℕ → List ℕ
copied e before = elim e.private_data [
  | none ↦ before
  | some bytes ↦
      if length bytes == 0 then before else take (min (length bytes) max_private_data_size) bytes
]

-- A request: the child id moves to a channel of its own; the event is acknowledged at the end.
unfoldable pub take_request : Env → CmEvent → RequestRun → RequestRun
unfolding create_event_channel migrate_id
take_request env e r =
    let ((child, child_ec), log') = create_event_channel env r.log in
    let (o, log'') = migrate_id env e.id (get child) log' in
    let r' = record r { private_data = copied e r.private_data } in
    if not (is_connect_request e.event)
    then record r { ec = asio connection_aborted; log = rdma_ack_cm_event e.event ∷ r.log }
    else if is_error child_ec
    then record r' { ec = child_ec; log = rdma_ack_cm_event e.event ∷ log' }
    else record r' {
      ec = o.ec;
      handle = (child, some e.id);
      log = rdma_ack_cm_event e.event ∷ log'';
    }

unfoldable pub request_perform : Env → RequestRun → RequestRun × Status
unfolding take_request get_cm_event
request_perform env r =
    let ((rc, event, ec), log) = get_cm_event env r.channel r.log in
    let r' = record r { ec = ec; log = log } in
    if is_error ec
    then (r', done)
    else elim event [ none ↦ (r', not_done) | some e ↦ (take_request env e r', done) ]

-- The destructor of a handle: the id is destroyed before its channel.
unfoldable pub drop_handle : Option ℕ × Option ℕ → Log → Log
drop_handle (channel, id) log =
    let destroyed = if is_some id then rdma_destroy_id (get id) ∷ log else log in
    if is_some channel then rdma_destroy_event_channel (get channel) ∷ destroyed else destroyed

-- The adapters, which make a connector or fill the caller's: the connector assigned from the handle, the
-- bytes in the caller's buffer of size `cap`, and the code for the handler. What is left of the handle is
-- dropped at the end.
unfoldable pub get_connection :
    Env → ℕ → RequestRun → Connector → Act (Connector × List ℕ × ErrorCode)
unfolding Connector.assign drop_handle
get_connection env cap r conn log =
    let ((assigned, handle, ec), log') = Connector.assign env r.handle conn log in
    if is_error r.ec then ((conn, [], r.ec), drop_handle r.handle log) else (
      (assigned, take (min (length r.private_data) cap) r.private_data, ec),
      drop_handle handle log',
    )
