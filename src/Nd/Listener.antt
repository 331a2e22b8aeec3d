-- ===== src/Nd/Listener.antt =====
-- nd/detail/nd_service_listener.hpp, nd/detail/nd_op_get_connection_request.hpp and the listener's calls of
-- nd/detail/impl/nd_ops_cm.ipp. `device` is the registered adapter, none before `use_device`.
pub mod Requests
use rdma_on_asio.Base.{
  ℕ, Bool, true, false, not, ◌&&◌, ◌||◌, Option, none, some, List, [], ◌∷◌, if◌then◌else◌, is_some,
  min, take, length,
}
use rdma_on_asio.Base.Int.{ℤ, is_negative}
use rdma_on_asio.Error.{
  ErrorCode, rdma, asio, nd, cleared, is_error, already_open, device_not_registered, invalid_handle,
  address_family_not_supported,
}
use rdma_on_asio.Nd.{
  Env, Log, Act, overlapped, new_connector, create_overlapped_file, close_handle, register_handle,
  cancel_io_ex, release_connector, create_listener, release_listener, listener_bind,
  listener_listen, listener_get_request, get_private_data, work_started, on_pending, on_completion,
  is_pending,
}
use rdma_on_asio.Nd.Operations.{is_overflow}
use rdma_on_asio.Nd.Connector.{Adapter, Handle, Connector, empty_handle, get, local_address, assign}

-- The listener's `implementation_type`; of the endpoint only the family is read.
pub record Listener : Type 0 where
  pub listener : Option ℕ
  pub listener_handle : Option ℕ
  pub adapter : Option Adapter
  pub bind_is_v4 : Bool

abbrev pub construct : Listener
construct = record { listener = none; listener_handle = none; adapter = none; bind_is_v4 = true }

abbrev pub is_open : Listener → Bool
is_open l = is_some l.listener

-- `move_construct`: the new listener, and what is left of the other.
unfoldable pub move_construct : Listener → Listener × Listener
move_construct other =
    (other, record other { listener = none; listener_handle = none; adapter = none })

-- `move_assign`: what the target held is given up first.
unfoldable pub move_assign : Listener → Listener → Act (Listener × Listener)
unfolding move_construct
move_assign l other log =
    let released = if is_some l.listener then release_listener (get l.listener) ∷ log else log in
    let closed =
      if is_some l.listener_handle
      then close_handle (get l.listener_handle) ∷ released
      else released in
    (move_construct other, closed)

unfoldable pub cancel : Listener → Log → Log
cancel l log = if is_some l.listener_handle then cancel_io_ex (get l.listener_handle) ∷ log else log

-- The destructor of a handle: its file is closed, then its connector released.
unfoldable pub drop_handle : Handle → Log → Log
drop_handle h log =
    let closed =
      if is_some h.overlapped_handle then close_handle (get h.overlapped_handle) ∷ log else log in
    if is_some h.connector then release_connector (get h.connector) ∷ closed else closed

module _ (env : Env) where
  unfoldable pub open_impl : Option Adapter → Bool → Listener → Act (Listener × ErrorCode)
  open_impl none is_v4 l log =
      if is_open l then ((l, asio already_open), log) else ((l, rdma device_not_registered), log)
  open_impl (some a) is_v4 l log =
      let file_ec = env.code log (create_overlapped_file a.adapter) in
      let handle = env.made log in
      let log' = create_overlapped_file a.adapter ∷ log in
      let made_ec = nd (env.hr log' (create_listener a.adapter handle)) in
      let id = env.made log' in
      let log'' = create_listener a.adapter handle ∷ log' in
      let reg_ec = env.code log'' (register_handle handle) in
      let log''' = register_handle handle ∷ log'' in
      if is_open l
      then ((l, asio already_open), log)
      else if is_error file_ec
      then ((l, file_ec), log')
      else if is_error made_ec
      then ((record l { listener_handle = none }, made_ec), close_handle handle ∷ log'')
      else if is_error reg_ec
      then (
        (record l { listener = none; listener_handle = none }, reg_ec),
        close_handle handle ∷ release_listener id ∷ log''',
      )
      else (
        (
          record {
            listener = some id;
            listener_handle = some handle;
            adapter = some a;
            bind_is_v4 = is_v4;
          },
          reg_ec,
        ),
        log''',
      )

  -- The adapter's address of the endpoint's family; there being none throws, which is caught.
  unfoldable pub bind : ℕ → Listener → Act ErrorCode
  bind port l log =
      let address = local_address l.adapter l.bind_is_v4 in
      let call = listener_bind (get l.listener) (get address) port in
      if not (is_open l)
      then (rdma invalid_handle, log)
      else if not (is_some address)
      then (rdma address_family_not_supported, log)
      else (nd (env.hr log call), call ∷ log)

  unfoldable pub listen : ℤ → Listener → Act ErrorCode
  listen backlog l log =
      let call = listener_listen (get l.listener) backlog in
      if not (is_open l) then (rdma invalid_handle, log) else (nd (env.hr log call), call ∷ log)

  -- `scheduler_.work_started(); scheduler_.on_completion(p.p, ec);`
  abbrev pub complete_with : Handle → ErrorCode → Act Handle
  complete_with h ec log = (h, on_completion ec ∷ work_started ∷ log)

  -- The handle that the operation owns for the connector to be, and the calls.
  unfoldable pub async_get_connection_request : Listener → Act Handle
  unfolding overlapped new_connector
  async_get_connection_request l log = elim l.adapter [
    | none ↦ complete_with empty_handle (rdma invalid_handle) log
    | some a ↦
        let file_ec = env.code log (create_overlapped_file a.adapter) in
        let handle = env.made log in
        let log' = create_overlapped_file a.adapter ∷ log in
        let ((id, id_ec), log'') = new_connector env a.adapter handle log' in
        let h = record empty_handle { adapter = some a } in
        let h' = record h { overlapped_handle = some handle } in
        let h'' = record h' { connector = some id } in
        let (o, log''') =
          overlapped env (listener_get_request (get l.listener) id) (work_started ∷ log'') in
        if not (is_open l)
        then complete_with empty_handle (rdma invalid_handle) log
        else if is_error file_ec
        then complete_with h file_ec log'
        else if is_error id_ec
        then complete_with h' id_ec log''
        else (
          h'',
          (if is_error o.ec || not (is_pending o.hr) then on_completion o.ec else on_pending)
              ∷ log''',
        )
  ]

  -- `do_complete` of the operation, up to the upcall: the client's bytes, at most 256 of them.
  unfoldable pub request_complete : Handle → ErrorCode → Act (List ℕ)
  request_complete h ec log =
      let hr = env.hr log (get_private_data (get h.connector) 256) in
      let (size, bytes) = env.private_data log in
      let log' = get_private_data (get h.connector) 256 ∷ log in
      if is_error ec || not (is_some h.connector)
      then ([], log)
      else if not (is_negative hr) || is_overflow hr
      then (take (min size 256) bytes, log')
      else ([], log')

  -- The adapters of async_get_connection, which make a connector or fill the caller's: the connector, the
  -- bytes in the caller's buffer of size `cap`, and the code for the handler. What is left of the handle
  -- is dropped at the end.
  unfoldable pub get_connection :
      ℕ → ErrorCode → Handle → List ℕ → Connector → Act (Connector × List ℕ × ErrorCode)
  unfolding assign
  get_connection cap ec h private_data conn log =
      let ((assigned, left, assign_ec), log') = assign env h conn log in
      if is_error ec then ((conn, [], ec), drop_handle h log) else (
        (
          assigned,
          take (min (length private_data) cap) private_data,
          if is_error assign_ec then assign_ec else ec,
        ),
        drop_handle left log',
      )
