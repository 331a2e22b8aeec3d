-- ===== src/Listener/Requests.antt =====
-- ibv/detail/ibv_op_get_connection_request.hpp and ibv/detail/ibv_service_listener.hpp: what a request
-- becomes, and what moving a listener keeps.
use rdma_on_asio.Base.{ℕ, ◌≡◌, ◌⊎◌, true, false, some, ◌∷◌, arith}
use rdma_on_asio.Base.Int.{is_nonzero}
use rdma_on_asio.Error.{ErrorCode, cleared, asio, system, already_open}
use rdma_on_asio.Cm
use rdma_on_asio.Cm.{
  rdma_destroy_event_channel, Env, Log, Call, CmEvent, create_event_channel, set_nonblocking,
  EventType, addr_resolved, addr_error, route_resolved, route_error, connect_response,
  connect_error, unreachable, rejected, established, disconnected, device_removal, multicast_join,
  multicast_error, addr_change, timewait_exit, migrate_id, get_cm_event, rdma_destroy_id,
  rdma_bind_addr, register_descriptor, move_descriptor, to_pointer, is_minus_one,
  rdma_create_event_channel, fcntl_getfl, fcntl_set_nonblock,
}
use rdma_on_asio.Connect.{idle}
use rdma_on_asio.Connector
use rdma_on_asio.Connector.{Connector, get}
use rdma_on_asio.Listener.{Endpoint, Listener, is_open, move_construct, bind}

-- What becomes of a request: the connector of before and of after, the code, and the calls.
abbrev pub Delivery : Env → ℕ → ℕ → Connector → Log → Connector × ErrorCode → Log → Type 0
Delivery env channel id conn log (conn', ec) log' =
    let err = (env.answer log (register_descriptor channel)).value in
    ((Connector.is_open conn ≡ true)
      × (conn' ≡ conn)
      × (ec ≡ asio already_open)
      × (log' ≡ rdma_destroy_event_channel channel ∷ rdma_destroy_id id ∷ log))
    ⊎ ((Connector.is_open conn ≡ false)
        × (is_nonzero err ≡ true)
        × (conn' ≡ conn)
        × (ec ≡ system err)
        × (log'
            ≡ rdma_destroy_event_channel channel
              ∷ rdma_destroy_id id
              ∷ register_descriptor channel
              ∷ log))
    ⊎ ((Connector.is_open conn ≡ false)
        × (is_nonzero err ≡ false)
        × (conn' ≡ record {
          cm_channel = some channel;
          cm_id = some id;
          state = idle;
          peer_closed = false;
        })
        × (ec ≡ cleared)
        × (log' ≡ register_descriptor channel ∷ log))

-- Moving an open listener that is bound to no port yet loses the family it was opened for: the new one
-- binds to an IPv4 address.
bind-move_construct :
    (env : Env) (created : Log → ℕ) (data_of : Endpoint → ℕ) (port id : ℕ) (l : Listener)
    (log : Log)
    → l.cm_id ≡ some id
    → let ((moved, left), log') = move_construct l log in
      (is_open moved ≡ true)
      × (is_open left ≡ false)
      × ((bind env created data_of port moved log').1
          ≡ rdma_bind_addr id (data_of (record { is_v4 = true; port = port })) ∷ log')
unfolding bind move_construct Cm.bind_addr Cm.checked_call Cm.call
bind-move_construct env created data_of port id l log h = ground arith

id_destroy_count : Call → ℕ
id_destroy_count (rdma_destroy_id id) = 1
id_destroy_count _ = 0
