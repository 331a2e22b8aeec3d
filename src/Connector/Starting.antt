-- ===== src/Connector/Starting.antt =====
-- The initiating functions of ibv/detail/ibv_service_connector.hpp: each hands its operation either to
-- the reactor or to an immediate completion, once.
use rdma_on_asio.Base.{
  ℕ, suc, ◌+◌, ◌≤◌, ◌≡◌, ◌⊎◌, true, false, List, [], ◌∷◌, Option, none, some, arith, length,
  is_some,
}
use rdma_on_asio.Error.{ErrorCode, cleared, is_error}
use rdma_on_asio.Config.{Config}
use rdma_on_asio.Cm.{
  Env, Log, Call, start_op, post_immediate_completion, create_event_channel, set_nonblocking,
  create_cm_id, resolve_addr, checked_call, call, accept,
}
use rdma_on_asio.Connect.{
  ConnectState, idle, addr_resolve, connecting, CreateQp, run_create_qp, max_outgoing_private_data,
}
use rdma_on_asio.Connector.{
  Connector, Initiated, is_open, get, open_impl, async_connect, async_move_accept, async_accept,
  connect_checked, start_connect_op, start_accept_op,
}

-- The ways in which an operation is handed over.
abbrev hand_over : Call → ℕ
hand_over (start_op fd) = 1
hand_over post_immediate_completion = 1
hand_over _ = 0

abbrev pub hand_overs : Log → ℕ
hand_overs [] = 0
hand_overs (c ∷ log) = hand_over c + hand_overs log

-- A callback that creates a queue pair hands no operation over.
abbrev pub IsSilent : CreateQp → Type 0
IsSilent create_qp =
    (ec : ErrorCode) (log : Log) → hand_overs (run_create_qp create_qp ec log).1 ≡ hand_overs log

abbrev pub newest : Log → Option Call
newest [] = none
newest (c ∷ log) = some c

-- Armed on the connector's descriptor, open and in flight, with the code clear and the call that arms
-- the newest; or completed at once by the newest call.
abbrev pub HandedOver : Initiated → ConnectState → Log → Type 0
HandedOver r in_flight log =
    ((newest log ≡ some (start_op (get r.connector.cm_channel)))
      × (r.ec ≡ cleared)
      × (is_open r.connector ≡ true)
      × (r.connector.state ≡ in_flight))
    ⊎ (newest log ≡ some post_immediate_completion)

hand_overs-create_event_channel :
    (env : Env) (log : Log) → hand_overs (create_event_channel env log).1 ≡ hand_overs log
unfolding create_event_channel set_nonblocking
hand_overs-create_event_channel env log = ground arith

hand_overs-open_impl :
    (env : Env) (created : Log → ℕ) (device : Option Config) (c : Connector) (log : Log)
    → hand_overs (open_impl env created device c log).1 ≡ hand_overs log
unfolding open_impl create_cm_id call
hand_overs-open_impl env created device c log =
    ground (arith, hand_overs-create_event_channel env log)

hand_overs-connect_checked :
    (env : Env) (device : Option Config) (endpoint : ℕ) (request : List ℕ) (c : Connector)
    (open_ec : ErrorCode) (log : Log)
    → hand_overs (connect_checked env device endpoint request c open_ec log).1
      ≡ suc (hand_overs log)
unfolding connect_checked start_connect_op resolve_addr checked_call call
hand_overs-connect_checked env device endpoint request c open_ec log = ground arith

-- async_connect hands its operation over exactly once, whatever fails on the way.
pub hand_overs-async_connect :
    (env : Env) (created : Log → ℕ) (device : Option Config) (endpoint : ℕ) (request : List ℕ)
    (c : Connector) (log : Log)
    → hand_overs (async_connect env created device endpoint request c log).1 ≡ suc (hand_overs log)
unfolding async_connect
hand_overs-async_connect env created device endpoint request c log =
    let ((c', ec), log') = open_impl env created device c log in
    ground (
      arith,
      hand_overs-open_impl env created device c log,
      hand_overs-connect_checked env device endpoint request c cleared log,
      hand_overs-connect_checked env device endpoint request c' ec log',
    )

-- async_accept and async_move_accept hand their operation over exactly once, provided that the callback
-- hands none over.
pub hand_overs-async_move_accept :
    (env : Env) (bind_ec : ErrorCode) (device : Option Config) (create_qp : CreateQp)
    (private_data : List ℕ) (c : Connector) (log : Log)
    → IsSilent create_qp
    → hand_overs (async_move_accept env bind_ec device create_qp private_data c log).1
      ≡ suc (hand_overs log)
unfolding async_move_accept async_accept start_accept_op accept checked_call call
hand_overs-async_move_accept env bind_ec device create_qp private_data c log h =
    ground (arith, h cleared log)

start_connect_op-HandedOver :
    (env : Env) (device : Option Config) (endpoint : ℕ) (c : Connector) (log : Log)
    → let (r, log') = start_connect_op env device endpoint c log in
      HandedOver r addr_resolve log'
      × ((newest log' ≡ some post_immediate_completion) ⊎ (c.state ≡ idle))
unfolding start_connect_op resolve_addr checked_call
start_connect_op-HandedOver env device endpoint c log = ground arith

connect_checked-HandedOver :
    (env : Env) (device : Option Config) (endpoint : ℕ) (request : List ℕ) (c : Connector)
    (open_ec : ErrorCode) (log : Log)
    → let (r, log') = connect_checked env device endpoint request c open_ec log in
      HandedOver r addr_resolve log'
      × ((newest log' ≡ some post_immediate_completion)
          ⊎ ((c.state ≡ idle) × (length request ≤ max_outgoing_private_data)))
unfolding connect_checked
connect_checked-HandedOver env device endpoint request c open_ec log =
    ground (arith, start_connect_op-HandedOver env device endpoint c log)

-- async_connect puts an operation in flight only in the state `addr_resolve`, on an open connector, with
-- the code clear and at most 255 bytes to send; and a connector that was open was idle. Any other
-- outcome is an immediate completion.
pub async_connect-HandedOver :
    (env : Env) (created : Log → ℕ) (device : Option Config) (endpoint : ℕ) (request : List ℕ)
    (c : Connector) (log : Log)
    → let (r, log') = async_connect env created device endpoint request c log in
      HandedOver r addr_resolve log'
      × ((newest log' ≡ some post_immediate_completion)
          ⊎ (((is_open c ≡ false) ⊎ (c.state ≡ idle))
              × (length request ≤ max_outgoing_private_data)))
unfolding async_connect
async_connect-HandedOver env created device endpoint request c log =
    let ((c', ec), log') = open_impl env created device c log in
    ground (
      arith,
      connect_checked-HandedOver env device endpoint request c cleared log,
      connect_checked-HandedOver env device endpoint request c' ec log',
    )

start_accept_op-HandedOver :
    (env : Env) (device : Option Config) (create_qp : CreateQp) (private_data : List ℕ)
    (c : Connector) (log : Log)
    → is_open c ≡ true
    → c.state ≡ idle
    → let (r, log') = start_accept_op env device create_qp private_data c log in
      HandedOver r connecting log'
unfolding start_accept_op accept checked_call
start_accept_op-HandedOver env device create_qp private_data c log o i = ground arith

-- async_move_accept puts an operation in flight only in the state `connecting`, with the code clear, on
-- a connector that was open and idle, with a device, no error of the binding and at most 255 bytes to
-- send. Any other outcome is an immediate completion.
pub async_move_accept-HandedOver :
    (env : Env) (bind_ec : ErrorCode) (device : Option Config) (create_qp : CreateQp)
    (private_data : List ℕ) (c : Connector) (log : Log)
    → let (r, log') = async_move_accept env bind_ec device create_qp private_data c log in
      HandedOver r connecting log'
      × ((newest log' ≡ some post_immediate_completion)
          ⊎ ((is_error bind_ec ≡ false)
              × (is_some device ≡ true)
              × (is_open c ≡ true)
              × (c.state ≡ idle)
              × (length private_data ≤ max_outgoing_private_data)))
unfolding async_move_accept async_accept
async_move_accept-HandedOver env bind_ec device create_qp private_data c log =
    ground (arith, start_accept_op-HandedOver env device create_qp private_data c log)

-- async_connect and async_move_accept hand their operation over exactly once, whatever fails on the way,
-- provided that the callback hands none over. Each puts it in flight only on an open connector with the
-- code clear and at most 255 bytes to send: async_connect in the state `addr_resolve`, on a connector that
-- was idle where it was open, async_move_accept in `connecting`, with a device, no error of the binding
-- and a connector that was open and idle. Any other outcome is an immediate completion.
pub initiating-HandedOver :
    (env : Env) (created : Log → ℕ) (device : Option Config) (endpoint : ℕ) (private_data : List ℕ)
    (bind_ec : ErrorCode) (create_qp : CreateQp) (c : Connector) (log : Log)
    → IsSilent create_qp
    → let (r, log') = async_connect env created device endpoint private_data c log in
      let (r', log'') = async_move_accept env bind_ec device create_qp private_data c log in
      (hand_overs log' ≡ suc (hand_overs log))
      × HandedOver r addr_resolve log'
      × ((newest log' ≡ some post_immediate_completion)
          ⊎ (((is_open c ≡ false) ⊎ (c.state ≡ idle))
              × (length private_data ≤ max_outgoing_private_data)))
      × (hand_overs log'' ≡ suc (hand_overs log))
      × HandedOver r' connecting log''
      × ((newest log'' ≡ some post_immediate_completion)
          ⊎ ((is_error bind_ec ≡ false)
              × (is_some device ≡ true)
              × (is_open c ≡ true)
              × (c.state ≡ idle)
              × (length private_data ≤ max_outgoing_private_data)))
initiating-HandedOver env created device endpoint private_data bind_ec create_qp c log h =
    let (connects, connects') =
      async_connect-HandedOver env created device endpoint private_data c log in
    let (accepts, accepts') =
      async_move_accept-HandedOver env bind_ec device create_qp private_data c log in
    (
      hand_overs-async_connect env created device endpoint private_data c log,
      connects,
      connects',
      hand_overs-async_move_accept env bind_ec device create_qp private_data c log h,
      accepts,
      accepts',
    )
