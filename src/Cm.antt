-- ===== src/Cm.antt =====
-- ibv/detail/ibv_ops_cm.hpp and impl/ibv_ops_cm.ipp: the wrappers of rdma_cm. What rdma_cm, the verbs
-- library and the system answer is the parameter `Env`; every call of them is logged, newest first.
pub mod Drain
use rdma_on_asio.Base.{
  ℕ, zero, suc, ◌+◌, Bool, true, false, not, ◌&&◌, Option, none, some, List, [], ◌∷◌, if◌then◌else◌,
  is_some, ◌==◌,
}
use rdma_on_asio.Base.Int.{ℤ, pos, negsuc, is_nonzero}
use rdma_on_asio.Error.{ErrorCode, system, asio, cleared, bad_descriptor, is_error, eagain}

-- `rdma_cm_event_type`
pub data EventType : Type 0 where
  addr_resolved addr_error route_resolved route_error connect_request connect_response : EventType
  connect_error unreachable rejected established disconnected device_removal : EventType
  multicast_join multicast_error addr_change timewait_exit : EventType

-- The fields of `rdma_cm_event` that are read. `private_data` is null or the bytes of its length.
pub record CmEvent : Type 0 where
  pub event : EventType
  pub status : ℤ
  pub private_data : Option (List ℕ)
  pub id : ℕ

-- `rdma_conn_param`: the fields that are set; the others are 0.
pub record ConnParam : Type 0 where
  pub private_data : Option (List ℕ)
  pub private_data_len : ℕ
  pub responder_resources : ℕ
  pub initiator_depth : ℕ
  pub retry_count : ℕ
  pub rnr_retry_count : ℕ

-- Calls that leave the library. Handles and descriptors are numbers.
pub data Call : Type 0 where
  fcntl_getfl : ℕ → Call
  fcntl_set_nonblock : ℕ → Call
  rdma_create_event_channel : Call
  rdma_destroy_event_channel : ℕ → Call
  rdma_create_id : ℕ → Call
  rdma_destroy_id : ℕ → Call
  rdma_migrate_id : ℕ → ℕ → Call
  rdma_bind_addr : ℕ → ℕ → Call
  rdma_listen : ℕ → ℤ → Call
  rdma_resolve_addr : ℕ → ℕ → ℕ → Call
  rdma_resolve_route : ℕ → ℕ → Call
  rdma_connect : ℕ → ConnParam → Call
  rdma_accept : ℕ → ConnParam → Call
  rdma_disconnect : ℕ → Call
  rdma_get_cm_event : ℕ → Call
  rdma_ack_cm_event : EventType → Call
  rdma_create_qp : ℕ → Call
  rdma_destroy_qp : ℕ → Call
  ibv_modify_qp : ℕ → ℕ → Call
  register_descriptor : ℕ → Call
  deregister_descriptor : ℕ → Call
  cleanup_descriptor_data : Call
  start_op : ℕ → Call
  cancel_ops : ℕ → Call
  move_descriptor : ℕ → Call
  post_immediate_completion : Call

-- The value that a call returns (a null pointer is 0), and `errno` after it.
pub record Reply : Type 0 where
  pub value : ℤ
  pub errno : ℤ

abbrev pub Log : Type 0
Log = List Call

-- How the outside answers a call after the calls made so far, and the event that a successful
-- `rdma_get_cm_event` hands over.
pub record Env : Type 0 where
  pub answer : Log → Call → Reply
  pub next_event : Log → CmEvent

-- An action of the library: a result and the log with its calls.
abbrev pub Act : Type 0 → Type 0
Act A = Log → A × Log

-- `int rc`, and `ec` as the wrapper leaves it.
pub record Outcome : Type 0 where
  pub rc : ℤ
  pub ec : ErrorCode

-- `if (rc) ec = last_system_error(); else ec.clear();`
abbrev pub outcome : Reply → Outcome
outcome r = record { rc = r.value; ec = if is_nonzero r.value then system r.errno else cleared }

unfoldable pub call : Env → Call → Act Outcome
call env c log = (outcome (env.answer log c), c ∷ log)

-- `if (cm_id == nullptr) { ec = bad_descriptor; return -1; }` in front of a call.
unfoldable pub checked_call : Env → Option ℕ → (ℕ → Call) → Act Outcome
unfolding call
checked_call env none c log = (record { rc = negsuc 0; ec = asio bad_descriptor }, log)
checked_call env (some id) c log = call env (c id) log

unfoldable pub create_cm_id : Env → ℕ → Act Outcome
unfolding call
create_cm_id env channel = call env (rdma_create_id channel)

unfoldable pub migrate_id : Env → ℕ → ℕ → Act Outcome
unfolding call
migrate_id env cm_id channel = call env (rdma_migrate_id cm_id channel)

unfoldable pub bind_addr : Env → Option ℕ → ℕ → Act Outcome
unfolding checked_call
bind_addr env cm_id addr = checked_call env cm_id (λ id. rdma_bind_addr id addr)

unfoldable pub listen : Env → Option ℕ → ℤ → Act Outcome
unfolding checked_call
listen env cm_id backlog = checked_call env cm_id (λ id. rdma_listen id backlog)

unfoldable pub resolve_addr : Env → Option ℕ → ℕ → ℕ → Act Outcome
unfolding checked_call
resolve_addr env cm_id dst timeout_ms =
    checked_call env cm_id (λ id. rdma_resolve_addr id dst timeout_ms)

unfoldable pub resolve_route : Env → Option ℕ → ℕ → Act Outcome
unfolding checked_call
resolve_route env cm_id timeout_ms = checked_call env cm_id (λ id. rdma_resolve_route id timeout_ms)

unfoldable pub connect : Env → Option ℕ → ConnParam → Act Outcome
unfolding checked_call
connect env cm_id conn_param = checked_call env cm_id (λ id. rdma_connect id conn_param)

unfoldable pub accept : Env → Option ℕ → ConnParam → Act Outcome
unfolding checked_call
accept env cm_id conn_param = checked_call env cm_id (λ id. rdma_accept id conn_param)

unfoldable pub disconnect : Env → Option ℕ → Act Outcome
unfolding checked_call
disconnect env cm_id = checked_call env cm_id rdma_disconnect

-- `fcntl(F_GETFL)` and `fcntl(F_SETFL)` fail with -1.
abbrev pub is_minus_one : ℤ → Bool
is_minus_one (negsuc zero) = true
is_minus_one (negsuc (suc n)) = false
is_minus_one (pos n) = false

unfoldable pub set_nonblocking : Env → ℕ → Act (Bool × ErrorCode)
set_nonblocking env fd log =
    let got = env.answer log (fcntl_getfl fd) in
    let log' = fcntl_getfl fd ∷ log in
    let put = env.answer log' (fcntl_set_nonblock fd) in
    if is_minus_one got.value
    then ((false, system got.errno), log')
    else if is_minus_one put.value
    then ((false, system put.errno), fcntl_set_nonblock fd ∷ log')
    else ((true, cleared), fcntl_set_nonblock fd ∷ log')

-- A pointer that a call returned.
abbrev pub to_pointer : ℤ → Option ℕ
to_pointer (pos zero) = none
to_pointer (pos (suc n)) = some (suc n)
to_pointer (negsuc n) = none

-- The channel, or null and the error; a channel that stays blocking is destroyed.
unfoldable pub create_event_channel : Env → Act (Option ℕ × ErrorCode)
unfolding set_nonblocking
create_event_channel env log =
    let r = env.answer log rdma_create_event_channel in
    let log' = rdma_create_event_channel ∷ log in
    elim (to_pointer r.value) [
      | none ↦ ((none, system r.errno), log')
      | some channel ↦
          let ((set, ec), log'') = set_nonblocking env channel log' in
          if set
          then ((some channel, ec), log'')
          else ((none, ec), rdma_destroy_event_channel channel ∷ log'')
    ]

-- `rc != 0 && errno != EAGAIN`
abbrev pub is_hard_error : Reply → Bool
is_hard_error r =
    is_nonzero r.value && not (elim r.errno [ pos n ↦ n == eagain | negsuc n ↦ false ])

-- The event is null unless `rc` is 0.
unfoldable pub get_cm_event : Env → ℕ → Act (ℤ × Option CmEvent × ErrorCode)
get_cm_event env channel log =
    let r = env.answer log (rdma_get_cm_event channel) in
    (
      (
        r.value,
        if is_nonzero r.value then none else some (env.next_event log),
        if is_hard_error r then system r.errno else cleared,
      ),
      rdma_get_cm_event channel ∷ log,
    )

abbrev pub is_established : EventType → Bool
is_established established = true
is_established addr_resolved = false
is_established addr_error = false
is_established route_resolved = false
is_established route_error = false
is_established connect_request = false
is_established connect_response = false
is_established connect_error = false
is_established unreachable = false
is_established rejected = false
is_established disconnected = false
is_established device_removal = false
is_established multicast_join = false
is_established multicast_error = false
is_established addr_change = false
is_established timewait_exit = false

-- One event drained: the graceful disconnect where it is due, then the acknowledgement, which the
-- event's deleter makes at the end of the scope.
unfoldable pub drain_event : Env → Option ℕ → CmEvent → Log → Log
unfolding disconnect
drain_event env graceful_cm_id e log =
    let log' =
      if is_some graceful_cm_id && is_established e.event
      then (disconnect env graceful_cm_id log).1
      else log in
    rdma_ack_cm_event e.event ∷ log'

-- `for (;;)` on fuel; `none` means that the fuel ran out.
unfoldable pub drain_loop : ℕ → Env → ℕ → Option ℕ → Log → Option Log
unfolding get_cm_event drain_event
drain_loop zero env channel graceful_cm_id log = none
drain_loop (suc fuel) env channel graceful_cm_id log =
    let ((rc, event, ec), log') = get_cm_event env channel log in
    elim event [
      | none ↦ some log'
      | some e ↦ drain_loop fuel env channel graceful_cm_id (drain_event env graceful_cm_id e log')
    ]

unfoldable pub drain_cm_events : ℕ → Env → Option ℕ → Option ℕ → Log → Option Log
unfolding drain_loop
drain_cm_events fuel env none graceful_cm_id log = some log
drain_cm_events fuel env (some channel) graceful_cm_id log =
    drain_loop fuel env channel graceful_cm_id log
