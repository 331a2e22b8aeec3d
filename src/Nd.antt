-- ===== src/Nd.antt =====
-- nd/detail/nd_impl_types.hpp, nd/nd_error.hpp and nd/detail/impl/nd_ops_cm.ipp: the calls of
-- NetworkDirect. What NetworkDirect, Windows and the scheduler answer is the parameter `Env`; every call
-- is logged, newest first.
pub mod Operations
pub mod Connector
pub mod Ranges
pub mod Listener
pub mod Race
pub mod Queue
pub mod Verbs
pub mod Devices
pub mod Adapter
pub mod Registration
pub mod QueuePair
pub mod Memory
pub mod PollQueue
use rdma_on_asio.Base.{
  ℕ, Bool, true, false, not, ◌&&◌, Option, none, some, List, ◌∷◌, if◌then◌else◌, ◌==◌,
}
use rdma_on_asio.Base.Int.{ℤ, pos, negsuc, is_nonzero, is_negative}
use rdma_on_asio.Error.{ErrorCode, asio, cleared, nd, operation_aborted}
use rdma_on_asio.Memory.{Access}

-- `connect_state` of this backend.
pub data ConnectState : Type 0 where
  idle connecting connected closed : ConnectState

-- The enumerators in order, from 0.
abbrev pub to_int : ConnectState → ℕ
to_int idle = 0
to_int connecting = 1
to_int connected = 2
to_int closed = 3

abbrev pub is_state : ConnectState → ConnectState → Bool
is_state a b = to_int a == to_int b

-- `compare_exchange_strong`: whether it stored, and the state after it.
abbrev pub compare_exchange : ConnectState → ConnectState → ConnectState → Bool × ConnectState
compare_exchange current from to = if is_state current from then (true, to) else (false, current)

-- `stage_t` of the connect operation.
pub data Stage : Type 0 where
  connecting connected done error : Stage

-- What `CreateQueuePair` is given besides its interface: both queues, and the limits.
pub record QueuePairAttr : Type 0 where
  pub receive_queue : ℕ
  pub initiator_queue : ℕ
  pub max_recv_wr : ℕ
  pub max_send_wr : ℕ
  pub max_recv_sge : ℕ
  pub max_send_sge : ℕ
  pub max_inline_data : ℕ

-- Calls that leave the library. Interfaces, handles and addresses are numbers.
pub data Call : Type 0 where
  create_overlapped_file : ℕ → Call
  close_handle : ℕ → Call
  register_handle : ℕ → Call
  cancel_io_ex : ℕ → Call
  create_connector : ℕ → ℕ → Call
  release_connector : ℕ → Call
  connector_bind : ℕ → ℕ → Call
  connector_connect : ℕ → ℕ → ℕ → ℕ → ℕ → Option (List ℕ) → Call
  connector_accept : ℕ → ℕ → ℕ → ℕ → Option (List ℕ) → Call
  complete_connect : ℕ → Call
  connector_disconnect : ℕ → Call
  connector_notify_disconnect : ℕ → Call
  get_private_data : ℕ → ℕ → Call
  create_listener : ℕ → ℕ → Call
  release_listener : ℕ → Call
  listener_bind : ℕ → ℕ → ℕ → Call
  listener_listen : ℕ → ℤ → Call
  listener_get_request : ℕ → ℕ → Call
  create_completion_queue : ℕ → ℕ → ℕ → Call
  release_completion_queue : ℕ → Call
  completion_queue_notify : ℕ → Call
  create_queue_pair : ℕ → QueuePairAttr → Call
  create_memory_region : ℕ → ℕ → Call
  release_memory_region : ℕ → Call
  region_register : ℕ → ℕ → ℕ → Access → Call
  region_deregister : ℕ → Call
  get_overlapped_result : ℕ → Call
  work_started : Call
  on_pending : Call
  on_completion : ErrorCode → Call

abbrev pub Log : Type 0
Log = List Call

-- The HRESULT of a call, the code of those that set one, the interface or handle that it makes, and the
-- length and bytes of private data, each after the calls made so far.
pub record Env : Type 0 where
  pub hr : Log → Call → ℤ
  pub code : Log → Call → ErrorCode
  pub made : Log → ℕ
  pub private_data : Log → ℕ × List ℕ

abbrev pub Act : Type 0 → Type 0
Act A = Log → A × Log

-- `ND_SUCCESS` and `ND_PENDING`; `FAILED` tests the sign.
abbrev pub is_success : ℤ → Bool
is_success v = not (is_nonzero v)

abbrev pub is_pending : ℤ → Bool
is_pending (pos n) = n == 259
is_pending (negsuc n) = false

-- `hr != ND_SUCCESS && hr != ND_PENDING ? nd_errc(hr) : clear`
abbrev pub pending_code : ℤ → ErrorCode
pending_code v = if not (is_success v) && not (is_pending v) then nd v else cleared

-- `result_type` and the code of an overlapped call.
pub record Outcome : Type 0 where
  pub hr : ℤ
  pub ec : ErrorCode

-- The overlapped calls: `connect`, `accept`, `disconnect`, `notify_disconnect`.
unfoldable pub overlapped : Env → Call → Act Outcome
overlapped env c log = let v = env.hr log c in (record { hr = v; ec = pending_code v }, c ∷ log)

-- The calls whose every HRESULT is the code: `bind_addr`.
unfoldable pub plain : Env → Call → Act ErrorCode
plain env c log = (nd (env.hr log c), c ∷ log)

-- `create_connector`: the interface is null where the call fails.
unfoldable pub new_connector : Env → ℕ → ℕ → Act (ℕ × ErrorCode)
new_connector env adapter handle log = (
  (env.made log, nd (env.hr log (create_connector adapter handle))),
  create_connector adapter handle ∷ log,
)

-- `completion_status_to_error`; `ND_CANCELED` is 0xC0000120.
unfoldable pub completion_status_to_error : ℤ → ErrorCode
completion_status_to_error (pos n) = if n == 0 then cleared else nd (pos n)
completion_status_to_error (negsuc n) =
    if n == 1073741535 then asio operation_aborted else nd (negsuc n)
