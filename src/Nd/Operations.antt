-- ===== src/Nd/Operations.antt =====
-- nd/detail/impl/nd_op_base.ipp, nd/detail/nd_op_connect.hpp, nd/detail/impl/nd_op_connect.ipp,
-- nd/detail/nd_op_accept.hpp and nd/detail/nd_op_wait_disconnect.hpp: what the completion of an operation
-- does, `owner` being false while the scheduler shuts down.
pub mod Terminal
use rdma_on_asio.Base.{
  ℕ, Bool, true, false, not, ◌&&◌, ◌||◌, min, List, ◌∷◌, take, if◌then◌else◌, ◌==◌,
}
use rdma_on_asio.Base.Int.{ℤ, pos, negsuc, is_negative}
use rdma_on_asio.Error.{
  ErrorCode, rdma, asio, cleared, nd, is_error, is_aborted, operation_aborted, invalid_handle,
  disconnected,
}
use rdma_on_asio.Nd.{
  ConnectState, connecting, connected, closed, compare_exchange, Env, Log, Act, complete_connect,
  get_private_data, work_started, on_pending, is_pending, Stage,
}

-- `nd_connect_op_base` with the connector's state that it points at. `reply` are the bytes written to
-- the caller's buffer.
pub record ConnectRun : Type 0 where
  pub state : ConnectState
  pub stage : Stage
  pub connector : ℕ
  pub has_reply_buf : Bool
  pub reply_cap : ℕ
  pub reply : List ℕ
  pub log : Log

-- `status_t`
pub data Status : Type 0 where
  completed continuation : Status

-- `ND_BUFFER_OVERFLOW`, 0x80000005: more private data than fits.
abbrev pub is_overflow : ℤ → Bool
is_overflow (pos n) = false
is_overflow (negsuc n) = n == 2147483642

-- The size reported may exceed the buffer's.
unfoldable pub capture_remote_pd : Env → ConnectRun → ConnectRun
capture_remote_pd env r =
    let hr = env.hr r.log (get_private_data r.connector r.reply_cap) in
    let (size, bytes) = env.private_data r.log in
    let log = get_private_data r.connector r.reply_cap ∷ r.log in
    if not r.has_reply_buf || r.reply_cap == 0
    then r
    else if not (is_negative hr) || is_overflow hr
    then record r { reply = take (min size r.reply_cap) bytes; log = log }
    else record r { log = log }

-- Whether it stored, with the code.
unfoldable pub mark_connected : ConnectRun → ConnectRun × ErrorCode × Bool
mark_connected r =
    let (stored, s) = compare_exchange r.state connecting connected in
    if stored
    then (record r { state = s }, cleared, true)
    else (record r { stage = Stage.error }, asio operation_aborted, false)

-- `stage_ = done` where the exchange stored.
abbrev pub finish_connected : ConnectRun × ErrorCode × Bool → ConnectRun × ErrorCode × Status
finish_connected (r, ec, true) = (record r { stage = Stage.done }, ec, completed)
finish_connected (r, ec, false) = (r, ec, completed)

unfoldable pub process_complete_connect : Env → ConnectRun → ConnectRun × ErrorCode × Status
unfolding capture_remote_pd mark_connected
process_complete_connect env r =
    let r' = capture_remote_pd env r in
    let hr = env.hr r'.log (complete_connect r'.connector) in
    let r'' = record r' { log = complete_connect r'.connector ∷ r'.log } in
    if is_negative hr
    then (record r'' { state = closed; stage = Stage.error }, nd hr, completed)
    else if is_pending hr
    then (record r'' { stage = Stage.connected }, cleared, continuation)
    else finish_connected (mark_connected (record r'' { stage = Stage.connected }))

unfoldable pub do_process : Env → ConnectRun → ConnectRun × ErrorCode × Status
unfolding process_complete_connect mark_connected
do_process env r = elim r.stage [
  | Stage.connecting ↦ process_complete_connect env r
  | Stage.connected ↦ finish_connected (mark_connected r)
  | Stage.done ↦ (record r { stage = Stage.error }, rdma invalid_handle, completed)
  | Stage.error ↦ (record r { stage = Stage.error }, rdma invalid_handle, completed)
]

-- `resume_process`: a continuation is handed to the scheduler again.
unfoldable pub resume_process : Env → ErrorCode → ConnectRun → ConnectRun × ErrorCode × Status
unfolding do_process
resume_process env ec r =
    let (r', ec', status) = do_process env r in
    if is_error ec then (r, ec, completed) else elim status [
      | completed ↦ (r', ec', completed)
      | continuation ↦ (record r' { log = on_pending ∷ work_started ∷ r'.log }, ec', continuation)
    ]

-- `do_complete` of the connect operation, up to the upcall.
unfoldable pub connect_complete :
    Env → Bool → ErrorCode → ConnectRun → ConnectRun × ErrorCode × Status
unfolding resume_process
connect_complete env owner result_ec r =
    let (r', ec, status) = resume_process env result_ec r in
    if not owner then (r, result_ec, completed) else elim status [
      | continuation ↦ (r', ec, continuation)
      | completed ↦ (if is_error ec then record r' { state = closed } else r', ec, completed)
    ]

-- `do_complete` of the accept operation, `started` after `mark_started`: the state.
unfoldable pub accept_complete : Bool → Bool → ErrorCode → ConnectState → ConnectState
accept_complete owner started ec state =
    if owner && started && not (is_error ec)
    then connected
    else if owner && started && is_error ec
    then closed
    else state

-- `do_complete` of the watcher: the latch, and the code for the handler.
unfoldable pub wait_complete : ErrorCode → Bool → Bool × ErrorCode
wait_complete ec peer_closed =
    if not (is_error ec)
    then (true, rdma disconnected)
    else if is_aborted ec && not peer_closed
    then (peer_closed, ec)
    else if is_aborted ec && peer_closed
    then (true, rdma disconnected)
    else (peer_closed, ec)
