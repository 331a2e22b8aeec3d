-- ===== src/QueuePair.antt =====
-- ibv/ibv_queue_pair.hpp and the async_* functions of ibv/detail/ibv_service_verbs.hpp, over the four posts of
-- a backend (`Posts`): the queue pair as an object, and where an operation goes once it is initiated.
pub mod Conservation
pub mod Completed
pub mod Binding
use rdma_on_asio.Base.{
  ℕ, Bool, true, false, not, Option, none, some, List, [], ◌∷◌, ◌++◌, if◌then◌else◌, is_some,
}
use rdma_on_asio.Error.{ErrorCode, cleared, is_error}
use rdma_on_asio.Memory.{RemoteAddr}
use rdma_on_asio.Config.{Config, default_config}
use rdma_on_asio.Verbs.{
  WorkRequest, PostEnv, VerbsOp, Buffers, Posted, do_post_send, do_post_recv, do_post_read,
  do_post_write,
}
use rdma_on_asio.Devices.{Device}
use rdma_on_asio.Devices.Registration.{Services, QueuePair, is_bound, bind_event, bind_poll}

-- The four posts of a backend, in its verbs library.
pub record Posts : Type 0 where
  pub post_send : Config → Buffers → VerbsOp → List WorkRequest → Posted
  pub post_recv : Config → Buffers → VerbsOp → List WorkRequest → Posted
  pub post_read : Config → RemoteAddr → Buffers → VerbsOp → List WorkRequest → Posted
  pub post_write : Config → RemoteAddr → Buffers → VerbsOp → List WorkRequest → Posted

abbrev pub ibv_posts : PostEnv → Posts
ibv_posts env = record {
  post_send = do_post_send env;
  post_recv = do_post_recv env;
  post_read = do_post_read env;
  post_write = do_post_write env;
}

-- Where operations are: in the `ready_` queue of the completion queue, with the scheduler, or with the
-- device, which has been called with `calls`, newest first.
pub record Sinks : Type 0 where
  pub ready : List VerbsOp
  pub scheduled : List VerbsOp
  pub calls : List WorkRequest

-- `new (p.v) op{error_code{}, ...}` at an address.
abbrev pub new_op : ℕ → VerbsOp
new_op id = record { id = id; ec = cleared; bytes_transferred = 0 }

unfoldable pub finish_poll : Posted → Sinks → Sinks
finish_poll p s = record s {
  ready = if p.immediate then s.ready ++ p.op ∷ [] else s.ready;
  calls = p.calls;
}

unfoldable pub finish_event : Posted → Sinks → Sinks
finish_event p s = record s {
  scheduled = if p.immediate then s.scheduled ++ p.op ∷ [] else s.scheduled;
  calls = p.calls;
}

-- `ibv_queue_pair`: what it owns, and the io_context of event mode, null in poll mode. The verbs service
-- that it caches is that of the io_context.
pub record QpObject : Type 0 where
  pub impl : QueuePair
  pub io_ctx : Option ℕ

abbrev pub default_qp : QpObject
default_qp = record {
  impl = record { device = none; cq = none; config = default_config; poll_cq = false; qp = none };
  io_ctx = none;
}

-- The move constructor: the new object, and what is left of the other. The move assignment to another
-- object does the same.
unfoldable pub move_construct : QpObject → QpObject × QpObject
move_construct other = (other, default_qp)

-- `completion_mode`
pub data CompletionMode : Type 0 where
  unbound event poll : CompletionMode

unfoldable pub bound_type : QpObject → CompletionMode
bound_type q = if not (is_bound q.impl) then unbound else if is_some q.io_ctx then event else poll

-- `bind` to the io_context `ctx`: the object, the code, and whether the poller was asked to start.
unfoldable pub bind_io_context : ℕ → Services → QpObject → QpObject × ErrorCode × Bool
unfolding bind_event
bind_io_context ctx s q =
    let (impl, ec) = bind_event s q.impl in
    if is_error ec then (q, ec, false) else (record { impl = impl; io_ctx = some ctx }, ec, true)

-- `bind` to a completion queue: its device, handle and effective configuration.
unfoldable pub bind_completion_queue :
    Option Device → Option ℕ → Config → QpObject → QpObject × ErrorCode
unfolding bind_poll
bind_completion_queue device cq config q =
    let (impl, ec) = bind_poll device cq config q.impl in
    if is_error ec then (q, ec) else (record { impl = impl; io_ctx = none }, ec)

module _ (posts : Posts) where
  unfoldable pub async_send_static : QueuePair → Buffers → ℕ → Sinks → Sinks
  unfolding finish_poll
  async_send_static q bs id s = finish_poll (posts.post_send q.config bs (new_op id) s.calls) s

  unfoldable pub async_recv_static : QueuePair → Buffers → ℕ → Sinks → Sinks
  unfolding finish_poll
  async_recv_static q bs id s = finish_poll (posts.post_recv q.config bs (new_op id) s.calls) s

  unfoldable pub async_read_static : QueuePair → Buffers → RemoteAddr → ℕ → Sinks → Sinks
  unfolding finish_poll
  async_read_static q bs ra id s =
      finish_poll (posts.post_read q.config ra bs (new_op id) s.calls) s

  unfoldable pub async_write_static : QueuePair → Buffers → RemoteAddr → ℕ → Sinks → Sinks
  unfolding finish_poll
  async_write_static q bs ra id s =
      finish_poll (posts.post_write q.config ra bs (new_op id) s.calls) s

  -- Event mode: the service's `async_send`, `async_recv`, `async_read` and `async_write`.
  unfoldable pub async_send_event : QueuePair → Buffers → ℕ → Sinks → Sinks
  unfolding finish_event
  async_send_event q bs id s = finish_event (posts.post_send q.config bs (new_op id) s.calls) s

  unfoldable pub async_recv_event : QueuePair → Buffers → ℕ → Sinks → Sinks
  unfolding finish_event
  async_recv_event q bs id s = finish_event (posts.post_recv q.config bs (new_op id) s.calls) s

  unfoldable pub async_read_event : QueuePair → Buffers → RemoteAddr → ℕ → Sinks → Sinks
  unfolding finish_event
  async_read_event q bs ra id s =
      finish_event (posts.post_read q.config ra bs (new_op id) s.calls) s

  unfoldable pub async_write_event : QueuePair → Buffers → RemoteAddr → ℕ → Sinks → Sinks
  unfolding finish_event
  async_write_event q bs ra id s =
      finish_event (posts.post_write q.config ra bs (new_op id) s.calls) s

  -- The queue pair's own, which choose by the mode.
  unfoldable pub async_send : QpObject → Buffers → ℕ → Sinks → Sinks
  unfolding async_send_event async_send_static
  async_send q bs id s =
      if is_some q.io_ctx then async_send_event q.impl bs id s else async_send_static q.impl bs id s

  unfoldable pub async_recv : QpObject → Buffers → ℕ → Sinks → Sinks
  unfolding async_recv_event async_recv_static
  async_recv q bs id s =
      if is_some q.io_ctx then async_recv_event q.impl bs id s else async_recv_static q.impl bs id s

  unfoldable pub async_write : QpObject → Buffers → RemoteAddr → ℕ → Sinks → Sinks
  unfolding async_write_event async_write_static
  async_write q bs ra id s =
      if is_some q.io_ctx
      then async_write_event q.impl bs ra id s
      else async_write_static q.impl bs ra id s

  unfoldable pub async_read : QpObject → Buffers → RemoteAddr → ℕ → Sinks → Sinks
  unfolding async_read_event async_read_static
  async_read q bs ra id s =
      if is_some q.io_ctx
      then async_read_event q.impl bs ra id s
      else async_read_static q.impl bs ra id s
