-- ===== src/Nd/QueuePair.antt =====
-- nd/nd_queue_pair.hpp and nd/detail/impl/nd_service_verbs.ipp: the queue pair of the NetworkDirect backend, which
-- owns its native queue pair and makes it when it is bound. Where its operations go reads as in QueuePair.
pub mod Binding
pub mod Routed
pub mod Completed
use rdma_on_asio.Base.{
  ℕ, Bool, true, false, not, ◌||◌, Option, none, some, List, ◌∷◌, if◌then◌else◌, is_some,
}
use rdma_on_asio.Error.{
  ErrorCode, rdma, asio, nd, cleared, is_error, already_open, device_not_registered, invalid_device,
}
use rdma_on_asio.Memory.{RemoteAddr}
use rdma_on_asio.Config.{Config, default_config}
use rdma_on_asio.Verbs.{PostEnv, Buffers}
use rdma_on_asio.QueuePair
use rdma_on_asio.QueuePair.{Posts, Sinks}
use rdma_on_asio.Nd.{Env, Log, Act, QueuePairAttr, create_queue_pair}
use rdma_on_asio.Nd.Connector.{get}
use rdma_on_asio.Nd.Registration.{NdAdapter, Services}
use rdma_on_asio.Nd.Verbs.{do_post_send, do_post_recv, do_post_read, do_post_write}

abbrev pub nd_posts : PostEnv → Posts
nd_posts env = record {
  post_send = do_post_send env;
  post_recv = do_post_recv env;
  post_read = do_post_read env;
  post_write = do_post_write env;
}

-- `nd_queue_pair` with its `implementation_type`; `poll_cq` is whether completions are polled by the
-- caller.
pub record NdQueuePair : Type 0 where
  pub qp : Option ℕ
  pub cq : Option ℕ
  pub device : Option NdAdapter
  pub config : Config
  pub poll_cq : Bool
  pub io_ctx : Option ℕ

abbrev pub default_qp : NdQueuePair
default_qp = record {
  qp = none;
  cq = none;
  device = none;
  config = default_config;
  poll_cq = false;
  io_ctx = none;
}

abbrev pub is_bound : NdQueuePair → Bool
is_bound q = is_some q.cq

-- Is there a device with a protection domain?
abbrev pub has_pd : Option NdAdapter → Bool
has_pd none = false
has_pd (some a) = a.has_pd

abbrev pub interface_of : Option NdAdapter → ℕ
interface_of none = 0
interface_of (some a) = a.adapter.adapter

-- The move constructor: the new object, and what is left of the other.
unfoldable pub move_construct : NdQueuePair → NdQueuePair × NdQueuePair
move_construct other = (other, default_qp)

module _ (env : Env) where
  -- The native queue pair is null where its creation fails.
  unfoldable pub create_qp : NdQueuePair → Act (NdQueuePair × ErrorCode)
  create_qp q log =
      let attr : QueuePairAttr = record {
        receive_queue = get q.cq;
        initiator_queue = get q.cq;
        max_recv_wr = q.config.max_recv_wr;
        max_send_wr = q.config.max_send_wr;
        max_recv_sge = q.config.max_recv_sge;
        max_send_sge = q.config.max_send_sge;
        max_inline_data = q.config.max_inline_data;
      } in
      let call = create_queue_pair (interface_of q.device) attr in
      let ec = nd (env.hr log call) in
      if is_some q.qp
      then ((q, asio already_open), log)
      else if not (has_pd q.device) || not (is_some q.cq)
      then ((q, rdma invalid_device), log)
      else ((record q { qp = if is_error ec then none else some (env.made log) }, ec), call ∷ log)

  -- `bind` to the io_context `ctx`: the object, the code, and whether the poller was asked to start.
  unfoldable pub bind_io_context : ℕ → Services → NdQueuePair → Act (NdQueuePair × ErrorCode × Bool)
  unfolding create_qp
  bind_io_context ctx s q log =
      let bound = record q {
        io_ctx = some ctx;
        device = s.device;
        cq = s.cq;
        config = s.effective_config;
        poll_cq = false;
      } in
      let ((q', ec), log') = create_qp bound log in
      if is_bound q
      then ((q, asio already_open, false), log)
      else if not s.registered
      then ((q, rdma device_not_registered, false), log)
      else ((q', ec, not (is_error ec)), log')

  -- `bind` to a completion queue: its device, handle and effective configuration.
  unfoldable pub bind_completion_queue :
      Option NdAdapter → Option ℕ → Config → NdQueuePair → Act (NdQueuePair × ErrorCode)
  unfolding create_qp
  bind_completion_queue device cq config q log =
      let bound = record q {
        io_ctx = none;
        device = device;
        cq = cq;
        config = config;
        poll_cq = true;
      } in
      if is_bound q then ((q, asio already_open), log) else create_qp bound log

-- The operations of the queue pair, which choose by the mode.
abbrev pub object_of : NdQueuePair → QueuePair.QpObject
object_of q = record {
  impl = record { device = none; cq = q.cq; config = q.config; poll_cq = q.poll_cq; qp = q.qp };
  io_ctx = q.io_ctx;
}

unfoldable pub async_send : PostEnv → NdQueuePair → Buffers → ℕ → Sinks → Sinks
async_send env q bs id s = QueuePair.async_send (nd_posts env) (object_of q) bs id s

unfoldable pub async_recv : PostEnv → NdQueuePair → Buffers → ℕ → Sinks → Sinks
async_recv env q bs id s = QueuePair.async_recv (nd_posts env) (object_of q) bs id s

unfoldable pub async_write : PostEnv → NdQueuePair → Buffers → RemoteAddr → ℕ → Sinks → Sinks
async_write env q bs ra id s = QueuePair.async_write (nd_posts env) (object_of q) bs ra id s

unfoldable pub async_read : PostEnv → NdQueuePair → Buffers → RemoteAddr → ℕ → Sinks → Sinks
async_read env q bs ra id s = QueuePair.async_read (nd_posts env) (object_of q) bs ra id s
