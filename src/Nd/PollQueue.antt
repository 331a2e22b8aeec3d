-- ===== src/Nd/PollQueue.antt =====
-- The constructor and the destructor of nd/nd_completion_queue.hpp and nd/impl/nd_completion_queue.ipp.
pub mod Ready
use rdma_on_asio.Base.{ℕ, Option, none, some, ◌∷◌, if◌then◌else◌, ◌==◌}
use rdma_on_asio.Error.{ErrorCode, nd, is_error}
use rdma_on_asio.Config.{Config, default_cq_poll_batch}
use rdma_on_asio.Memory.{Result, returns, throws}
use rdma_on_asio.Nd.{
  Env, Log, Act, create_overlapped_file, close_handle, create_completion_queue,
  release_completion_queue,
}
use rdma_on_asio.Nd.Adapter.{derive_effective_config}
use rdma_on_asio.Nd.Registration.{NdAdapter}

-- `nd_completion_queue` before its first operation; `wc_buf` is the buffer's size.
pub record NdPollQueue : Type 0 where
  pub device : NdAdapter
  pub effective_config : Config
  pub cq : ℕ
  pub handle : ℕ
  pub wc_buf : ℕ

-- The constructor, of a device that is not null. The queue is null where its creation fails.
unfoldable pub create_poll_queue : Env → NdAdapter → Config → Act (Result NdPollQueue)
create_poll_queue env device config log =
    let a = device.adapter.adapter in
    let effective = derive_effective_config config device.info in
    let file_ec = env.code log (create_overlapped_file a) in
    let handle = env.made log in
    let file_log = create_overlapped_file a ∷ log in
    let call = create_completion_queue a effective.cqe handle in
    let cq_ec = nd (env.hr file_log call) in
    let cq = env.made file_log in
    if is_error file_ec
    then (throws file_ec, file_log)
    else if is_error cq_ec
    then (throws cq_ec, close_handle handle ∷ call ∷ file_log)
    else (
      returns (record {
        device = device;
        effective_config = effective;
        cq = cq;
        handle = handle;
        wc_buf =
            if effective.cq_poll_batch == 0 then default_cq_poll_batch else effective.cq_poll_batch;
      }),
      call ∷ file_log,
    )

-- The members go in the reverse of their order: the handle is closed before the queue is released.
unfoldable pub destroy_poll_queue : NdPollQueue → Log → Log
destroy_poll_queue q log = release_completion_queue q.cq ∷ close_handle q.handle ∷ log
