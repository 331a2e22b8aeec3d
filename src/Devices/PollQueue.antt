-- ===== src/Devices/PollQueue.antt =====
-- The constructor and the destructor of ibv/ibv_completion_queue.hpp and ibv/impl/ibv_completion_queue.ipp.
use rdma_on_asio.Base.{ℕ, Option, none, some, ◌∷◌, if◌then◌else◌, ◌==◌}
use rdma_on_asio.Error.{is_error}
use rdma_on_asio.Config.{Config, derive_effective_config}
use rdma_on_asio.Memory.{Result, returns, throws}
use rdma_on_asio.Devices.{Device}
use rdma_on_asio.Devices.Registration.{VerbsEnv, VerbsLog, create_cq, ibv_destroy_cq}

-- `ibv_completion_queue` before its first operation; `wc_buf` is the buffer's size.
pub record PollQueue : Type 0 where
  pub device : Device
  pub effective_config : Config
  pub cq : Option ℕ
  pub wc_buf : ℕ

-- The constructor, of a device that is not null; there is no channel in poll mode.
unfoldable pub create_poll_queue :
    VerbsEnv → Device → Config → VerbsLog → Result PollQueue × VerbsLog
unfolding create_cq
create_poll_queue env device config log =
    let effective = derive_effective_config config device.attr in
    let ((cq, ec), log') = create_cq env device.context effective.cqe 0 log in
    if is_error ec then (throws ec, log') else (
      returns (record {
        device = device;
        effective_config = effective;
        cq = cq;
        wc_buf = if effective.cq_poll_batch == 0 then 16 else effective.cq_poll_batch;
      }),
      log',
    )

unfoldable pub destroy_poll_queue : PollQueue → VerbsLog → VerbsLog
destroy_poll_queue q log = elim q.cq [ none ↦ log | some cq ↦ ibv_destroy_cq cq ∷ log ]
