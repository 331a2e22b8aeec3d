-- ===== src/Nd/PollQueue/Ready.antt =====
-- The completion queues of ibv/ibv_completion_queue.hpp and nd/nd_completion_queue.hpp, from the constructor to
-- the queue pair that is bound to one.
use rdma_on_asio.Base.{ℕ, ◌+◌, ◌<◌, ◌≡◌, true, false, some, arith, is_some}
use rdma_on_asio.Error.{is_error}
use rdma_on_asio.Config.{Config, derive_effective_config, is_config_compatible}
use rdma_on_asio.Config.Laws.{
  FitsDevice, is_config_compatible_iff, derive_effective_config-compatible,
}
use rdma_on_asio.Memory.{Result, returns, throws}
use rdma_on_asio.Devices.{Device}
use rdma_on_asio.Devices.Registration.{VerbsEnv, VerbsLog, bind_poll}
use rdma_on_asio.Devices.Registration.Registered.{SetsErrno, create_cq-some}
use rdma_on_asio.Devices.PollQueue.{PollQueue, create_poll_queue}
use rdma_on_asio.QueuePair.{default_qp, poll, bound_type, bind_completion_queue}
use rdma_on_asio.Nd.{Env, Log}
use rdma_on_asio.Nd.Adapter as Adapter
use rdma_on_asio.Nd.Adapter.Laws.{FitsAdapter}
use rdma_on_asio.Nd.Registration.{NdAdapter}
use rdma_on_asio.Nd.Registration.Registered.{
  files_made, files_closed, queues_made, queues_released, derived-FitsAdapter,
}
use rdma_on_asio.Nd.PollQueue as Polled
use rdma_on_asio.Nd.PollQueue.{NdPollQueue, destroy_poll_queue}

-- A queue that polls at least one completion at a time, within the device's limits, and that a new queue
-- pair can be bound to; or an error.
abbrev pub Ready : Device → Result PollQueue → Type 0
Ready device (throws e) = is_error e ≡ true
Ready device (returns q) =
    (is_some q.cq ≡ true)
    × (0 < q.wc_buf)
    × FitsDevice q.effective_config device.attr
    × (let (p, ec) = bind_completion_queue (some q.device) q.cq q.effective_config default_qp in
        (is_error ec ≡ false) × (bound_type p ≡ poll))

-- Files and queues that are held after `log'` and were not after `log`.
abbrev pub Holds : Env → ℕ → Log → Log → Type 0
Holds env n log log' =
    (files_made env log' + files_closed log ≡ files_made env log + files_closed log' + n)
    × (queues_made env log' + queues_released log ≡ queues_made env log + queues_released log' + n)

-- The same of the other backend; the error leaves no file and no queue, and the destructor gives both
-- back.
abbrev pub NdReady : Env → NdAdapter → Log → Result NdPollQueue × Log → Type 0
NdReady env device log (throws e, log') = (is_error e ≡ true) × Holds env 0 log log'
NdReady env device log (returns q, log') =
    (0 < q.wc_buf)
    × FitsAdapter q.effective_config device.info
    × Holds env 1 log log'
    × Holds env 0 log (destroy_poll_queue q log')

create_poll_queue-Ready :
    (env : VerbsEnv) (device : Device) (config : Config) (log : VerbsLog)
    → SetsErrno env
    → is_config_compatible config device.attr ≡ true
    → Ready device (create_poll_queue env device config log).0
unfolding create_poll_queue bind_completion_queue bind_poll bound_type
create_poll_queue-Ready env device config log h c =
    let effective = derive_effective_config config device.attr in
    let fits =
      (is_config_compatible_iff effective device.attr).0
        (derive_effective_config-compatible config device.attr c) in
    ground (arith, create_cq-some env device.context effective.cqe 0 log h, fits)

create_poll_queue-NdReady :
    (env : Env) (device : NdAdapter) (config : Config) (log : Log)
    → Adapter.is_config_compatible config device.info ≡ true
    → NdReady env device log (Polled.create_poll_queue env device config log)
unfolding Polled.create_poll_queue destroy_poll_queue
create_poll_queue-NdReady env device config log c =
    ground (arith, derived-FitsAdapter config device c)

-- The constructor of a poll-mode completion queue, with a configuration that the device supports, throws an
-- error or makes a queue that polls at least one completion at a time, with a configuration within the
-- device's limits. In the ibv backend, where failing calls set errno, a new queue pair can be bound to it, in
-- poll mode; in the nd backend an error leaves no file and no queue, and the destructor gives both back.
pub create_poll_queues-Ready :
    (verbs : VerbsEnv) (env : Env) (device : Device) (adapter : NdAdapter) (config : Config)
    (verbs_log : VerbsLog) (log : Log)
    → SetsErrno verbs
    → is_config_compatible config device.attr ≡ true
    → Adapter.is_config_compatible config adapter.info ≡ true
    → Ready device (create_poll_queue verbs device config verbs_log).0
      × NdReady env adapter log (Polled.create_poll_queue env adapter config log)
create_poll_queues-Ready verbs env device adapter config verbs_log log h c d = (
  create_poll_queue-Ready verbs device config verbs_log h c,
  create_poll_queue-NdReady env adapter config log d,
)
