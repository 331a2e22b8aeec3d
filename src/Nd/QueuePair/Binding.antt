-- ===== src/Nd/QueuePair/Binding.antt =====
-- Binding a queue pair of nd/nd_queue_pair.hpp, and where its operations go.
use rdma_on_asio.Base.{ℕ, ◌≡◌, Bool, true, false, Option, arith, is_some}
use rdma_on_asio.Error.{ErrorCode, asio, is_error, already_open}
use rdma_on_asio.Config.{Config}
use rdma_on_asio.Nd.{Env, Log, Act}
use rdma_on_asio.Nd.Registration.{NdAdapter, Services}
use rdma_on_asio.Nd.QueuePair.{
  NdQueuePair, is_bound, create_qp, bind_io_context, bind_completion_queue,
}

-- What a queue pair is bound to: an io_context with its services, or a completion queue with its device,
-- its handle and its effective configuration.
pub data Target : Type 0 where
  io_context : ℕ → Services → Target
  completion_queue : Option NdAdapter → Option ℕ → Config → Target

-- Either `bind`: the object, the code, and whether the poller was asked to start.
abbrev pub bind : Env → Target → NdQueuePair → Act (NdQueuePair × ErrorCode × Bool)
bind env (io_context ctx s) q log = bind_io_context env ctx s q log
bind env (completion_queue device cq config) q log =
    let ((q', ec), log') = bind_completion_queue env device cq config q log in
    ((q', ec, false), log')

-- The target has a queue; an io_context has a registered device.
abbrev pub HasQueue : Target → Type 0
HasQueue (io_context ctx s) = (s.registered ≡ true) × (is_some s.cq ≡ true)
HasQueue (completion_queue device cq config) = is_some cq ≡ true

stuck-bind :
    (env : Env) (b : Target) (q : NdQueuePair) (log : Log)
    → is_bound q ≡ true
    → bind env b q log ≡ ((q, asio already_open, false), log)
unfolding bind_io_context bind_completion_queue
stuck-bind env (io_context ctx s) q log h = ground (arith, h)
stuck-bind env (completion_queue device cq config) q log h = ground (arith, h)

failed-bind :
    (env : Env) (b : Target) (q : NdQueuePair) (log : Log)
    → is_bound q ≡ false
    → is_some q.qp ≡ false
    → HasQueue b
    → is_error (bind env b q log).0.1 ≡ true
    → let ((q', ec, started), log') = bind env b q log in
      (is_bound q' ≡ true) × (is_some q'.qp ≡ false) × (started ≡ false)
unfolding bind_io_context bind_completion_queue create_qp
failed-bind env (io_context ctx s) q log u n h e = ground (arith, u, n, h.0, h.1, e)
failed-bind env (completion_queue device cq config) q log u n h e = ground (arith, u, n, h, e)

-- A bind of an unbound queue pair, to an io_context or to a completion queue, that fails although the target
-- has its queue leaves the queue pair bound without a native queue pair and starts no poller; and no later
-- bind to anything succeeds: it reports already_open, changes nothing and makes no call.
pub bind-stuck :
    (env : Env) (b b' : Target) (q : NdQueuePair) (log : Log)
    → is_bound q ≡ false
    → is_some q.qp ≡ false
    → HasQueue b
    → is_error (bind env b q log).0.1 ≡ true
    → let ((q', ec, started), log') = bind env b q log in
      (is_bound q' ≡ true)
      × (is_some q'.qp ≡ false)
      × (started ≡ false)
      × (bind env b' q' log' ≡ ((q', asio already_open, false), log'))
bind-stuck env b b' q log u n h e =
    let ((q', ec, started), log') = bind env b q log in
    let (stays, empty, quiet) = failed-bind env b q log u n h e in
    (stays, empty, quiet, stuck-bind env b' q' log' stays)
