-- ===== src/QueuePair/Binding.antt =====
-- ibv/ibv_queue_pair.hpp and ibv/impl/ibv_queue_pair.ipp: binding a queue pair, and moving it.
use rdma_on_asio.Base.{ℕ, ◌≡◌, ◌⊎◌, true, false, Option, some, arith, is_some}
use rdma_on_asio.Error.{is_error}
use rdma_on_asio.Config.{Config}
use rdma_on_asio.Devices.{Device}
use rdma_on_asio.Devices.Registration.{Services, bind_event, bind_poll}
use rdma_on_asio.QueuePair.{
  QpObject, move_construct, unbound, event, poll, bound_type, bind_io_context,
  bind_completion_queue,
}

-- A bind that fails leaves the queue pair as it was and starts no poller, and a bind of a registered
-- io_context's queue or of a completion queue's gives the mode asked for; the mode moves with the object.
binds_lem :
    (ctx : ℕ) (s : Services) (device : Option Device) (cq : ℕ) (config : Config) (q : QpObject)
    → is_some s.cq ≡ true
    → let (q', ec, started) = bind_io_context ctx s q in
      let (p, ec') = bind_completion_queue device (some cq) config q in
      (((is_error ec ≡ true) × (q' ≡ q) × (started ≡ false))
        ⊎ ((is_error ec ≡ false)
            × (bound_type q' ≡ event)
            × (started ≡ true)
            × (bound_type q ≡ unbound)
            × (s.registered ≡ true)))
      × (((is_error ec' ≡ true) × (p ≡ q))
          ⊎ ((is_error ec' ≡ false) × (bound_type p ≡ poll) × (bound_type q ≡ unbound)))
      × (bound_type (move_construct q').0 ≡ bound_type q')
      × (bound_type (move_construct q').1 ≡ unbound)
unfolding bind_io_context bind_completion_queue bind_event bind_poll bound_type move_construct
binds_lem ctx s device cq config q h = ground (arith, h)
