-- ===== src/Connector/Teardown.antt =====
-- disconnect() and the destruction of ibv/detail/ibv_service_connector.hpp.
use rdma_on_asio.Base.{ℕ, ◌+◌, ◌<◌, ◌≡◌, Bool, true, [], ◌∷◌, none, some, arith, if◌then◌else◌}
use rdma_on_asio.Cm.{
  Env, Log, Call, checked_call, call, drain_cm_events, cleanup_descriptor_data,
  deregister_descriptor, rdma_destroy_qp, rdma_destroy_id, rdma_destroy_event_channel,
}
use rdma_on_asio.Cm
use rdma_on_asio.Error.{cleared}
use rdma_on_asio.Cm.Drain.{disconnects, Balanced, IsFinite, drain_cm_events_lem}
use rdma_on_asio.Connect.{connected, closed, is_state}
use rdma_on_asio.Connect.Race.{
  Machine, is_settled, claim, act, run, step, claim_by_disconnect, act_pending, act_on,
}
use rdma_on_asio.Connector.{Connector, is_open, disconnect, close_for_destruction}

-- A second disconnect() of an open connector changes nothing, reports no error and calls nothing.
disconnect_twice :
    (env : Env) (c : Connector) (log : Log)
    → is_open c ≡ true
    → let ((c', ec), log') = disconnect env c log in
      (c'.state ≡ closed) × (disconnect env c' log' ≡ ((c', cleared), log'))
unfolding disconnect
disconnect_twice env c log h = ground arith

-- disconnect() calls rdma_disconnect once where the state is `connected`, and never elsewhere.
disconnects-disconnect :
    (env : Env) (c : Connector) (log : Log)
    → is_open c ≡ true
    → disconnects (disconnect env c log).1
      ≡ (if is_state c.state connected then 1 else 0) + disconnects log
unfolding disconnect Cm.disconnect checked_call call disconnects
disconnects-disconnect env c log h = ground arith

-- The two actions of the schedules, one after the other while no event is being processed, are
-- disconnect(): they leave the same state and call rdma_disconnect as often.
pub disconnect-claim_act :
    (env : Env) (c : Connector) (m : Machine)
    → is_open c ≡ true
    → c.state ≡ m.run.state
    → m.pending ≡ []
    → is_settled m.pc ≡ true
    → let ((c', ec), log') = disconnect env c m.run.log in
      let m' = run env (claim ∷ act ∷ []) m in
      (c'.state ≡ m'.run.state) × (m'.pending ≡ []) × (disconnects log' ≡ disconnects m'.run.log)
unfolding disconnect Cm.disconnect checked_call call disconnects run step claim_by_disconnect
    act_pending act_on
disconnect-claim_act env c m h s p k = ground arith

-- Destroying an open connector whose channel runs dry within the fuel ends, both handles given up. It
-- withdraws the descriptor, drains the channel (every event reported is acknowledged, an ESTABLISHED one
-- answered by rdma_disconnect), and only then destroys the queue pair, if there is one, the id and the
-- channel, in this order.
pub close_for_destruction_lem :
    (env : Env) (has_qp : Log → ℕ → Bool) (pending : Log → ℕ) (fuel channel id : ℕ) (c : Connector)
    (log : Log)
    → c.cm_channel ≡ some channel
    → c.cm_id ≡ some id
    → IsFinite env channel pending
    → let withdrawn = cleanup_descriptor_data ∷ deregister_descriptor channel ∷ log in
      pending withdrawn < fuel
      → (drained : Log) × Balanced env withdrawn drained
        × (close_for_destruction env has_qp fuel c log
            ≡ some (
              record c { cm_channel = none; cm_id = none },
              rdma_destroy_event_channel channel
                  ∷ rdma_destroy_id id
                  ∷ (if has_qp drained id then rdma_destroy_qp id ∷ drained else drained),
            ))
unfolding close_for_destruction
close_for_destruction_lem env has_qp pending fuel channel id c log ch i fin h =
    let withdrawn = cleanup_descriptor_data ∷ deregister_descriptor channel ∷ log in
    let (drained, e, b) = drain_cm_events_lem env channel id pending fin fuel withdrawn h in
    (drained, b, ground arith)
