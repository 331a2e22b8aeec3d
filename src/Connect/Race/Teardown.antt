-- ===== src/Connect/Race/Teardown.antt =====
-- How often rdma_disconnect is called for one connection, over every schedule.
use rdma_on_asio.Base.{ℕ, ◌≤◌, ◌<◌, ◌≡◌, ◌≢◌, true, some, List, [], arith}
use rdma_on_asio.Error.{is_aborted}
use rdma_on_asio.Cm.{Env, Log, drain_cm_events}
use rdma_on_asio.Cm.Drain.{disconnects, established_acks, IsFinite, drain_cm_events_lem}
use rdma_on_asio.Connect.{connected, closed, ConnectOp}
use rdma_on_asio.Connect.Race.{finished, Action, run, start}
use rdma_on_asio.Connect.Race.Counts.{IsQuiet, Inv, is_over}
use rdma_on_asio.Connect.Race.Invariant.{start-Inv, run-Inv}

-- A connect whose callback is quiet, on a connector that has neither disconnected nor been established.
pub record IsFresh (op : ConnectOp) (log : Log) : Type 0 where
  pub callback : IsQuiet op.create_qp
  pub none_disconnected : disconnects log ≡ 0
  pub none_established : established_acks log ≡ 0

reached :
    (env : Env) (op : ConnectOp) (log : Log) (actions : List Action)
    → IsFresh op log
    → Inv (run env actions (start op log))
reached env op log actions f =
    run-Inv env actions (start op log) f.callback
      (start-Inv op log f.none_disconnected f.none_established)

-- However the operation, its cancellation and any number of calls of disconnect() interleave,
-- rdma_disconnect is called at most once.
pub disconnects-run-le_one :
    (env : Env) (op : ConnectOp) (log : Log) (actions : List Action)
    → IsFresh op log
    → disconnects (run env actions (start op log)).run.log ≤ 1
disconnects-run-le_one env op log actions f =
    let m = run env actions (start op log) in ground (arith, reached env op log actions f)

-- Once the operation has retired, every call of disconnect() has acted and the state is `closed`,
-- rdma_disconnect was called exactly as often as an ESTABLISHED event was taken: whoever acted second
-- has torn the connection down.
pub disconnects-run_closed :
    (env : Env) (op : ConnectOp) (log : Log) (actions : List Action)
    → IsFresh op log
    → is_over (run env actions (start op log)).pc ≡ true
    → (run env actions (start op log)).pending ≡ []
    → (run env actions (start op log)).run.state ≡ closed
    → disconnects (run env actions (start op log)).run.log
      ≡ established_acks (run env actions (start op log)).run.log
disconnects-run_closed env op log actions f o p c = ground (arith, reached env op log actions f)

-- An operation that retires with operation_aborted never closes a connector that is up: where it is
-- about to complete so, the state is not `connected`.
pub aborted_not_connected :
    (env : Env) (op : ConnectOp) (log : Log) (actions : List Action)
    → IsFresh op log
    → (run env actions (start op log)).pc ≡ finished
    → is_aborted (run env actions (start op log)).run.op.ec ≡ true
    → (run env actions (start op log)).run.state ≢ connected
aborted_not_connected env op log actions f p a c = ground (arith, reached env op log actions f)

-- The connector's whole life: a schedule that ends torn down as above, then the drain of its channel at
-- destruction. If the channel runs dry within the fuel, the drain ends, and rdma_disconnect has then
-- been called once for each ESTABLISHED event that was ever taken.
pub drain-disconnects :
    (env : Env) (op : ConnectOp) (log : Log) (actions : List Action) (pending : Log → ℕ) (fuel : ℕ)
    → IsFresh op log
    → is_over (run env actions (start op log)).pc ≡ true
    → (run env actions (start op log)).pending ≡ []
    → (run env actions (start op log)).run.state ≡ closed
    → IsFinite env op.channel pending
    → pending (run env actions (start op log)).run.log < fuel
    → (log' : Log) × (drain_cm_events fuel env
          (some op.channel)
          (some op.cm_id)
          (run env actions (start op log)).run.log
        ≡ some log')
      × (disconnects log' ≡ established_acks log')
drain-disconnects env op log actions pending fuel f o p c fin k =
    let m = run env actions (start op log) in
    let (log', e, b) = drain_cm_events_lem env op.channel op.cm_id pending fin fuel m.run.log k in
    (log', e, omega (arith, b.all_disconnected, disconnects-run_closed env op log actions f o p c))
