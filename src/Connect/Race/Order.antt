-- ===== src/Connect/Race/Order.antt =====
-- connect_state only moves forward (ibv/detail/ibv_impl_types.hpp lists the states in that order).
use rdma_on_asio.Base.{◌≤◌, List, [], ◌∷◌, arith}
use rdma_on_asio.Cm.{Env, CmEvent}
use rdma_on_asio.Connect.{ConnectState, to_int, Stage, do_complete}
use rdma_on_asio.Connect.Race.{
  Machine, Action, deliver, go_on, act, step, run, moved, begin_at, ack_if_finished, got, Pc,
  starting, proceed, act_pending,
}

begin_at-le :
    (s : Stage) (e : CmEvent) (m : Machine)
    → to_int m.run.state ≤ to_int (moved m (ack_if_finished e (begin_at s e (got m.run)))).run.state
unfolding begin_at
begin_at-le Stage.addr_resolve e m = ground arith
begin_at-le _ e m = ground arith

proceed-le :
    (env : Env) (p : Pc) (m : Machine)
    → to_int m.run.state ≤ to_int (moved m (proceed env m.run p)).run.state
unfolding proceed do_complete
proceed-le env starting m = ground arith
proceed-le env _ m = ground arith

act-le :
    (env : Env) (waiting : List ConnectState) (m : Machine)
    → to_int m.run.state ≤ to_int (act_pending env waiting m).run.state
unfolding act_pending
act-le env [] m = ground arith
act-le env (old ∷ rest) m = ground arith

step-le :
    (env : Env) (a : Action) (m : Machine) → to_int m.run.state ≤ to_int (step env a m).run.state
unfolding step
step-le env (deliver e) m = ground (arith, begin_at-le m.run.op.stage e m)
step-le env go_on m = proceed-le env m.pc m
step-le env act m = act-le env m.pending m
step-le env _ m = ground arith

-- From any machine at all, no schedule moves the state back in the order idle, addr_resolve,
-- addr_route, connecting, connected, closed; so `closed` is final.
pub run-le :
    (env : Env) (actions : List Action) (m : Machine)
    → to_int m.run.state ≤ to_int (run env actions m).run.state
unfolding run
run-le env [] m = omega arith
run-le env (a ∷ actions) m = omega (arith, step-le env a m, run-le env actions (step env a m))
