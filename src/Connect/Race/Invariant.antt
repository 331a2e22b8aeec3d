-- ===== src/Connect/Race/Invariant.antt =====
-- Every action of a race keeps the invariant of Counts.
use mathlib.Core.Path.{subst}
use rdma_on_asio.Base.{◌≡◌, refl, sym, List, [], ◌∷◌, arith}
use rdma_on_asio.Base.Int.{ℤ}
use rdma_on_asio.Cm.{Env, Log, CmEvent}
use rdma_on_asio.Cm.Drain.{disconnects, established_acks}
use rdma_on_asio.Connect.{ConnectState, ConnectOp, Stage, do_complete}
use rdma_on_asio.Connect.Race.{
  Pc, routing, Machine, Action, deliver, fault, go_on, cancel, claim, act, step, run, start,
  proceed, claim_by_disconnect, act_pending, moved, cancel_armed, ack_if_finished, begin_at, got,
}
use rdma_on_asio.Connect.Race.Delivery.{deliver-Inv}
use rdma_on_asio.Connect.Race.Routing.{route-Inv}
use rdma_on_asio.Connect.Race.Counts.{IsQuiet, Inv}

pub start-Inv :
    (op : ConnectOp) (log : Log)
    → disconnects log ≡ 0
    → established_acks log ≡ 0
    → Inv (start op log)
start-Inv op log d a = record {
  balance = omega arith;
  untouched = λ h. a;
  single = omega arith;
  up = λ h. cc;
  claimed = refl;
  held_fits = refl;
}

claim-Inv : (m : Machine) → Inv m → Inv (claim_by_disconnect m)
unfolding claim_by_disconnect
claim-Inv m v = record {
  balance = ground arith;
  untouched = ground arith;
  single = ground arith;
  up = ground arith;
  claimed = ground arith;
  held_fits = ground arith;
}

cancel-Inv : (m : Machine) → Inv m → Inv (cancel_armed m)
cancel-Inv m v = record {
  balance = ground arith;
  untouched = ground arith;
  single = ground arith;
  up = ground arith;
  claimed = ground arith;
  held_fits = ground arith;
}

act-Inv :
    (env : Env) (m : Machine) (old : ConnectState) (rest : List ConnectState)
    → m.pending ≡ old ∷ rest
    → Inv m
    → Inv (act_pending env (old ∷ rest) m)
unfolding act_pending disconnects established_acks
act-Inv env m old rest e v = record {
  balance = ground arith;
  untouched = ground arith;
  single = ground arith;
  up = ground arith;
  claimed = ground arith;
  held_fits = ground arith;
}

fault-Inv : (env : Env) (errno : ℤ) (m : Machine) → Inv m → Inv (step env (fault errno) m)
unfolding step disconnects established_acks
fault-Inv env errno m v = record {
  balance = ground arith;
  untouched = ground arith;
  single = ground arith;
  up = ground arith;
  claimed = ground arith;
  held_fits = ground arith;
}

module _ (env : Env) (m : Machine) (quiet : IsQuiet m.run.op.create_qp) where
  proceed-Inv : (p : Pc) → m.pc ≡ p → Inv m → Inv (moved m (proceed env m.run p))
  unfolding proceed do_complete disconnects established_acks
  proceed-Inv (routing e) q v = route-Inv env e m quiet q v
  proceed-Inv _ q v = record {
    balance = ground arith;
    untouched = ground arith;
    single = ground arith;
    up = ground arith;
    claimed = ground arith;
    held_fits = ground arith;
  }

pending-Inv :
    (env : Env) (m : Machine) (waiting : List ConnectState)
    → m.pending ≡ waiting
    → Inv m
    → Inv (act_pending env waiting m)
unfolding act_pending
pending-Inv env m [] e v = v
pending-Inv env m (old ∷ rest) e v = act-Inv env m old rest e v

-- Each action keeps the invariant, if the callback is quiet.
pub step-Inv :
    (env : Env) (a : Action) (m : Machine) → IsQuiet m.run.op.create_qp → Inv m → Inv (step env a m)
unfolding step
step-Inv env (deliver e) m q v = deliver-Inv e m v
step-Inv env (fault errno) m q v = fault-Inv env errno m v
step-Inv env go_on m q v = proceed-Inv env m q m.pc refl v
step-Inv env cancel m q v = cancel-Inv m v
step-Inv env claim m q v = claim-Inv m v
step-Inv env act m q v = pending-Inv env m m.pending refl v

-- No action changes the callback.
deliver-create_qp :
    (s : Stage) (e : CmEvent) (m : Machine)
    → (moved m (ack_if_finished e (begin_at s e (got m.run)))).run.op.create_qp ≡ m.run.op.create_qp
unfolding begin_at
deliver-create_qp Stage.addr_resolve e m = ground arith
deliver-create_qp _ e m = ground arith

step-create_qp :
    (env : Env) (a : Action) (m : Machine) → (step env a m).run.op.create_qp ≡ m.run.op.create_qp
unfolding step do_complete
step-create_qp env (deliver e) m = ground (arith, deliver-create_qp m.run.op.stage e m)
step-create_qp env _ m = ground arith

pub run-Inv :
    (env : Env) (actions : List Action) (m : Machine)
    → IsQuiet m.run.op.create_qp
    → Inv m
    → Inv (run env actions m)
unfolding run
run-Inv env [] m q v = v
run-Inv env (a ∷ actions) m q v =
    run-Inv env actions (step env a m) (subst IsQuiet (sym (step-create_qp env a m)) q)
      (step-Inv env a m q v)
