-- ===== src/Connect/Race/Routing.antt =====
-- The segment that creates the queue pair and resolves the route keeps the invariant of Counts.
use rdma_on_asio.Base.{◌≡◌, ◌≢◌, refl, true, false, none, some, arith}
use rdma_on_asio.Error.{ErrorCode}
use rdma_on_asio.Cm.{Env, Log, CmEvent, is_established}
use rdma_on_asio.Cm.Drain.{disconnects, established_acks}
use rdma_on_asio.Connect.{ConnectState, connected, is_state, CreateQp, run_create_qp, Run}
use rdma_on_asio.Connect.Race.{Pc, routing, Machine, moved, route_segment}
use rdma_on_asio.Connect.Race.Counts.{is_tearing, is_held, is_over, event_fits, IsQuiet, Inv}

run_create_qp-quiet :
    (c : CreateQp) (ec : ErrorCode) (log : Log)
    → IsQuiet c
    → (disconnects (run_create_qp c ec log).1 ≡ disconnects log)
      × (established_acks (run_create_qp c ec log).1 ≡ established_acks log)
run_create_qp-quiet none ec log q = (refl, refl)
run_create_qp-quiet (some f) ec log q = q log

-- What `route_segment` leaves alone, and where it ends.
record RouteEnds (e : CmEvent) (r : Run) (x : Run × Pc) : Type 0 where
  state_kept : x.0.state ≡ r.state
  no_disconnect : disconnects x.0.log ≡ disconnects r.log
  no_established : established_acks x.0.log ≡ established_acks r.log
  not_held : is_held x.1 ≡ false
  not_tearing : is_tearing x.1 ≡ false
  not_over : is_over x.1 ≡ false
  fits : event_fits x.1 ≡ true

route_segment-RouteEnds :
    (env : Env) (e : CmEvent) (r : Run)
    → IsQuiet r.op.create_qp
    → is_established e.event ≡ false
    → RouteEnds e r (route_segment env e r)
unfolding route_segment disconnects established_acks
route_segment-RouteEnds env e r q h = record {
  state_kept = ground arith;
  no_disconnect = ground (arith, run_create_qp-quiet r.op.create_qp r.op.ec r.log q);
  no_established = ground (arith, run_create_qp-quiet r.op.create_qp r.op.ec r.log q);
  not_held = ground arith;
  not_tearing = ground arith;
  not_over = ground arith;
  fits = ground arith;
}

not_connected : (s : ConnectState) → s ≢ connected → is_state s connected ≡ false
not_connected s h = ground arith

-- A run that is not up, with nobody owing on account of it.
RouteEnds-Inv :
    (e : CmEvent) (m : Machine) (x : Run × Pc)
    → m.pc ≡ routing e
    → RouteEnds e m.run x
    → Inv m
    → Inv (moved m x)
RouteEnds-Inv e m (r, pc) q k v = record {
  balance = ground arith;
  untouched = ground arith;
  single = ground arith;
  up = ground arith;
  claimed = ground arith;
  held_fits = ground arith;
}

pub route-Inv :
    (env : Env) (e : CmEvent) (m : Machine)
    → IsQuiet m.run.op.create_qp
    → m.pc ≡ routing e
    → Inv m
    → Inv (moved m (route_segment env e m.run))
route-Inv env e m quiet q v =
    RouteEnds-Inv e m (route_segment env e m.run) q
      (route_segment-RouteEnds env e m.run quiet (ground arith)) v
