-- ===== src/Nd/Race/Lost.antt =====
-- A connection of Nd.Race that disconnect() does not take down: CompleteConnect has succeeded, and the
-- exchange to `connected` has not been made yet.
use rdma_on_asio.Base.{◌≡◌, true, false, none, some, List, [], ◌∷◌, arith}
use rdma_on_asio.Error.{ErrorCode}
use rdma_on_asio.Nd.{ConnectState, idle, closed, Env, overlapped, plain}
use rdma_on_asio.Nd.Operations.{ConnectRun, capture_remote_pd, mark_connected}
use rdma_on_asio.Nd.Connector.Life.{disconnects}
use rdma_on_asio.Nd.Race.{
  Pc, starting, issuing, marking, handed, rejecting, failing, retired, Machine, Request, Action,
  deliver, go_on, claim, act, publish, issue, complete_connecting, complete_at, mark, proceed,
  deliver_at, act_pending, claim_by_disconnect, step, run, start,
}
use rdma_on_asio.Nd.Race.Invariant.{succeeded, has_failed, run-Inv, step-Inv}

-- The state is closed for good, and the operation does not succeed.
record Closed (r : ConnectRun) (pc : Pc) : Type 0 where
  down : r.state ≡ closed
  codes : has_failed pc ≡ true
  unmade : succeeded pc ≡ false

capture_remote_pd-state : (env : Env) (r : ConnectRun) → (capture_remote_pd env r).state ≡ r.state
unfolding capture_remote_pd
capture_remote_pd-state env r = ground arith

complete_at-Closed :
    (env : Env) (q : Request) (ec : ErrorCode) (r : ConnectRun)
    → r.state ≡ closed
    → let (r', pc) = complete_at env q ec r in Closed r' pc
unfolding complete_at complete_connecting
complete_at-Closed env q ec r h = ground (arith, capture_remote_pd-state env r)

proceed-Closed :
    (env : Env) (q : Request) (r : ConnectRun) (pc : Pc)
    → Closed r pc
    → let (r', pc') = proceed env q r pc in Closed r' pc'
unfolding proceed publish issue mark mark_connected overlapped plain
proceed-Closed env q r starting h = ground (arith, h.down)
proceed-Closed env q r issuing h = ground (arith, h.down)
proceed-Closed env q r marking h = ground (arith, h.down)
proceed-Closed env q r (handed o) h = h
proceed-Closed env q r (rejecting ec) h = ground (arith, h.codes)
proceed-Closed env q r (failing ec) h = ground (arith, h.codes)
proceed-Closed env q r (retired ec) h = h

deliver_at-Closed :
    (env : Env) (q : Request) (ec : ErrorCode) (r : ConnectRun) (pc : Pc)
    → Closed r pc
    → let (r', pc') = deliver_at env q ec r pc in Closed r' pc'
unfolding deliver_at
deliver_at-Closed env q ec r (handed none) h = complete_at-Closed env q ec r h.down
deliver_at-Closed env q ec r (handed (some e)) h = complete_at-Closed env q e r h.down
deliver_at-Closed env q ec r starting h = h
deliver_at-Closed env q ec r issuing h = h
deliver_at-Closed env q ec r marking h = h
deliver_at-Closed env q ec r (rejecting e) h = h
deliver_at-Closed env q ec r (failing e) h = h
deliver_at-Closed env q ec r (retired e) h = h

act_pending-Closed :
    (env : Env) (q : Request) (pending : List ConnectState) (m : Machine)
    → Closed m.run m.pc
    → Closed (act_pending env q pending m).run (act_pending env q pending m).pc
unfolding act_pending
act_pending-Closed env q [] m h = h
act_pending-Closed env q (old ∷ rest) m h = record {
  down = h.down;
  codes = h.codes;
  unmade = h.unmade;
}

step-Closed :
    (env : Env) (q : Request) (a : Action) (m : Machine)
    → Closed m.run m.pc
    → Closed (step env q a m).run (step env q a m).pc
unfolding step claim_by_disconnect
step-Closed env q (deliver ec) m h = deliver_at-Closed env q ec m.run m.pc h
step-Closed env q go_on m h = proceed-Closed env q m.run m.pc h
step-Closed env q claim m h = ground (arith, h.down, h.codes, h.unmade)
step-Closed env q act m h = act_pending-Closed env q m.pending m h

run-Closed :
    (env : Env) (q : Request) (actions : List Action) (m : Machine)
    → Closed m.run m.pc
    → Closed (run env q actions m).run (run env q actions m).pc
unfolding run
run-Closed env q [] m h = h
run-Closed env q (a ∷ actions) m h =
    run-Closed env q actions (step env q a m) (step-Closed env q a m h)

-- The connection that is not taken down: where a schedule has brought the operation behind a
-- CompleteConnect that succeeded and before its exchange, and a disconnect() makes its exchange there,
-- Disconnect is never called, whatever follows, and the state stays `closed`.
pub claim-never_disconnected :
    (env : Env) (q : Request) (r : ConnectRun) (before after : List Action)
    → r.state ≡ idle
    → disconnects r.log ≡ 0
    → (run env q before (start r)).pc ≡ marking
    → let m = run env q after (step env q claim (run env q before (start r))) in
      (disconnects m.run.log ≡ 0) × (m.run.state ≡ closed)
unfolding step claim_by_disconnect
claim-never_disconnected env q r before after s n p =
    let mid = run env q before (start r) in
    let w = run-Inv env q before (start r) (ground (arith, s, n)) in
    let claimed = step env q claim mid in
    let c : Closed claimed.run claimed.pc = ground (arith, p) in
    let v = run-Inv env q after claimed (step-Inv env q claim mid w) in
    let d = run-Closed env q after claimed c in (ground (arith, v.counted, d.unmade), d.down)
