-- ===== src/Connect/Race/Segments.antt =====
-- The segments of a race, run without interruption, are the operation's do_process.
use rdma_on_asio.Base.{
  ◌≡◌, refl, arith, some, Bool, true, false, if◌then◌else◌, is_some, ◌&&◌, ℕ, List, Option,
}
use rdma_on_asio.Base.Int.{ℤ, is_nonzero}
use rdma_on_asio.Error.{ErrorCode, asio, operation_aborted, is_error}
use rdma_on_asio.Cm.{
  Env, CmEvent, resolve_route, EventType, addr_resolved, route_resolved, established,
}
use rdma_on_asio.Connect.{
  Run, Stage, Status, done, not_done, do_process, do_process_at, fail, create_and_route, addr_route,
  run_create_qp, set_ec, ConnectState, addr_resolve, is_state, aborted_by_disconnect,
}
use rdma_on_asio.Connect.Race.{
  Pc, starting, arming, armed, finished, completed, routing, calling_connect, adopting, tearing,
  claiming, begin_at, ack_if_finished, proceed, ack, route_segment,
}

-- The claim of `closed` at the end of a failed segment.
unfoldable pub finish_claim : Env → Run × Pc → Run × Pc
unfolding proceed
finish_claim env (r, claiming e ec) = proceed env r (claiming e ec)
finish_claim env (r, starting) = (r, starting)
finish_claim env (r, arming) = (r, arming)
finish_claim env (r, armed) = (r, armed)
finish_claim env (r, finished) = (r, finished)
finish_claim env (r, completed) = (r, completed)
finish_claim env (r, routing e) = (r, routing e)
finish_claim env (r, calling_connect e) = (r, calling_connect e)
finish_claim env (r, adopting e) = (r, adopting e)
finish_claim env (r, tearing e) = (r, tearing e)

-- The segments behind the first, up to the return of `do_perform`.
unfoldable pub resume : Env → Run × Pc → Run × Pc
unfolding proceed finish_claim
resume env (r, routing e) = finish_claim env (proceed env r (routing e))
resume env (r, calling_connect e) = finish_claim env (proceed env r (calling_connect e))
resume env (r, adopting e) = proceed env r (adopting e)
resume env (r, tearing e) = proceed env r (tearing e)
resume env (r, claiming e ec) = proceed env r (claiming e ec)
resume env (r, starting) = (r, starting)
resume env (r, arming) = (r, arming)
resume env (r, armed) = (r, armed)
resume env (r, finished) = (r, finished)
resume env (r, completed) = (r, completed)

-- Where the operation stands after `do_perform` reported a status.
abbrev pub pc_of : Status → Pc
pc_of not_done = armed
pc_of done = finished

-- The run and the place after `do_process`, its event acknowledged.
abbrev pub processed : CmEvent → Run × Status → Run × Pc
processed e (r, status) = (ack e r, pc_of status)

-- A segment with two failures, as a machine's and as the operation's.
finish_claim-if :
    (env : Env) (a b : Bool) (e : CmEvent) (r r' z : Run) (qp_ec ec : ErrorCode)
    → finish_claim env
        (if a then (r, claiming e qp_ec) else if b then (r', claiming e ec) else (ack e z, armed))
      ≡ processed e (if a then fail r qp_ec else if b then fail r' ec else (z, not_done))
unfolding finish_claim
finish_claim-if env true b e r r' z qp_ec ec = refl
finish_claim-if env false true e r r' z qp_ec ec = refl
finish_claim-if env false false e r r' z qp_ec ec = refl

finish_claim-route_segment :
    (env : Env) (e : CmEvent) (r : Run)
    → finish_claim env (route_segment env e r) ≡ processed e (create_and_route env r)
unfolding route_segment create_and_route
finish_claim-route_segment env e r =
    let (qp_ec, log) = run_create_qp r.op.create_qp r.op.ec r.log in
    let (o, log') = resolve_route env (some r.op.cm_id) r.op.timeout log in
    let r' = set_ec (record r { log = log' }) o.ec in
    finish_claim-if env (is_some r.op.create_qp && is_error qp_ec) (is_nonzero o.rc) e
      (set_ec (record r { log = log }) qp_ec) r'
      (record r' { op = record (r'.op) { stage = Stage.addr_route } }) qp_ec o.ec

-- The exchange of the first stage, as it stored or not.
resume-exchange :
    (env : Env) (stored : Bool) (e : CmEvent) (r : Run)
    → let x : Bool × ConnectState = if stored then (true, addr_route) else (false, r.state) in
      let r' = record r { state = x.1 } in
      resume env (
        ack_if_finished e
          (if x.0 then (r', routing e) else (set_ec r (asio operation_aborted), finished)))
      ≡ processed e (if x.0 then create_and_route env r' else aborted_by_disconnect r)
unfolding resume aborted_by_disconnect
resume-exchange env true e r = finish_claim-route_segment env e (record r { state = addr_route })
resume-exchange env false e r = refl

-- The event by its fields, so that its type can be matched.
abbrev event_of : EventType → ℤ → Option (List ℕ) → ℕ → CmEvent
event_of t status bytes id = record { event = t; status = status; private_data = bytes; id = id }

segments_at :
    (env : Env) (s : Stage) (t : EventType) (st : ℤ) (pd : Option (List ℕ)) (id : ℕ) (r : Run)
    → resume env (ack_if_finished (event_of t st pd id) (begin_at s (event_of t st pd id) r))
      ≡ processed (event_of t st pd id) (do_process_at env s (event_of t st pd id) r)
unfolding resume begin_at do_process_at
segments_at env Stage.addr_resolve addr_resolved st pd id r =
    resume-exchange env (is_state r.state addr_resolve) (event_of addr_resolved st pd id) r
segments_at env Stage.addr_resolve _ st pd id r = ground arith
segments_at env Stage.addr_route route_resolved st pd id r = ground arith
segments_at env Stage.addr_route _ st pd id r = ground arith
segments_at env Stage.connect established st pd id r = ground arith
segments_at env Stage.connect _ st pd id r = ground arith
segments_at env Stage.done t st pd id r = refl
segments_at env Stage.error t st pd id r = refl

-- Run with nothing in between, the first access and the segments behind it are the operation's
-- do_process, in every stage and for every event: the same state, operation, calls and status.
pub segments_do_process :
    (env : Env) (e : CmEvent) (r : Run)
    → resume env (ack_if_finished e (begin_at r.op.stage e r)) ≡ processed e (do_process env e r)
unfolding do_process
segments_do_process env e r = segments_at env r.op.stage e.event e.status e.private_data e.id r
