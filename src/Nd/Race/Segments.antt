-- ===== src/Nd/Race/Segments.antt =====
-- The segments of Nd.Race, run without interruption, are start_connect_op, the completion of the connect
-- operation and disconnect().
use rdma_on_asio.Base.{◌≡◌, true, none, [], arith}
use rdma_on_asio.Error.{ErrorCode}
use rdma_on_asio.Nd.{Env, overlapped, plain}
use rdma_on_asio.Nd.Operations.{
  ConnectRun, Status, completed, continuation, mark_connected, connect_complete, resume_process,
  do_process, process_complete_connect,
}
use rdma_on_asio.Nd.Connector.{is_open, start_connect_op, disconnect}
use rdma_on_asio.Nd.Race.{
  Pc, starting, handed, retired, Machine, Request, claim, act, publish, issue, complete_connecting,
  complete_at, mark, proceed, act_calls, act_pending, claim_by_disconnect, step,
}

-- The next two segments.
unfoldable pub resume : Env → Request → ConnectRun × Pc → ConnectRun × Pc
unfolding proceed
resume env q (r, pc) =
    let (r', pc') = proceed env q r pc in let (r'', pc'') = proceed env q r' pc' in (r'', pc'')

-- Where an operation stands after its completion.
abbrev pub pc_of : ErrorCode → Status → Pc
pc_of ec completed = retired ec
pc_of ec continuation = handed none

abbrev pub completed_at : ConnectRun × ErrorCode × Status → ConnectRun × Pc
completed_at (r, ec, status) = (r, pc_of ec status)

resume-starting :
    (env : Env) (q : Request) (r : ConnectRun)
    → r.state ≡ q.conn.state
    → let (r', pc) = resume env q (r, starting) in
      let (c, log) =
        start_connect_op env q.device q.qp q.endpoint q.is_v4 q.private_data q.conn r.log in
      (r'.state ≡ c.state) × (r'.log ≡ log)
unfolding resume publish issue start_connect_op overlapped plain
resume-starting env q r e = ground (arith, e)

resume-complete_at :
    (env : Env) (q : Request) (ec : ErrorCode) (r : ConnectRun)
    → resume env q (complete_at env q ec r) ≡ completed_at (connect_complete env true ec r)
unfolding resume complete_at complete_connecting mark connect_complete resume_process do_process
    process_complete_connect mark_connected
resume-complete_at env q ec r = ground arith

claim-act :
    (env : Env) (q : Request) (m : Machine)
    → is_open q.conn ≡ true
    → q.conn.state ≡ m.run.state
    → q.conn.peer_closed ≡ m.peer_closed
    → m.pending ≡ []
    → let m' = step env q act (step env q claim m) in
      let ((c, ec), log) = disconnect env q.conn m.run.log in
      (m'.run.state ≡ c.state) × (m'.peer_closed ≡ c.peer_closed) × (m'.run.log ≡ log)
unfolding step act_pending claim_by_disconnect act_calls disconnect overlapped
claim-act env q m o s p e = ground (arith, o, s, p, e)

-- With nothing in between, the segments are the uncut code: those from the start are start_connect_op,
-- those of a delivery are the completion of the connect operation, and the exchange of an open
-- connector's disconnect() with what it does next are that disconnect(): the same state and the same
-- calls, and for a completion the same operation and code.
pub segments_uncut :
    (env : Env) (q : Request) (ec : ErrorCode) (r : ConnectRun) (m : Machine)
    → r.state ≡ q.conn.state
    → is_open q.conn ≡ true
    → q.conn.state ≡ m.run.state
    → q.conn.peer_closed ≡ m.peer_closed
    → m.pending ≡ []
    → let (started, at) = resume env q (r, starting) in
      let (c, log) =
        start_connect_op env q.device q.qp q.endpoint q.is_v4 q.private_data q.conn r.log in
      let m' = step env q act (step env q claim m) in
      let ((c', result), log') = disconnect env q.conn m.run.log in
      ((started.state ≡ c.state) × (started.log ≡ log))
      × (resume env q (complete_at env q ec r) ≡ completed_at (connect_complete env true ec r))
      × ((m'.run.state ≡ c'.state) × (m'.peer_closed ≡ c'.peer_closed) × (m'.run.log ≡ log'))
segments_uncut env q ec r m s o t p e =
    (resume-starting env q r s, resume-complete_at env q ec r, claim-act env q m o t p e)
