-- ===== src/Tests/Races.antt =====
-- The theorems on the NetworkDirect connector under interleavings, on concrete schedules.
use rdma_on_asio.Base.{◌+◌, ◌≡◌, inl, refl, true, false, none, some, List, [], ◌∷◌}
use rdma_on_asio.Base.Int.{pos}
use rdma_on_asio.Error.{cleared, rdma, connector_terminal}
use rdma_on_asio.Config.{default_config}
use rdma_on_asio.Nd.{
  Env, ConnectState, idle, connecting, connected, closed, is_state, Stage, on_completion,
}
use rdma_on_asio.Nd.Operations.{ConnectRun, connect_complete, accept_complete}
use rdma_on_asio.Nd.Connector.{Connector, Device, async_connect, disconnect, start_connect_op}
use rdma_on_asio.Nd.Connector.Life.{disconnects, newest, completions-lose_connection}
use rdma_on_asio.Nd.Race.{
  Request, Action, deliver, go_on, claim, act, Machine, starting, start, step, run, complete_at,
}
use rdma_on_asio.Nd.Race.Invariant.{one, owed, succeeded, disconnects-run}
use rdma_on_asio.Nd.Race.Lost.{claim-never_disconnected}
use rdma_on_asio.Nd.Race.Segments.{resume, completed_at, segments_uncut}

-- Every call succeeds at once.
abbrev env : Env
env = record {
  hr = λ log c. pos 0;
  code = λ log c. cleared;
  made = λ log. 9;
  private_data = λ log. (2, 1 ∷ 2 ∷ []);
}

abbrev device : Device
device = some (record { adapter = 3; v4_address = some 5; v6_address = none }, default_config)

abbrev connector : ConnectState → Connector
connector s = record {
  connector = some 4;
  connector_handle = some 6;
  adapter = some (record { adapter = 3; v4_address = some 5; v6_address = none });
  state = s;
  peer_closed = false;
}

abbrev operation : ConnectState → ConnectRun
operation s = record {
  state = s;
  stage = Stage.connecting;
  connector = 4;
  has_reply_buf = true;
  reply_cap = 8;
  reply = [];
  log = [];
}

abbrev request : ConnectState → Request
request s = record {
  conn = connector s;
  device = device;
  qp = 8;
  endpoint = 20;
  is_v4 = true;
  private_data = 7 ∷ [];
}

-- Up to behind CompleteConnect.
abbrev up : List Action
up = go_on ∷ go_on ∷ deliver cleared ∷ []

-- The operation succeeds, and a disconnect() makes its exchange; it has not acted yet.
abbrev torn_down : List Action
torn_down = go_on ∷ go_on ∷ deliver cleared ∷ go_on ∷ claim ∷ []

disconnects-run_example :
    let m = run env (request idle) torn_down (start (operation idle)) in
    disconnects m.run.log + owed m.pending + one (is_state m.run.state connected)
    ≡ one (succeeded m.pc)
disconnects-run_example =
    disconnects-run env (request idle) (operation idle) torn_down (inl refl) refl

claim-never_disconnected_example :
    let m =
      run env
        (request idle)
        (go_on ∷ act ∷ go_on ∷ [])
        (step env (request idle) claim (run env (request idle) up (start (operation idle)))) in
    (disconnects m.run.log ≡ 0) × (m.run.state ≡ closed)
unfolding run step
claim-never_disconnected_example =
    claim-never_disconnected env (request idle) (operation idle) up (go_on ∷ act ∷ go_on ∷ []) refl
      refl refl

abbrev machine : Machine
machine = start (operation connecting)

segments_uncut_example :
    let q = request connecting in
    let (started, at) = resume env q (operation connecting, starting) in
    let (c, log) = start_connect_op env q.device q.qp q.endpoint q.is_v4 q.private_data q.conn [] in
    let m' = step env q act (step env q claim machine) in
    let ((c', result), log') = disconnect env q.conn [] in
    ((started.state ≡ c.state) × (started.log ≡ log))
    × (resume env q (complete_at env q cleared (operation connecting))
        ≡ completed_at (connect_complete env true cleared (operation connecting)))
    × ((m'.run.state ≡ c'.state) × (m'.peer_closed ≡ c'.peer_closed) × (m'.run.log ≡ log'))
segments_uncut_example =
    segments_uncut env (request connecting) cleared (operation connecting) machine refl refl refl
      refl refl

completions-lose_connection_example :
    let e = rdma connector_terminal in
    let c = connector connected in
    let (c', log') = async_connect env device (some 8) 20 true [] c [] in
    let lost = record c' { state = (connect_complete env true e (operation connected)).0.state } in
    let ((d', ec), after) = disconnect env (connector connecting) [] in
    ((newest log' ≡ some (on_completion e))
      × (c' ≡ c)
      × (lost.state ≡ closed)
      × (disconnects (disconnect env lost log').1 ≡ 0))
    × ((d'.state ≡ closed)
        × (disconnects after ≡ 0)
        × (accept_complete true true cleared d'.state ≡ connected))
completions-lose_connection_example =
    completions-lose_connection env device (some 8) 20 true [] (connector connected)
      (connector connecting) (operation connected) [] refl refl refl refl refl
