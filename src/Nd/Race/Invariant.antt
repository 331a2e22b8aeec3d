-- ===== src/Nd/Race/Invariant.antt =====
-- What holds between any two actions of Nd.Race: Disconnect is called, owed or still possible exactly
-- where the operation has reported success.
use rdma_on_asio.Base.{
  ℕ, ◌+◌, ◌≡◌, ◌⊎◌, refl, Bool, true, false, not, none, some, List, [], ◌∷◌, arith,
}
use rdma_on_asio.Error.{ErrorCode, is_error}
use rdma_on_asio.Nd.{ConnectState, idle, connected, closed, is_state, Env, Log, overlapped, plain}
use rdma_on_asio.Nd.Operations.{ConnectRun, capture_remote_pd, mark_connected}
use rdma_on_asio.Nd.Connector.Life.{disconnects}
use rdma_on_asio.Nd.Race.{
  Pc, starting, issuing, marking, handed, rejecting, failing, retired, Machine, Request, Action,
  deliver, go_on, claim, act, publish, issue, complete_connecting, complete_at, mark, proceed,
  deliver_at, act_calls, act_pending, claim_by_disconnect, step, run, start, moved,
}

abbrev pub one : Bool → ℕ
one true = 1
one false = 0

-- The operation has completed without an error.
abbrev pub succeeded : Pc → Bool
succeeded (retired ec) = not (is_error ec)
succeeded starting = false
succeeded issuing = false
succeeded marking = false
succeeded (handed o) = false
succeeded (rejecting ec) = false
succeeded (failing ec) = false

-- The code with which an operation is about to end is an error.
abbrev pub has_failed : Pc → Bool
has_failed (rejecting ec) = is_error ec
has_failed (failing ec) = is_error ec
has_failed starting = true
has_failed issuing = true
has_failed marking = true
has_failed (handed o) = true
has_failed (retired ec) = true

-- Calls of disconnect() that are about to call Disconnect.
abbrev pub owed : List ConnectState → ℕ
owed [] = 0
owed (s ∷ rest) = one (is_state s connected) + owed rest

pub record Inv (m : Machine) : Type 0 where
  pub counted :
      disconnects m.run.log + owed m.pending + one (is_state m.run.state connected)
      ≡ one (succeeded m.pc)
  pub codes : has_failed m.pc ≡ true

-- What a segment of an operation that has not succeeded leaves: it calls Disconnect never, and is in
-- `connected` only with success.
record Segment (before : ConnectRun) (after : ConnectRun) (pc : Pc) : Type 0 where
  quiet : disconnects after.log ≡ disconnects before.log
  codes : has_failed pc ≡ true
  state :
      (is_state before.state connected ≡ false)
      → one (is_state after.state connected) ≡ one (succeeded pc)

disconnects-capture_remote_pd :
    (env : Env) (r : ConnectRun)
    → (disconnects (capture_remote_pd env r).log ≡ disconnects r.log)
      × ((capture_remote_pd env r).state ≡ r.state)
unfolding capture_remote_pd
disconnects-capture_remote_pd env r = ground arith

issue-Segment :
    (env : Env) (q : Request) (r : ConnectRun) → let (r', pc) = issue env q r in Segment r r' pc
unfolding issue overlapped plain
issue-Segment env q r = ground arith

publish-Segment : (r : ConnectRun) → let (r', pc) = publish r in Segment r r' pc
unfolding publish
publish-Segment r = ground arith

complete_at-Segment :
    (env : Env) (q : Request) (ec : ErrorCode) (r : ConnectRun)
    → let (r', pc) = complete_at env q ec r in Segment r r' pc
unfolding complete_at complete_connecting
complete_at-Segment env q ec r = ground (arith, disconnects-capture_remote_pd env r)

mark-Segment :
    (env : Env) (q : Request) (r : ConnectRun) → let (r', pc) = mark env q r in Segment r r' pc
unfolding mark mark_connected
mark-Segment env q r = ground arith

-- A segment of an operation that has not succeeded keeps the invariant.
moved-Inv :
    (env : Env) (q : Request) (m : Machine) (r : ConnectRun) (pc : Pc)
    → Inv m
    → succeeded m.pc ≡ false
    → Segment m.run r pc
    → Inv (moved env q m (r, pc))
moved-Inv env q m r pc v n s =
    let down : is_state m.run.state connected ≡ false = ground (arith, v.counted, n) in
    record { counted = ground (arith, v.counted, n, s.quiet, s.state down); codes = s.codes }

go_on-Inv :
    (env : Env) (q : Request) (r : ConnectRun) (pc : Pc) (pending : List ConnectState)
    (peer_closed : Bool)
    → let m : Machine = record { run = r; pc = pc; pending = pending; peer_closed = peer_closed } in
      Inv m → Inv (moved env q m (proceed env q r pc))
unfolding proceed
go_on-Inv env q r starting ps b v = moved-Inv env q _ _ _ v refl (publish-Segment r)
go_on-Inv env q r issuing ps b v = moved-Inv env q _ _ _ v refl (issue-Segment env q r)
go_on-Inv env q r marking ps b v = moved-Inv env q _ _ _ v refl (mark-Segment env q r)
go_on-Inv env q r (handed o) ps b v = v
go_on-Inv env q r (rejecting ec) ps b v = ground (arith, v.counted, v.codes)
go_on-Inv env q r (failing ec) ps b v = ground (arith, v.counted, v.codes)
go_on-Inv env q r (retired ec) ps b v = v

deliver-Inv :
    (env : Env) (q : Request) (ec : ErrorCode) (r : ConnectRun) (pc : Pc)
    (pending : List ConnectState) (peer_closed : Bool)
    → let m : Machine = record { run = r; pc = pc; pending = pending; peer_closed = peer_closed } in
      Inv m → Inv (moved env q m (deliver_at env q ec r pc))
unfolding deliver_at
deliver-Inv env q ec r (handed none) ps b v =
    moved-Inv env q _ _ _ v refl (complete_at-Segment env q ec r)
deliver-Inv env q ec r (handed (some posted)) ps b v =
    moved-Inv env q _ _ _ v refl (complete_at-Segment env q posted r)
deliver-Inv env q ec r starting ps b v = v
deliver-Inv env q ec r issuing ps b v = v
deliver-Inv env q ec r marking ps b v = v
deliver-Inv env q ec r (rejecting e) ps b v = v
deliver-Inv env q ec r (failing e) ps b v = v
deliver-Inv env q ec r (retired e) ps b v = v

disconnects-act_calls :
    (env : Env) (q : Request) (old : ConnectState) (log : Log)
    → disconnects (act_calls env q old log) ≡ one (is_state old connected) + disconnects log
unfolding act_calls overlapped
disconnects-act_calls env q old log = ground arith

claim-Inv : (m : Machine) → Inv m → Inv (claim_by_disconnect m)
unfolding claim_by_disconnect
claim-Inv m v = ground arith

act-Inv :
    (env : Env) (q : Request) (m : Machine) (pending : List ConnectState)
    → m.pending ≡ pending
    → Inv m
    → Inv (act_pending env q pending m)
unfolding act_pending
act-Inv env q m [] e v = v
act-Inv env q m (old ∷ rest) e v = record {
  counted = ground (arith, v.counted, e, disconnects-act_calls env q old m.run.log);
  codes = v.codes;
}

pub step-Inv : (env : Env) (q : Request) (a : Action) (m : Machine) → Inv m → Inv (step env q a m)
unfolding step
step-Inv env q (deliver ec) m v = deliver-Inv env q ec m.run m.pc m.pending m.peer_closed v
step-Inv env q go_on m v = go_on-Inv env q m.run m.pc m.pending m.peer_closed v
step-Inv env q claim m v = claim-Inv m v
step-Inv env q act m v = act-Inv env q m m.pending refl v

pub run-Inv :
    (env : Env) (q : Request) (actions : List Action) (m : Machine)
    → Inv m
    → Inv (run env q actions m)
unfolding run
run-Inv env q [] m v = v
run-Inv env q (a ∷ actions) m v = run-Inv env q actions (step env q a m) (step-Inv env q a m v)

-- However async_connect, its completions and any number of calls of disconnect() interleave, the calls
-- of Disconnect made, those that a disconnect() past its exchange still owes and a connection that is
-- still up are together one where the operation has reported success, and none where it has not.
pub disconnects-run :
    (env : Env) (q : Request) (r : ConnectRun) (actions : List Action)
    → (r.state ≡ idle) ⊎ (r.state ≡ closed)
    → disconnects r.log ≡ 0
    → let m = run env q actions (start r) in
      disconnects m.run.log + owed m.pending + one (is_state m.run.state connected)
      ≡ one (succeeded m.pc)
disconnects-run env q r actions s n =
    (run-Inv env q actions (start r) (ground (arith, s, n))).counted
