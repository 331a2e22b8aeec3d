-- ===== src/Nd/Connector/Life.antt =====
-- The life of a connector of nd/detail/nd_service_connector.hpp: opening, moving, disconnecting.
use rdma_on_asio.Base.{
  ℕ, ◌+◌, ◌≡◌, refl, Bool, true, false, Option, none, some, List, [], ◌∷◌, arith, if◌then◌else◌,
  ltb, length,
}
use rdma_on_asio.Error.{rdma, cleared, connector_terminal, private_data_too_large}
use rdma_on_asio.Nd.{
  connecting, connected, closed, Env, Log, Call, overlapped, on_completion, connector_disconnect,
  is_state,
}
use rdma_on_asio.Nd.Operations.{ConnectRun, connect_complete, resume_process, accept_complete}
use rdma_on_asio.Nd.Connector.{
  Connector, Device, is_open, async_connect, connect_checked, disconnect, move_construct,
  move_assign, max_outgoing_private_data,
}

abbrev disconnect_count : Call → ℕ
disconnect_count (connector_disconnect id) = 1
disconnect_count _ = 0

-- Calls of `IND2Connector::Disconnect`.
abbrev pub disconnects : Log → ℕ
disconnects [] = 0
disconnects (c ∷ log) = disconnect_count c + disconnects log

-- The call made last.
abbrev pub newest : Log → Option Call
newest [] = none
newest (c ∷ log) = some c

-- disconnect() of an open connector leaves it closed with the close noted, and calls Disconnect once
-- where the connector was connected and never elsewhere; a second one does nothing.
disconnect_lem :
    (env : Env) (c : Connector) (log : Log)
    → is_open c ≡ true
    → let ((c', ec), log') = disconnect env c log in
      (c'.state ≡ closed)
      × (disconnects log' ≡ (if is_state c.state connected then 1 else 0) + disconnects log)
      × (disconnect env c' log' ≡ ((c', cleared), log'))
unfolding disconnect overlapped
disconnect_lem env c log h = ground arith

-- Moving a connector away and back gives it back, and calls nothing; in between the source is not open.
move_assign-move_construct :
    (c : Connector) (log : Log)
    → let (moved, left) = move_construct c in
      let ((back, left'), log') = move_assign left moved log in
      (is_open left ≡ false) × (back ≡ c) × (is_open left' ≡ false) × (log' ≡ log)
unfolding move_construct move_assign
move_assign-move_construct c log = (refl, refl, refl, refl)

-- A second async_connect on a connected connector completes with an error, and that completion closes
-- the connector: a later disconnect() does nothing, so the connection is never disconnected.
async_connect-connected_lost :
    (env : Env) (device : Device) (qp : Option ℕ) (endpoint : ℕ) (is_v4 : Bool) (request : List ℕ)
    (c : Connector) (r : ConnectRun) (log : Log)
    → is_open c ≡ true
    → c.state ≡ connected
    → r.state ≡ connected
    → let e = rdma (
        if ltb max_outgoing_private_data (length request)
        then private_data_too_large
        else connector_terminal) in
      let (c', log') = async_connect env device qp endpoint is_v4 request c log in
      let lost = record c' { state = (connect_complete env true e r).0.state } in
      (newest log' ≡ some (on_completion e))
      × (c' ≡ c)
      × (lost.state ≡ closed)
      × (disconnects (disconnect env lost log').1 ≡ disconnects log)
unfolding async_connect connect_checked connect_complete resume_process disconnect
async_connect-connected_lost env device qp endpoint is_v4 request c r log o s t = ground arith

-- An accept whose success is queued while disconnect() runs ends with the state `connected` again, after
-- disconnect() has closed the connector without calling Disconnect.
accept_complete-reopens :
    (env : Env) (c : Connector) (log : Log)
    → is_open c ≡ true
    → c.state ≡ connecting
    → let ((c', ec), log') = disconnect env c log in
      (c'.state ≡ closed)
      × (disconnects log' ≡ disconnects log)
      × (accept_complete true true cleared c'.state ≡ connected)
unfolding disconnect accept_complete
accept_complete-reopens env c log o s = ground arith

-- Two ways in which a completion leaves a live connection that disconnect() does not end. A second
-- async_connect on a connected connector completes with an error, and that completion closes the
-- connector: a later disconnect() does nothing. An accept whose success is queued while disconnect()
-- runs ends with the state `connected` again, after disconnect() has called no Disconnect.
pub completions-lose_connection :
    (env : Env) (device : Device) (qp : Option ℕ) (endpoint : ℕ) (is_v4 : Bool) (request : List ℕ)
    (c d : Connector) (r : ConnectRun) (log : Log)
    → is_open c ≡ true
    → c.state ≡ connected
    → r.state ≡ connected
    → is_open d ≡ true
    → d.state ≡ connecting
    → let e = rdma (
        if ltb max_outgoing_private_data (length request)
        then private_data_too_large
        else connector_terminal) in
      let (c', log') = async_connect env device qp endpoint is_v4 request c log in
      let lost = record c' { state = (connect_complete env true e r).0.state } in
      let ((d', ec), after) = disconnect env d log in
      ((newest log' ≡ some (on_completion e))
        × (c' ≡ c)
        × (lost.state ≡ closed)
        × (disconnects (disconnect env lost log').1 ≡ disconnects log))
      × ((d'.state ≡ closed)
          × (disconnects after ≡ disconnects log)
          × (accept_complete true true cleared d'.state ≡ connected))
completions-lose_connection env device qp endpoint is_v4 request c d r log o s t p u = (
  async_connect-connected_lost env device qp endpoint is_v4 request c r log o s t,
  accept_complete-reopens env d log p u,
)
