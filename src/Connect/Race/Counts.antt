-- ===== src/Connect/Race/Counts.antt =====
-- What holds between any two actions of a race: every ESTABLISHED event is answered by one
-- rdma_disconnect, made or owed, or by a connection that is still up.
use rdma_on_asio.Base.{
  ℕ, ◌+◌, ◌≤◌, ◌≡◌, Bool, true, false, not, ◌&&◌, ◌||◌, none, some, List, [], ◌∷◌,
}
use rdma_on_asio.Error.{ErrorCode, is_aborted}
use rdma_on_asio.Cm.{Log, is_established}
use rdma_on_asio.Cm.Drain.{disconnects, established_acks}
use rdma_on_asio.Connect.{ConnectState, connected, closed, is_state, CreateQp}
use rdma_on_asio.Connect.Race.{
  Pc, starting, arming, armed, finished, completed, routing, calling_connect, adopting, tearing,
  claiming, Machine,
}

abbrev pub one : Bool → ℕ
one true = 1
one false = 0

abbrev pub is_tearing : Pc → Bool
is_tearing (tearing e) = true
is_tearing starting = false
is_tearing arming = false
is_tearing armed = false
is_tearing finished = false
is_tearing completed = false
is_tearing (routing e) = false
is_tearing (calling_connect e) = false
is_tearing (adopting e) = false
is_tearing (claiming e ec) = false

-- An ESTABLISHED event is held and not yet acknowledged.
abbrev pub is_held : Pc → Bool
is_held (adopting e) = true
is_held (tearing e) = true
is_held starting = false
is_held arming = false
is_held armed = false
is_held finished = false
is_held completed = false
is_held (routing e) = false
is_held (calling_connect e) = false
is_held (claiming e ec) = false

-- The operation has retired.
abbrev pub is_over : Pc → Bool
is_over finished = true
is_over completed = true
is_over starting = false
is_over arming = false
is_over armed = false
is_over (routing e) = false
is_over (calling_connect e) = false
is_over (adopting e) = false
is_over (tearing e) = false
is_over (claiming e ec) = false

-- The operation is past a successful exchange to `connected`.
abbrev pub is_late : Pc → Bool
is_late (adopting e) = true
is_late finished = true
is_late completed = true
is_late starting = false
is_late arming = false
is_late armed = false
is_late (routing e) = false
is_late (calling_connect e) = false
is_late (tearing e) = false
is_late (claiming e ec) = false

abbrev pub is_finished : Pc → Bool
is_finished finished = true
is_finished completed = false
is_finished starting = false
is_finished arming = false
is_finished armed = false
is_finished (routing e) = false
is_finished (calling_connect e) = false
is_finished (adopting e) = false
is_finished (tearing e) = false
is_finished (claiming e ec) = false

-- Calls of disconnect() that owe an rdma_disconnect.
abbrev pub pending_owed : List ConnectState → ℕ
pending_owed [] = 0
pending_owed (old ∷ rest) = one (is_state old connected) + pending_owed rest

-- The connection that is up, and the calls of rdma_disconnect that are due.
abbrev pub owed : Machine → ℕ
owed m = one (is_state m.run.state connected) + one (is_tearing m.pc) + pending_owed m.pending

-- At most one call of disconnect() is between its exchange and its action.
abbrev pub pending_fits : List ConnectState → ConnectState → Pc → Bool
pending_fits [] s pc = true
pending_fits (old ∷ []) s pc = is_state s closed && (not (is_state old connected) || is_late pc)
pending_fits (old ∷ old' ∷ rest) s pc = false

-- Where the state is `connected`.
abbrev pub connected_fits : Pc → ErrorCode → Bool
connected_fits pc ec = is_late pc && not (is_finished pc && is_aborted ec)

-- The event held is ESTABLISHED exactly behind the exchange to `connected`.
abbrev pub event_fits : Pc → Bool
event_fits (adopting e) = is_established e.event
event_fits (tearing e) = is_established e.event
event_fits (routing e) = not (is_established e.event)
event_fits (calling_connect e) = not (is_established e.event)
event_fits (claiming e ec) = not (is_established e.event)
event_fits starting = true
event_fits arming = true
event_fits armed = true
event_fits finished = true
event_fits completed = true

-- The queue pair's callback neither disconnects nor acknowledges events.
abbrev pub IsQuiet : CreateQp → Type 0
IsQuiet none = Unit {0}
IsQuiet (some f) =
    (log : Log)
    → (disconnects (f log).1 ≡ disconnects log)
      × (established_acks (f log).1 ≡ established_acks log)

pub record Inv (m : Machine) : Type 0 where
  pub balance : disconnects m.run.log + owed m ≡ established_acks m.run.log + one (is_held m.pc)
  pub untouched : is_over m.pc ≡ false → established_acks m.run.log ≡ 0
  pub single : established_acks m.run.log ≤ 1
  pub up : m.run.state ≡ connected → connected_fits m.pc m.run.op.ec ≡ true
  pub claimed : pending_fits m.pending m.run.state m.pc ≡ true
  pub held_fits : event_fits m.pc ≡ true
