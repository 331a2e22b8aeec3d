-- ===== src/Connector/Moves.antt =====
-- Moving a connector of ibv/detail/ibv_service_connector.hpp.
use rdma_on_asio.Base.{ℕ, Bool, Option, none, some, ◌∷◌}
use rdma_on_asio.Cm.{Env, Log, move_descriptor}
use rdma_on_asio.Connector.{Connector, close_for_destruction}

-- `reactor_.move_descriptor` where there is a channel.
abbrev pub moved_descriptor : Option ℕ → Log → Log
moved_descriptor none log = log
moved_descriptor (some channel) log = move_descriptor channel ∷ log

-- The new connector, and what is left of the other: its state and latch stay.
unfoldable pub move_construct : Connector → Log → (Connector × Connector) × Log
move_construct other log = (
  (other, record other { cm_channel = none; cm_id = none }),
  moved_descriptor other.cm_channel log,
)

-- What the target held is closed first; `none` where its drain runs out of fuel.
unfoldable pub move_assign :
    Env
    → (Log → ℕ → Bool)
    → ℕ
    → Connector
    → Connector
    → Log
    → Option ((Connector × Connector) × Log)
unfolding close_for_destruction move_construct
move_assign env has_qp fuel c other log = elim (close_for_destruction env has_qp fuel c log) [
  | none ↦ none
  | some (closed, log') ↦ some (move_construct other log')
]
