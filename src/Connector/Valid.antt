-- ===== src/Connector/Valid.antt =====
-- The handles of a connector of ibv/detail/ibv_service_connector.hpp through its operations.
use rdma_on_asio.Base.{◌<◌, ℕ, ◌≡◌, ◌⊎◌, true, false, ◌∷◌, Option, none, arith, is_some}
use rdma_on_asio.Base.Int.{is_nonzero}
use rdma_on_asio.Error.{ErrorCode, cleared, is_error}
use rdma_on_asio.Config.{Config}
use rdma_on_asio.Cm.{
  cleanup_descriptor_data, deregister_descriptor, Env, Log, Call, to_pointer,
  rdma_create_event_channel,
}
use rdma_on_asio.Cm.Drain.{IsFinite}
use rdma_on_asio.Connect.{idle}
use rdma_on_asio.Connector.{Connector, get, is_open, assign}

-- An id comes with its channel, and a channel with its id.
abbrev pub IsValid : Connector → Type 0
IsValid c = is_some c.cm_channel ≡ is_some c.cm_id

-- A call that fails sets `errno`: a non-zero return code, or a null channel.
pub record ReportsErrors (env : Env) : Type 0 where
  pub failing :
      (log : Log) (c : Call)
      → is_nonzero (env.answer log c).value ≡ true
      → is_nonzero (env.answer log c).errno ≡ true
  pub no_channel :
      (log : Log)
      → to_pointer (env.answer log rdma_create_event_channel).value ≡ none
      → is_nonzero (env.answer log rdma_create_event_channel).errno ≡ true

-- A connector is left as it was, with an error; or it was closed, is open and fresh, and the code is
-- clear.
abbrev pub Opened : Connector → Connector → ErrorCode → Type 0
Opened before after ec =
    ((after ≡ before) × (is_error ec ≡ true))
    ⊎ ((is_open before ≡ false)
        × (is_open after ≡ true)
        × (is_some after.cm_channel ≡ true)
        × (after.state ≡ idle)
        × (after.peer_closed ≡ false)
        × (ec ≡ cleared))

-- Adopting a handle: it fails with an error, the connector and the handle untouched, or takes both
-- parts of the handle, which is left empty, and the connector is open, idle and fresh.
assign_lem :
    (env : Env) (handle : Option ℕ × Option ℕ) (c : Connector) (log : Log)
    → let ((c', handle', ec), log') = assign env handle c log in
      ((c' ≡ c) × (handle' ≡ handle) × (is_error ec ≡ true))
      ⊎ (Opened c c' ec × ((c'.cm_channel, c'.cm_id) ≡ handle) × (handle' ≡ (none, none)))
unfolding assign
assign_lem env (channel, id) c log = ground arith

-- What a destruction relies on: the channel runs dry within the fuel, after its descriptor has been
-- withdrawn.
abbrev pub DrainsWithin : Env → (Log → ℕ) → ℕ → Connector → Log → Type 0
DrainsWithin env pending fuel c log =
    IsFinite env (get c.cm_channel) pending
    × (pending (cleanup_descriptor_data ∷ deregister_descriptor (get c.cm_channel) ∷ log) < fuel)

-- A connector without its handles.
abbrev pub emptied : Connector → Connector
emptied c = record c { cm_channel = none; cm_id = none }

-- Both connectors of a move have an id exactly where they have a channel; the target has what the other
-- had, which is left without.
abbrev pub Moved : Connector → (Connector × Connector) × Log → Type 0
Moved other ((target, left), log) =
    (target ≡ other) × IsValid target × IsValid left × (is_open left ≡ false)
