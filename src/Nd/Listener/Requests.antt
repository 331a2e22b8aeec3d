-- ===== src/Nd/Listener/Requests.antt =====
-- nd/detail/nd_service_listener.hpp and nd/nd_listener.hpp: a request of a listener, from its start to the connector.
use rdma_on_asio.Base.{
  ℕ, ◌+◌, [], ◌∷◌, ◌&&◌, ◌≡◌, not, List, ◌⊎◌, Bool, true, false, Option, some, none, arith, is_some,
}
use rdma_on_asio.Error.{ErrorCode, is_error, nd}
use rdma_on_asio.Nd.{
  create_connector, release_connector, idle, Env, Log, Call, overlapped, new_connector,
  on_completion,
}
use rdma_on_asio.Nd.Connector.Work.{OneHandedOver}
use rdma_on_asio.Nd.Connector.Life.{newest}
use rdma_on_asio.Nd.Connector.{Connector, Handle, is_open}
use rdma_on_asio.Nd.Registration.Registered.{files_made, files_closed}
use rdma_on_asio.Nd.Listener.{Listener, async_get_connection_request}

-- Is this the completion of an operation with an error?
abbrev pub is_failure : Option Call → Bool
is_failure (some (on_completion ec)) = is_error ec
is_failure (some _) = false
is_failure none = false

-- async_get_connection_request starts one operation and hands it over once, on every path; unless it
-- completes with an error at once, the operation owns the interface and the handle of the connector to be.
async_get_connection_request-OneHandedOver :
    (env : Env) (l : Listener) (log : Log)
    → let (h, log') = async_get_connection_request env l log in
      OneHandedOver log log'
      × (((is_some h.connector ≡ true)
            × (is_some h.overlapped_handle ≡ true)
            × (is_some h.adapter ≡ true))
          ⊎ (is_failure (newest log') ≡ true))
unfolding async_get_connection_request overlapped new_connector
async_get_connection_request-OneHandedOver env l log = ground arith

abbrev one : Bool → ℕ
one true = 1
one false = 0

-- Connectors made by the calls of a log, and released.
abbrev pub connectors_made : Env → Log → ℕ
connectors_made env [] = 0
connectors_made env (create_connector a h ∷ log) =
    one (not (is_error (nd (env.hr log (create_connector a h))))) + connectors_made env log
connectors_made env (_ ∷ log) = connectors_made env log

abbrev pub connectors_released : Log → ℕ
connectors_released [] = 0
connectors_released (release_connector c ∷ log) = 1 + connectors_released log
connectors_released (_ ∷ log) = connectors_released log

-- `n` more connectors and files are held after `log'` than after `log`.
abbrev pub Holds : Env → ℕ → Log → Log → Type 0
Holds env n log log' =
    (connectors_made env log' + connectors_released log
      ≡ connectors_made env log + connectors_released log' + n)
    × (files_made env log' + files_closed log ≡ files_made env log + files_closed log' + n)

-- What the handle of a request owns has been made since `log`.
pub record Owns (env : Env) (h : Handle) (log log' : Log) : Type 0 where
  pub connectors :
      connectors_made env log' + connectors_released log
      ≡ connectors_made env log + connectors_released log' + one (is_some h.connector)
  pub files :
      files_made env log' + files_closed log
      ≡ files_made env log + files_closed log' + one (is_some h.overlapped_handle)
  pub together : (is_some h.connector && not (is_some h.overlapped_handle)) ≡ false

-- How a request ends: the connector is as it was and nothing is held, with an error; or it was closed and
-- is now open and idle, and owns the one connector and the one file made.
abbrev pub Ends : Env → Log → Connector → (Connector × List ℕ × ErrorCode) × Log → Type 0
Ends env log conn ((conn', bytes, ec), log') =
    ((is_error ec ≡ true) × (conn' ≡ conn) × Holds env 0 log log')
    ⊎ ((is_error ec ≡ false)
        × (is_open conn ≡ false)
        × (is_open conn' ≡ true)
        × (conn'.state ≡ idle)
        × Holds env 1 log log')
