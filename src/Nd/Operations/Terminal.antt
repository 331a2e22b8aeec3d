-- ===== src/Nd/Operations/Terminal.antt =====
-- What the completion of a connect operation leaves in the connector
-- (nd/detail/impl/nd_op_connect.ipp, nd/detail/nd_op_connect.hpp).
use rdma_on_asio.Base.{◌≡◌, ◌⊎◌, true, false, arith}
use rdma_on_asio.Error.{ErrorCode, is_error}
use rdma_on_asio.Nd.{ConnectState, connecting, connected, closed, Env, Stage}
use rdma_on_asio.Nd.Operations.{
  ConnectRun, Status, completed, continuation, connect_complete, resume_process, do_process,
  process_complete_connect, mark_connected, capture_remote_pd,
}

capture_remote_pd-state :
    (env : Env) (r : ConnectRun)
    → ((capture_remote_pd env r).state ≡ r.state) × ((capture_remote_pd env r).stage ≡ r.stage)
unfolding capture_remote_pd
capture_remote_pd-state env r = ground arith

-- The state before and after a process, by how it ends.
abbrev Processed : ConnectState → ConnectRun → ErrorCode → Status → Type 0
Processed before r ec status =
    ((status ≡ continuation)
      × (r.state ≡ before)
      × (r.stage ≡ Stage.connected)
      × (is_error ec ≡ false))
    ⊎ ((status ≡ completed) × (is_error ec ≡ true))
    ⊎ ((status ≡ completed) × (is_error ec ≡ false) × (before ≡ connecting) × (r.state ≡ connected))

process_complete_connect-Processed :
    (env : Env) (r : ConnectRun)
    → let (r', ec, status) = process_complete_connect env r in Processed r.state r' ec status
unfolding process_complete_connect mark_connected
process_complete_connect-Processed env r = ground (arith, capture_remote_pd-state env r)

do_process-Processed :
    (env : Env) (r : ConnectRun)
    → let (r', ec, status) = do_process env r in Processed r.state r' ec status
unfolding do_process mark_connected
do_process-Processed env r = ground (arith, process_complete_connect-Processed env r)

-- The completion of a connect operation either goes on, with the state as it was; or ends with an error
-- and the connector closed; or ends without one, the connector going from `connecting` to `connected`.
-- So a connector that disconnect() has closed stays closed.
connect_complete_lem :
    (env : Env) (result_ec : ErrorCode) (r : ConnectRun)
    → let (r', ec, status) = connect_complete env true result_ec r in
      ((status ≡ continuation) × (r'.state ≡ r.state) × (r'.stage ≡ Stage.connected))
      ⊎ ((status ≡ completed) × (is_error ec ≡ true) × (r'.state ≡ closed))
      ⊎ ((status ≡ completed)
          × (is_error ec ≡ false)
          × (r.state ≡ connecting)
          × (r'.state ≡ connected))
unfolding connect_complete resume_process
connect_complete_lem env result_ec r = ground (arith, do_process-Processed env r)
