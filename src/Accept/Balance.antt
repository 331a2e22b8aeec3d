-- ===== src/Accept/Balance.antt =====
-- What one readiness of the descriptor does in ibv/detail/ibv_op_accept.hpp and
-- ibv/detail/impl/ibv_op_wait_disconnect.ipp.
use rdma_on_asio.Base.{
  ℕ, Bool-cases, inl, inr, ◌∷◌, ◌+◌, ◌≡◌, ◌≢◌, ◌⊎◌, true, false, arith, if◌then◌else◌,
}
use rdma_on_asio.Error.{cleared, ErrorCode, rdma, is_error, is_aborted, device_removed}
use rdma_on_asio.Error
use rdma_on_asio.Base.Int.{is_nonzero}
use rdma_on_asio.Cm
use rdma_on_asio.Cm.{
  rdma_get_cm_event, rdma_ack_cm_event, Env, Log, CmEvent, get_cm_event, checked_call, call,
  is_established,
}
use rdma_on_asio.Cm.Drain.{reports, acks, established_acks, disconnects}
use rdma_on_asio.Connect.{ConnectState, connected, is_state, done, not_done, modify_qp}
use rdma_on_asio.Accept.{
  AcceptRun, accept_event, accept_perform, fail_accept, establish, Watch, watch_event,
  watch_perform,
}

-- The connection that stays up: 1 where the state is `connected`.
abbrev pub up : ConnectState → ℕ
up s = if is_state s connected then 1 else 0

accept_event-balance :
    (env : Env) (e : CmEvent) (r : AcceptRun)
    → r.state ≢ connected
    → let r' = accept_event env e r in
      (disconnects r'.log + up r'.state
        ≡ disconnects r.log + (if is_established e.event then 1 else 0))
      × (reports env r'.log ≡ reports env r.log)
      × (acks r'.log ≡ acks r.log)
      × (established_acks r'.log ≡ established_acks r.log)
      × ((is_error r'.ec ≡ true) ⊎ (r'.state ≡ connected))
unfolding accept_event establish fail_accept modify_qp Cm.disconnect checked_call call disconnects
    reports acks established_acks
accept_event-balance env e r h = ground arith

-- A watcher's latch after one readiness of the descriptor: what is reported is acknowledged. It retires
-- on a disconnection or a removed device, with the latch set and that code, or on an error of the
-- channel; otherwise it stays, the latch as it was.
watch_perform_lem :
    (env : Env) (w : Watch)
    → let (w', status) = watch_perform env w in
      (reports env w'.log + acks w.log ≡ acks w'.log + reports env w.log)
      × (disconnects w'.log ≡ disconnects w.log)
      × (((status ≡ done)
            × (w'.peer_closed ≡ true)
            × ((w'.ec ≡ rdma Error.disconnected) ⊎ (w'.ec ≡ rdma device_removed)))
          ⊎ ((status ≡ done) × (w'.peer_closed ≡ w.peer_closed) × (is_error w'.ec ≡ true))
          ⊎ ((status ≡ not_done) × (w'.peer_closed ≡ w.peer_closed) × (is_error w'.ec ≡ false)))
unfolding watch_perform watch_event get_cm_event reports acks disconnects
watch_perform_lem env w = ground arith

-- Nothing was reported: the state stays, and only the call for an event is made.
accept_perform_none :
    (env : Env) (r : AcceptRun)
    → is_nonzero (env.answer r.log (rdma_get_cm_event r.channel)).value ≡ true
    → ((accept_perform env r).0.log ≡ rdma_get_cm_event r.channel ∷ r.log)
      × ((accept_perform env r).0.state ≡ r.state)
unfolding accept_perform get_cm_event
accept_perform_none env r n = ground arith

-- The operation with the event that was reported.
abbrev taken : AcceptRun → AcceptRun
taken r = record r { ec = cleared; log = rdma_get_cm_event r.channel ∷ r.log }

-- An event was reported: it is processed, then acknowledged.
accept_perform_some :
    (env : Env) (r : AcceptRun)
    → is_nonzero (env.answer r.log (rdma_get_cm_event r.channel)).value ≡ false
    → let e = env.next_event r.log in
      ((accept_perform env r).0.log
        ≡ rdma_ack_cm_event e.event ∷ (accept_event env e (taken r)).log)
      × ((accept_perform env r).0.state ≡ (accept_event env e (taken r)).state)
unfolding accept_perform get_cm_event
accept_perform_some env r n = ground arith

-- One readiness of the descriptor for an accept whose connector is not up yet: what is reported is
-- acknowledged; an ESTABLISHED either brings the connector up or is answered by one rdma_disconnect,
-- and nothing else calls it.
pub accept_perform_lem :
    (env : Env) (r : AcceptRun)
    → r.state ≢ connected
    → let r' = (accept_perform env r).0 in
      (reports env r'.log + acks r.log ≡ acks r'.log + reports env r.log)
      × (disconnects r'.log + up r'.state + established_acks r.log
          ≡ disconnects r.log + established_acks r'.log)
unfolding reports acks established_acks disconnects
accept_perform_lem env r h =
    elim (Bool-cases (is_nonzero (env.answer r.log (rdma_get_cm_event r.channel)).value)) [
      | inl n ↦ let (l, s) = accept_perform_none env r n in rw (l, s) (ground (arith, n))
      | inr n ↦
          let e = env.next_event r.log in
          let (l, s) = accept_perform_some env r n in
          let (d, rs, a, ea, x) = accept_event-balance env e (taken r) h in
          rw (l, s) (ground (arith, n, d, rs, a, ea))
    ]
