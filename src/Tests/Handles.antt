-- ===== src/Tests/Handles.antt =====
-- The theorems on the connector's operations, on concrete connectors.
use rdma_on_asio.Base.{
  ℕ, ◌+◌, ◌≤◌, ◌≡◌, ◌≢◌, ◌⊎◌, refl, Bool, true, false, Option, none, some, List, [], ◌∷◌, arith,
  is_some, length,
}
use rdma_on_asio.Error.{cleared, is_error}
use rdma_on_asio.Cm.{
  Log, post_immediate_completion, cleanup_descriptor_data, deregister_descriptor, rdma_destroy_qp,
  rdma_destroy_id, rdma_destroy_event_channel,
}
use rdma_on_asio.Cm.Drain.{disconnects, established_acks, acks, reports, Balanced}
use rdma_on_asio.Connect.{
  connecting, connected, closed, addr_resolve, idle, max_outgoing_private_data,
}
use rdma_on_asio.Connect.Race.{claim, act, run, Machine, armed}
use rdma_on_asio.Connector.{
  Connector, async_connect, async_move_accept, disconnect, close_for_destruction, is_open,
}
use rdma_on_asio.Connector.Starting.{
  hand_overs, IsSilent, newest, HandedOver, initiating-HandedOver,
}
use rdma_on_asio.Connector.Teardown.{disconnect-claim_act, close_for_destruction_lem}
use rdma_on_asio.Accept.{AcceptRun, accept_perform}
use rdma_on_asio.Accept.Balance.{accept_perform_lem, up}
use rdma_on_asio.Tests.{env, env-IsFinite, pending, op, open_connector, config}

abbrev handle : Option ℕ × Option ℕ
handle = (some 7, some 3)

abbrev request : List ℕ
request = 1 ∷ []

abbrev created : Log → ℕ
created log = 3

none-IsSilent : IsSilent none
none-IsSilent ec log = refl

abbrev waiting : Machine
waiting = record {
  run = record { state = connecting; op = op; log = [] };
  pc = armed;
  pending = [];
}

disconnect-claim_act_example :
    let ((c', ec), log') = disconnect env (open_connector connecting) [] in
    let m' = run env (claim ∷ act ∷ []) waiting in
    (c'.state ≡ m'.run.state) × (m'.pending ≡ []) × (disconnects log' ≡ disconnects m'.run.log)
disconnect-claim_act_example =
    disconnect-claim_act env (open_connector connecting) waiting refl refl refl refl

abbrev has_qp : Log → ℕ → Bool
has_qp log id = true

close_for_destruction_lem_example :
    (drained : Log) × Balanced env (cleanup_descriptor_data ∷ deregister_descriptor 7 ∷ []) drained
    × (close_for_destruction env has_qp 2 (open_connector closed) []
        ≡ some (
          record (open_connector closed) { cm_channel = none; cm_id = none },
          rdma_destroy_event_channel 7 ∷ rdma_destroy_id 3 ∷ rdma_destroy_qp 3 ∷ drained,
        ))
close_for_destruction_lem_example =
    close_for_destruction_lem env has_qp pending 2 7 3 (open_connector closed) [] refl refl
      env-IsFinite (omega arith)

abbrev accepting : AcceptRun
accepting = record {
  state = connecting;
  ec = cleared;
  channel = 7;
  cm_id = 3;
  min_rnr_timer = 12;
  log = [];
}

not_up : connecting ≢ connected
not_up h = ground arith

accept_perform_lem_example :
    let r' = (accept_perform env accepting).0 in
    (reports env r'.log + acks [] ≡ acks r'.log + reports env [])
    × (disconnects r'.log + up r'.state + established_acks []
        ≡ disconnects [] + established_acks r'.log)
accept_perform_lem_example = accept_perform_lem env accepting not_up

initiating-HandedOver_example :
    let c = open_connector idle in
    let (r, log') = async_connect env created (some config) 5 request c [] in
    let (r', log'') = async_move_accept env cleared (some config) none request c [] in
    (hand_overs log' ≡ 1)
    × HandedOver r addr_resolve log'
    × ((newest log' ≡ some post_immediate_completion)
        ⊎ (((is_open c ≡ false) ⊎ (c.state ≡ idle)) × (length request ≤ max_outgoing_private_data)))
    × (hand_overs log'' ≡ 1)
    × HandedOver r' connecting log''
    × ((newest log'' ≡ some post_immediate_completion)
        ⊎ ((is_error cleared ≡ false)
            × (is_some (some config) ≡ true)
            × (is_open c ≡ true)
            × (c.state ≡ idle)
            × (length request ≤ max_outgoing_private_data)))
initiating-HandedOver_example =
    initiating-HandedOver env created (some config) 5 request cleared none (open_connector idle) []
      none-IsSilent
