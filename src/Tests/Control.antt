-- ===== src/Tests/Control.antt =====
-- The theorems on connections, on concrete schedules and connectors.
use rdma_on_asio.Base.{◌≤◌, ◌<◌, ◌≡◌, ◌≢◌, refl, true, some, List, [], ◌∷◌, arith}
use rdma_on_asio.Error.{is_aborted}
use rdma_on_asio.Cm.{Log, addr_resolved, route_resolved, established, drain_cm_events}
use rdma_on_asio.Cm.Drain.{disconnects, established_acks, drain_cm_events_lem, Balanced}
use rdma_on_asio.Connect.{Run, addr_resolve, connected, closed, do_process, do_complete}
use rdma_on_asio.Connect.Race.{
  Action, deliver, go_on, cancel, claim, act, run, step, start, finished, begin_at, ack_if_finished,
}
use rdma_on_asio.Connect.Race.Counts.{is_over}
use rdma_on_asio.Connect.Race.Segments.{segments_do_process, resume, processed}
use rdma_on_asio.Connect.Race.Teardown.{
  IsFresh, disconnects-run-le_one, disconnects-run_closed, drain-disconnects, aborted_not_connected,
}
use rdma_on_asio.Tests.{env, env-IsFinite, pending, event_of, op}

fresh : IsFresh op []
unfolding disconnects established_acks
fresh = record { callback = tt; none_disconnected = refl; none_established = refl }

abbrev actions : List Action
actions =
    go_on
    ∷ go_on
    ∷ deliver (event_of addr_resolved)
    ∷ go_on
    ∷ deliver (event_of route_resolved)
    ∷ go_on
    ∷ deliver (event_of established)
    ∷ go_on
    ∷ claim
    ∷ act
    ∷ go_on
    ∷ []

disconnects-run-le_one_example : disconnects (run env actions (start op [])).run.log ≤ 1
disconnects-run-le_one_example = disconnects-run-le_one env op [] actions fresh

over : is_over (run env actions (start op [])).pc ≡ true
unfolding run step
over = refl

none_pending : (run env actions (start op [])).pending ≡ []
unfolding run step
none_pending = refl

is_closed : (run env actions (start op [])).run.state ≡ closed
unfolding run step do_complete
is_closed = refl

disconnects-run_closed_example :
    disconnects (run env actions (start op [])).run.log
    ≡ established_acks (run env actions (start op [])).run.log
disconnects-run_closed_example =
    disconnects-run_closed env op [] actions fresh over none_pending is_closed

dry_after : pending (run env actions (start op [])).run.log < 5
unfolding run step
dry_after = omega arith

drain-disconnects_example :
    (log' : Log) × (drain_cm_events 5 env
        (some op.channel)
        (some op.cm_id)
        (run env actions (start op [])).run.log
      ≡ some log')
    × (disconnects log' ≡ established_acks log')
drain-disconnects_example =
    drain-disconnects env op [] actions pending 5 fresh over none_pending is_closed env-IsFinite
      dry_after

-- The operation's own cancellation, before anything is resolved.
abbrev cancelled : List Action
cancelled = go_on ∷ go_on ∷ cancel ∷ []

is_finished : (run env cancelled (start op [])).pc ≡ finished
unfolding run step
is_finished = refl

ec_aborted : is_aborted (run env cancelled (start op [])).run.op.ec ≡ true
unfolding run step
ec_aborted = refl

aborted_not_connected_example : (run env cancelled (start op [])).run.state ≢ connected
aborted_not_connected_example =
    aborted_not_connected env op [] cancelled fresh is_finished ec_aborted

abbrev resolving : Run
resolving = record { state = addr_resolve; op = op; log = [] }

segments_do_process_example :
    resume env (
      ack_if_finished
        (event_of addr_resolved)
        (begin_at op.stage (event_of addr_resolved) resolving))
    ≡ processed (event_of addr_resolved) (do_process env (event_of addr_resolved) resolving)
segments_do_process_example = segments_do_process env (event_of addr_resolved) resolving

drain_cm_events_lem_example :
    (log' : Log) × (drain_cm_events 2 env (some 7) (some 3) [] ≡ some log') × Balanced env [] log'
drain_cm_events_lem_example = drain_cm_events_lem env 7 3 pending env-IsFinite 2 [] (omega arith)
