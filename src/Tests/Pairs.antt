-- ===== src/Tests/Pairs.antt =====
-- The theorems on queue pairs, registration and the poller of both backends, on concrete programs.
use rdma_on_asio.Base.{
  zero, suc, ℕ, ◌+◌, ◌≡◌, refl, true, false, none, some, List, [], ◌∷◌, ◌++◌, arith, ◌==◌,
  if◌then◌else◌, is_some, length,
}
use rdma_on_asio.Base.Int.{pos, negsuc}
use rdma_on_asio.Error.{cleared, asio, already_open}
use rdma_on_asio.Config.{default_config}
use rdma_on_asio.Verbs.{VerbsOp, sequence, do_post_read, do_post_recv, do_post_send}
use rdma_on_asio.Completion.{Wc, Device, Queue, success, wc_send, resolve_all}
use rdma_on_asio.Completion as Polled
use rdma_on_asio.Completion.Polling.{dry, more}
use rdma_on_asio.QueuePair.{default_qp, ibv_posts, new_op, async_read, async_recv, async_send}
use rdma_on_asio.QueuePair.Conservation.{
  Initiation, send, recv, read, count, ids, held, initiate_all, outstanding,
}
use rdma_on_asio.QueuePair.Completed.{no_sinks, poll-initiate_all}
use rdma_on_asio.Nd.{Env}
use rdma_on_asio.Nd.Adapter.{AdapterInfo}
use rdma_on_asio.Nd.Verbs.{NdWc, Results, type_send, resolve_batch}
use rdma_on_asio.Nd.Queue as NdQueue
use rdma_on_asio.Nd.Verbs as NdPosts
use rdma_on_asio.Nd.QueuePair as Pair
use rdma_on_asio.Nd.QueuePair.{
  NdQueuePair, is_bound, bind_io_context, bind_completion_queue, nd_posts,
}
use rdma_on_asio.Nd.QueuePair.Binding.{Target, io_context, completion_queue, bind, bind-stuck}
use rdma_on_asio.Nd.QueuePair.Routed.{initiate_all_nd, held-backends}
use rdma_on_asio.Nd.QueuePair.Completed.{poll-initiate_all_nd}
use rdma_on_asio.Nd.Registration.{NdAdapter, Services, use_device, shutdown_io_completion}
use rdma_on_asio.Nd.Registration.Registered.{
  IsBalanced, Ends, files_made, files_closed, queues_made, queues_released, use_device-Ends,
}
use rdma_on_asio.Nd.Registration.Poller.{
  IsNamed, bound, run, created, on_events, IsOne, on_events-created,
}
use rdma_on_asio.Tests.{accepting, two, remote}

-- A queue pair in poll mode that sends two buffers, nothing, and reads.
abbrev program : List Initiation
program = send two 64 ∷ recv (sequence []) 72 ∷ read two remote 80 ∷ []

held-backends_example :
    (held accepting 72 (initiate_all (ibv_posts accepting) default_qp program no_sinks)
      ≡ 1 + held accepting 72 no_sinks)
    × (held accepting 72 (initiate_all_nd accepting Pair.default_qp program no_sinks)
        ≡ 1 + held accepting 72 no_sinks)
held-backends_example = held-backends accepting default_qp Pair.default_qp program no_sinks 72

abbrev stored : ℕ → VerbsOp
stored a = new_op a

abbrev wc : ℕ → Wc
wc id = record { wr_id = id; status = success; opcode = wc_send; byte_len = 200 }

-- The completions of what was taken, in one batch.
abbrev device : Device
device n batch = if n == 0 then some (wc 64 ∷ wc 80 ∷ []) else some []

poll-initiate_all_example :
    let ready = (initiate_all (ibv_posts accepting) default_qp program no_sinks).ready in
    (done : Queue) × (Polled.poll
        (λ op. [])
        3
        device
        stored
        16
        (record { ready = ready; completed = []; polls = 0 })
      ≡ some (length ready + 2, cleared, done))
    × (done.completed ≡ ready ++ resolve_all stored (wc 64 ∷ wc 80 ∷ []))
    × (count 72 (ids done.completed) ≡ 1)
unfolding outstanding initiate_all async_read do_post_read async_recv do_post_recv async_send
    do_post_send
poll-initiate_all_example =
    poll-initiate_all accepting default_qp program (λ op. []) device stored 16 3 0 72
      (wc 64 ∷ wc 80 ∷ []) cleared refl (λ x. refl) (refl, (refl, tt))
      (more 0 (wc 64) (wc 80 ∷ []) [] cleared refl (dry 1 refl)) refl (omega arith)

abbrev nd_wc : ℕ → NdWc
nd_wc id = record {
  request_context = id;
  status = pos 0;
  request_type = type_send;
  bytes_transferred = 200;
}

abbrev results : Results
results zero batch = nd_wc 64 ∷ nd_wc 80 ∷ []
results (suc n) batch = []

poll-initiate_all_nd_example :
    let ready = (initiate_all_nd accepting Pair.default_qp program no_sinks).ready in
    (done : Queue) × (NdQueue.poll
        (λ op. [])
        3
        results
        stored
        16
        (record { ready = ready; completed = []; polls = 0 })
      ≡ some (length ready + 2, done))
    × (done.completed ≡ ready ++ resolve_batch stored (nd_wc 64 ∷ nd_wc 80 ∷ []))
    × (count 72 (ids done.completed) ≡ 1)
unfolding outstanding initiate_all_nd Pair.async_read async_read NdPosts.do_post_read
    Pair.async_recv async_recv NdPosts.do_post_recv Pair.async_send async_send NdPosts.do_post_send
poll-initiate_all_nd_example =
    poll-initiate_all_nd accepting Pair.default_qp program (λ op. []) results stored 16 3 0 72
      (nd_wc 64 ∷ nd_wc 80 ∷ []) refl (λ x. refl) (refl, (refl, tt))
      (NdQueue.more 0 (nd_wc 64) (nd_wc 80 ∷ []) [] refl (NdQueue.dry 1 refl)) refl (omega arith)

abbrev info : AdapterInfo
info = record {
  max_registration_size = 4096;
  max_window_size = 4096;
  max_initiator_sge = 4;
  max_receive_sge = 4;
  max_read_sge = 4;
  max_transfer_length = 4096;
  max_inline_data_size = 64;
  max_inbound_read_limit = 16;
  max_outbound_read_limit = 16;
  max_receive_queue_depth = 128;
  max_initiator_queue_depth = 128;
  max_shared_receive_queue_depth = 128;
  max_completion_queue_depth = 1024;
  inline_request_threshold = 64;
  large_request_threshold = 4096;
  max_caller_data = 56;
  max_callee_data = 148;
  adapter_flags = 0;
}

abbrev pub adapter : NdAdapter
adapter = record {
  adapter = record { adapter = 3; v4_address = some 5; v6_address = none };
  info = info;
  has_pd = true;
}

abbrev free : Services
free = record {
  device = none;
  effective_config = default_config;
  registered = false;
  cq = none;
  cq_handle = none;
  wc_buf = 0;
}

-- Files can be made and registered, queues cannot be made.
abbrev no_queues : Env
no_queues = record {
  hr = λ log c. negsuc 6;
  code = λ log c. cleared;
  made = λ log. 9;
  private_data = λ log. (0, []);
}

use_device-Ends_example :
    let ((s', ec), log') = use_device no_queues (some adapter) default_config free [] in
    let (down, after) = shutdown_io_completion s' log' in
    IsBalanced no_queues s' log'
    × Ends (some adapter) default_config free s' ec
    × (files_made no_queues after ≡ files_closed after)
    × (queues_made no_queues after ≡ queues_released after)
use_device-Ends_example =
    use_device-Ends no_queues (some adapter) default_config free []
      (record { files = refl; queues = refl; together = refl })

abbrev held_services : Services
held_services = record free {
  device = some adapter;
  registered = true;
  cq = some 12;
  cq_handle = some 6;
  wc_buf = 16;
}

abbrev unbound : NdQueuePair
unbound = Pair.default_qp

abbrev queue : Target
queue = completion_queue (some adapter) (some 13) default_config

bind-stuck_example :
    let ((q', ec, started), log') = bind no_queues queue unbound [] in
    (is_bound q' ≡ true)
    × (is_some q'.qp ≡ false)
    × (started ≡ false)
    × (bind no_queues (io_context 2 held_services) q' log' ≡ ((q', asio already_open, false), log'))
unfolding bind_completion_queue
bind-stuck_example =
    bind-stuck no_queues queue (io_context 2 held_services) unbound [] refl refl refl refl

results-IsNamed : (k : ℕ) → IsNamed (results k 2)
results-IsNamed zero = (refl, (refl, tt))
results-IsNamed (suc k) = tt

on_events-created_example :
    IsOne results stored 2
      (on_events no_queues 12 results stored 2 (bound ∷ run ∷ bound ∷ run ∷ []) created)
on_events-created_example =
    on_events-created no_queues 12 results stored 2 (bound ∷ run ∷ bound ∷ run ∷ []) results-IsNamed
