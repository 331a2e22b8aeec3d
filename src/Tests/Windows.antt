-- ===== src/Tests/Windows.antt =====
-- The theorems on the NetworkDirect backend, on a concrete adapter and connector.
use rdma_on_asio.Base.{
  ◌≤◌, if_elim, ℕ, ◌≡◌, true, false, none, some, List, [], ◌∷◌, ◌==◌, arith, if◌then◌else◌, ltb,
}
use rdma_on_asio.Base.Int.{pos}
use rdma_on_asio.Error.{cleared}
use rdma_on_asio.Config.{default_config}
use rdma_on_asio.Devices.{inet}
use rdma_on_asio.Nd.{Env, ConnectState, idle}
use rdma_on_asio.Nd.Connector.{
  Connector, Device, async_connect, async_accept, async_move_accept, async_wait_disconnect,
}
use rdma_on_asio.Nd.Connector.Work.{OneHandedOver, initiating-OneHandedOver}
use rdma_on_asio.Nd.Adapter.{AdapterInfo}
use rdma_on_asio.Nd.Connector as Conn
use rdma_on_asio.Nd.Listener as Listening
use rdma_on_asio.Nd.Ranges.{chunk_by}
use rdma_on_asio.Nd.Ranges.Laws.{concat, Sorted, Chunked, chunk_by-Chunked}
use rdma_on_asio.Nd.Devices.{
  AddressQuery, Provider, ResolvedNdAddress, SocketAddress, discover_provider_devices,
}
use rdma_on_asio.Nd.Verbs.Agreement.{Agree, posts-Agree}
use rdma_on_asio.Nd.Verbs as Posts
use rdma_on_asio.Nd.Verbs.{NdWc, Results, type_receive, resolve_batch}
use rdma_on_asio.Verbs
use rdma_on_asio.Tests.{accepting, config, two, verbs_op, remote}
use rdma_on_asio.Nd.Devices.Discovery.{Distinct, discover_provider_devices-Distinct}

-- Every call succeeds at once.
abbrev env : Env
env = record {
  hr = λ log c. pos 0;
  code = λ log c. cleared;
  made = λ log. 9;
  private_data = λ log. (2, 1 ∷ 2 ∷ []);
}

abbrev info : AdapterInfo
info = record {
  max_registration_size = 4096;
  max_window_size = 4096;
  max_initiator_sge = 4;
  max_receive_sge = 4;
  max_read_sge = 4;
  max_transfer_length = 4096;
  max_inline_data_size = 64;
  max_inbound_read_limit = 16;
  max_outbound_read_limit = 16;
  max_receive_queue_depth = 128;
  max_initiator_queue_depth = 128;
  max_shared_receive_queue_depth = 128;
  max_completion_queue_depth = 1024;
  inline_request_threshold = 64;
  large_request_threshold = 4096;
  max_caller_data = 56;
  max_callee_data = 148;
  adapter_flags = 0;
}

abbrev device : Device
device = some (record { adapter = 3; v4_address = some 5; v6_address = none }, default_config)

abbrev open_connector : ConnectState → Connector
open_connector s = record {
  connector = some 4;
  connector_handle = some 6;
  adapter = some (record { adapter = 3; v4_address = some 5; v6_address = none });
  state = s;
  peer_closed = false;
}

initiating-OneHandedOver_example :
    let c = open_connector idle in
    OneHandedOver [] (async_connect env device (some 8) 20 true (7 ∷ []) c []).1
    × OneHandedOver [] (async_accept env device (some 8) (7 ∷ []) c []).1
    × OneHandedOver [] (async_move_accept env cleared device (some 8) (7 ∷ []) c []).1
    × OneHandedOver [] (async_wait_disconnect env c []).1
initiating-OneHandedOver_example =
    initiating-OneHandedOver env device (some 8) 20 true (7 ∷ []) cleared (open_connector idle) []

chunk_by-Chunked_example :
    (concat (chunk_by ◌==◌ (1 ∷ 1 ∷ 2 ∷ 3 ∷ 3 ∷ [])) ≡ 1 ∷ 1 ∷ 2 ∷ 3 ∷ 3 ∷ [])
    × Chunked ◌==◌ (chunk_by ◌==◌ (1 ∷ 1 ∷ 2 ∷ 3 ∷ 3 ∷ []))
chunk_by-Chunked_example = chunk_by-Chunked ◌==◌ (1 ∷ 1 ∷ 2 ∷ 3 ∷ 3 ∷ [])

-- The sort by adapter id, by insertion.
insert : ResolvedNdAddress → List ResolvedNdAddress → List ResolvedNdAddress
insert r [] = r ∷ []
insert r (s ∷ ss) =
    let rest = insert r ss in if ltb s.adapter_id r.adapter_id then s ∷ rest else r ∷ s ∷ ss

insert-Sorted :
    (k : ℕ) (r : ResolvedNdAddress) (ss : List ResolvedNdAddress)
    → k ≤ r.adapter_id
    → Sorted (λ x. x.adapter_id) k ss
    → Sorted (λ x. x.adapter_id) k (insert r ss)
unfolding insert
insert-Sorted k r [] h s = (h, tt)
insert-Sorted k r (x ∷ ss) h s =
    if_elim (Sorted (λ x. x.adapter_id) k) (ltb x.adapter_id r.adapter_id) _ _
      (λ e. (s.0, insert-Sorted x.adapter_id r ss (ground (arith, e)) s.1))
      (λ e. (h, (ground (arith, e), s.1)))

sort : List ResolvedNdAddress → List ResolvedNdAddress
unfolding insert
sort [] = []
sort (r ∷ rs) = insert r (sort rs)

sort-Sorted : (rs : List ResolvedNdAddress) → Sorted (λ x. x.adapter_id) 0 (sort rs)
unfolding sort
sort-Sorted [] = tt
sort-Sorted (r ∷ rs) = insert-Sorted 0 r (sort rs) (omega arith) (sort-Sorted rs)

abbrev socket : SocketAddress
socket = record { length = pos 16; family = inet; address = 77 }

abbrev query : AddressQuery
query = record {
  buffer_size = 64;
  allocated = true;
  hr = pos 0;
  count = pos 2;
  entries = record socket { address = 78 } ∷ socket ∷ [];
}

-- Two addresses, each of an adapter of its own.
abbrev provider : Provider
provider = record {
  addresses = query;
  resolve = λ a. (pos 0, a.address);
  open_adapter = λ id. (pos 0, id);
  query = λ a. (pos 0, info);
  name = λ a. record {
    sized = (pos 0, pos 0, 0);
    written = (pos 0, pos 0);
    counted = (pos 1, pos 0);
    converted = (pos 1, pos 0);
  };
  create_overlapped_file = λ a. (pos 0, true, 9);
  adapter_addresses = λ a. record query { buffer_size = 0 };
  sorted_by_id = sort;
}

discover_provider_devices-Distinct_example : Distinct 0 (discover_provider_devices provider)
discover_provider_devices-Distinct_example = discover_provider_devices-Distinct provider sort-Sorted

posts-Agree_example :
    Agree
      (Posts.do_post_send accepting config two verbs_op [])
      (Verbs.do_post_send accepting config two verbs_op [])
    × Agree
        (Posts.do_post_recv accepting config two verbs_op [])
        (Verbs.do_post_recv accepting config two verbs_op [])
    × Agree
        (Posts.do_post_read accepting config remote two verbs_op [])
        (Verbs.do_post_read accepting config remote two verbs_op [])
    × Agree
        (Posts.do_post_write accepting config remote two verbs_op [])
        (Verbs.do_post_write accepting config remote two verbs_op [])
posts-Agree_example = posts-Agree accepting config two verbs_op [] remote

-- A listener of an adapter, open.
abbrev listener : Listening.Listener
listener = record {
  listener = some 21;
  listener_handle = some 22;
  adapter = some (record { adapter = 3; v4_address = some 5; v6_address = none });
  bind_is_v4 = true;
}
