-- ===== src/Lib.antt =====
-- A verification library for rdma_on_asio, an extension of asio by RDMA. It covers the ibv (Linux)
-- backend and most of the nd (Windows) backend; paths are from the repository's root, below
-- include/rdma/.
--
-- How the parts interact. Discovery finds the devices and their local addresses (Devices);
-- `use_device` registers one, with a configuration derived from its limits (Config) and a completion
-- queue (Devices.Registration). A listener turns a request into a connector (Listener). A connector
-- opens an event channel and an id of rdma_cm (Connector) and starts an operation, which the reactor
-- drives event by event (Connect for async_connect, Accept for async_accept and async_wait_disconnect)
-- through the wrappers of rdma_cm (Cm). `disconnect()` may run on any thread; the operation and it
-- share one atomic state, on which Connect.Race and Nd.Race interleave them. A queue pair is bound to an
-- io_context or to a completion queue of the caller's (QueuePair); it posts sends, receives, reads and
-- writes (Verbs) of buffers in registered memory (Memory, Devices.Regions) as a native scatter/gather
-- list (Sglist, Sglist.Builder); the device's completions come back through a completion queue
-- (Completion). A service lists its live implementations (Service). Error holds the
-- error codes.
--
-- Files and code:
--   Error       rdma_error.hpp, impl/rdma_error.ipp, ibv/ibv_error.hpp
--   Config      rdma_commons.hpp, ibv/detail/ibv_config_derive.hpp, ibv/detail/impl/ibv_config_derive.ipp
--   Memory      detail/mr_range.hpp, rdma_buffer.hpp, ibv/ibv_mr.hpp
--   Devices/Regions  the registration of ibv/ibv_mr.hpp, ibv/detail/impl/ibv_ops_verbs.ipp
--   Devices/PollQueue  the constructor of ibv/impl/ibv_completion_queue.ipp
--   Sglist      detail/small_sglist.hpp (Storage, Append, Reuse), ibv/ibv_buffer.hpp (Builder, Built)
--   Cm          ibv/detail/ibv_ops_cm.hpp, ibv/detail/impl/ibv_ops_cm.ipp
--   Connect     ibv/detail/ibv_op_connect.hpp, ibv/detail/impl/ibv_op_connect.ipp; Connect/Race the
--               same code cut at each access to the shared state
--   Connector   ibv/detail/ibv_service_connector.hpp; Connector/Moves its moves
--   Service     ibv/detail/ibv_service_base.hpp, ibv/detail/impl/ibv_service_base.ipp
--   Accept      ibv/detail/ibv_op_accept.hpp, ibv/detail/impl/ibv_op_wait_disconnect.ipp
--   Verbs       ibv/detail/ibv_service_verbs.hpp, ibv/detail/ibv_ops_verbs.hpp, detail/rdma_verbs_op.hpp
--   QueuePair   ibv/ibv_queue_pair.hpp, ibv/impl/ibv_queue_pair.ipp, and the async_* functions and
--               finish_poll and finish_event of ibv/detail/ibv_service_verbs.hpp and its .ipp
--   Completion  ibv/detail/impl/ibv_op_complete.ipp, ibv/impl/ibv_completion_queue.ipp, and poll_into of
--               ibv/detail/impl/ibv_service_io_completion.ipp
--   Completion/Poller  the poller of ibv/detail/impl/ibv_service_io_completion.ipp
--   Devices     ibv/detail/impl/ibv_device_impl.ipp, ibv/ibv_device.hpp, ibv/impl/ibv_device.ipp
--   Devices/Registration  ibv/impl/ibv_use_device.ipp, ibv/detail/ibv_service_device.hpp, initialize of
--               ibv/detail/impl/ibv_service_io_completion.ipp, ibv/detail/impl/ibv_ops_verbs.ipp,
--               ibv/impl/ibv_queue_pair.ipp, create_qp of ibv/detail/impl/ibv_service_verbs.ipp
--   Listener    ibv/detail/ibv_service_listener.hpp, ibv/detail/ibv_op_get_connection_request.hpp,
--               the adapters of ibv/ibv_listener.hpp
--   Nd          nd/detail/nd_impl_types.hpp, nd/nd_error.hpp, nd/detail/impl/nd_ops_cm.ipp
--   Nd/Operations  nd/detail/impl/nd_op_base.ipp, nd/detail/impl/nd_op_connect.ipp,
--               nd/detail/nd_op_connect.hpp, nd_op_accept.hpp and nd_op_wait_disconnect.hpp beside it
--   Nd/Connector  nd/detail/nd_service_connector.hpp
--   Nd/Race     the code of Nd/Operations and Nd/Connector behind async_connect and disconnect(), cut at
--               each access to the shared state
--   Nd/Listener  nd/detail/nd_service_listener.hpp, nd/detail/nd_op_get_connection_request.hpp, the adapters of
--               nd/nd_listener.hpp
--   Nd/Verbs    nd/detail/nd_service_verbs.hpp, nd/detail/nd_ops_verbs.hpp, the dispatch of
--               nd/detail/impl/nd_service_io_completion.ipp
--   Nd/Registration  nd/impl/nd_use_device.ipp, nd/detail/nd_service_device.hpp, and initialize and
--               shutdown of nd/detail/impl/nd_service_io_completion.ipp, whose poller is
--               Nd/Registration/Poller
--   Nd/QueuePair  nd/nd_queue_pair.hpp, nd/detail/impl/nd_service_verbs.ipp
--   Nd/Memory   nd/impl/nd_mr.ipp, nd/nd_mr.hpp, the registration of nd/detail/impl/nd_ops_verbs.ipp
--   Nd/PollQueue  the constructor of nd/impl/nd_completion_queue.ipp
--   Nd/Queue    poll and poll_one of nd/impl/nd_completion_queue.ipp
--   Nd/Adapter  nd/detail/impl/nd_config_derive.ipp and the checks of nd/detail/impl/nd_device_impl.ipp
--   Nd/Ranges, Nd/Devices  nd/detail/nd_device_impl.hpp, nd/detail/impl/nd_device_impl.ipp, nd/nd_device.hpp
--   Tests       the theorems applied to concrete inputs
-- Functions keep the source's names (`open` of the connector is `open_impl`, as it is a keyword), fields
-- lose the trailing underscore.
--
-- What is outside the repository is a parameter: `Cm.Env` answers every call of rdma_cm, the verbs
-- library, the system and the reactor, given the calls made so far, and every call is kept in a log,
-- newest first; `Nd.Env`, `VerbsEnv`, `Devices.System` and `Nd.Devices.Provider` do so for
-- NetworkDirect, the verbs library and the system; `Verbs.PostEnv` is ibv_post_send and ibv_post_recv,
-- `Completion.Device` ibv_poll_cq. The callback that creates a queue pair and the handlers of
-- operations are parameters too. Theorems name what they rely on: a callback that does not disconnect
-- (IsQuiet), failing calls that set errno (ReportsErrors, SetsErrno), a channel that runs dry
-- (IsFinite, RunsDry), a device that keeps to the batch (IsBounded), a queue that is handed over in
-- order (Feeds), results that name an operation (IsNamed), a sort that sorts (Sorted), objects that are
-- destroyed only while they live (AreLegal).
--
-- Bounds and fuel. Numbers are natural; casts to std::uint32_t and pointers keep their wrap-around.
-- Four loops run on fuel: drain_cm_events, for which more than the events still to be reported is
-- enough, the polls of a completion queue of either backend, for which more than the completions still
-- to come is enough, and base_shutdown, for which more than the live implementations is enough; the
-- theorems give the result for every such fuel. The loops on a weak exchange are the single exchange
-- that ends them.
--
-- Connect.Race is sequentially consistent: an action is one access to the state with the calls up to
-- the next, and a schedule is any list of actions. rdma_cm reports ESTABLISHED only after
-- rdma_connect, and the reactor's cancel_ops waits while an operation holds an event.
--
-- Nd.Race is sequentially consistent too. The device answers each call as the environment says, and the
-- scheduler completes an operation that waits for the device with any code.
--
-- Not modelled: the loading of the nd backend's providers; the interleavings of its accept with
-- disconnect(), whose state is read and exchanged at one point; the cancellation slots of the listeners'
-- requests; the reactor, the scheduler and the handlers' executors of asio; the templates that only pass
-- arguments on; the text of error messages and names beyond those of Error.
pub mod Accept
pub mod Base
pub mod Cm
pub mod Completion
pub mod Config
pub mod Connect
pub mod Connector
pub mod Devices
pub mod Error
pub mod Listener
pub mod Memory
pub mod Nd
pub mod QueuePair
pub mod Service
pub mod Sglist
pub mod Tests
pub mod Verbs
