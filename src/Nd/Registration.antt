-- ===== src/Nd/Registration.antt =====
-- nd/impl/nd_use_device.ipp, nd/detail/nd_service_device.hpp, and `initialize`, `shutdown` and the poller
-- of nd/detail/impl/nd_service_io_completion.ipp.
pub mod Registered
pub mod Poller
use rdma_on_asio.Base.{
  ℕ, zero, suc, Bool, true, false, not, ◌&&◌, ◌||◌, Option, none, some, List, [], ◌∷◌, ◌++◌,
  if◌then◌else◌, ◌==◌, is_some,
}
use rdma_on_asio.Error.{
  ErrorCode, rdma, nd, cleared, is_error, already_registered, invalid_device, invalid_config,
}
use rdma_on_asio.Config.{Config, default_cq_poll_batch}
use rdma_on_asio.Nd.{
  Env, Log, Act, overlapped, create_overlapped_file, close_handle, register_handle,
  create_completion_queue, release_completion_queue,
}
use rdma_on_asio.Nd.Adapter.{AdapterInfo, derive_effective_config, is_config_compatible}
use rdma_on_asio.Nd.Connector.{Adapter, get}

-- `nd_adapter_t`: its interface with the local addresses, its limits, and whether it has a protection
-- domain.
pub record NdAdapter : Type 0 where
  pub adapter : Adapter
  pub info : AdapterInfo
  pub has_pd : Bool

-- `nd_device_service` and `nd_io_completion_service` of one io_context; `wc_buf` is the buffer's size.
pub record Services : Type 0 where
  pub device : Option NdAdapter
  pub effective_config : Config
  pub registered : Bool
  pub cq : Option ℕ
  pub cq_handle : Option ℕ
  pub wc_buf : ℕ

unfoldable pub register_device : NdAdapter → Config → Services → Services
register_device device effective s = record s {
  device = some device;
  effective_config = effective;
  registered = true;
}

-- `shutdown` of the device service.
unfoldable pub shutdown_device : Services → Services
shutdown_device s = record s { device = none; registered = false }

-- `shutdown` of the io_completion service: the queue goes before its handle.
unfoldable pub shutdown_io_completion : Services → Log → Services × Log
shutdown_io_completion s log =
    let released = if is_some s.cq then release_completion_queue (get s.cq) ∷ log else log in
    let closed =
      if is_some s.cq_handle then close_handle (get s.cq_handle) ∷ released else released in
    (record s { cq = none; cq_handle = none }, closed)

module _ (env : Env) where
  -- `initialize` with a device that is valid. The queue is null where its creation fails.
  unfoldable pub initialize : NdAdapter → ℕ → ℕ → Services → Act (Services × ErrorCode)
  initialize device cqe poll_batch s log =
      let a = device.adapter.adapter in
      let file_ec = env.code log (create_overlapped_file a) in
      let handle = env.made log in
      let file_log = create_overlapped_file a ∷ log in
      let cq_ec = nd (env.hr file_log (create_completion_queue a cqe handle)) in
      let cq = env.made file_log in
      let cq_log = create_completion_queue a cqe handle ∷ file_log in
      let reg_ec = env.code cq_log (register_handle handle) in
      let reg_log = register_handle handle ∷ cq_log in
      if is_some s.cq
      then ((s, rdma already_registered), log)
      else if is_error file_ec
      then ((s, file_ec), file_log)
      else if is_error cq_ec
      then ((record s { cq = none; cq_handle = none }, cq_ec), close_handle handle ∷ cq_log)
      else if is_error reg_ec
      then (
        (record s { cq = none; cq_handle = none }, reg_ec),
        close_handle handle ∷ release_completion_queue cq ∷ reg_log,
      )
      else (
        (
          record s {
            cq = some cq;
            cq_handle = some handle;
            wc_buf = if poll_batch == 0 then default_cq_poll_batch else poll_batch;
          },
          reg_ec,
        ),
        reg_log,
      )

  unfoldable pub use_device : Option NdAdapter → Config → Services → Act (Services × ErrorCode)
  unfolding initialize register_device
  use_device none config s log =
      if s.registered then ((s, rdma already_registered), log) else ((s, rdma invalid_device), log)
  use_device (some device) config s log =
      let effective = derive_effective_config config device.info in
      let ((s', ec), log') = initialize device effective.cqe effective.cq_poll_batch s log in
      if s.registered
      then ((s, rdma already_registered), log)
      else if not (is_config_compatible config device.info)
      then ((s, rdma invalid_config), log)
      else if is_error ec
      then ((s', ec), log')
      else ((register_device device effective s', ec), log')
