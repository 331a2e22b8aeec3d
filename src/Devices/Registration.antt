-- ===== src/Devices/Registration.antt =====
-- ibv/impl/ibv_use_device.ipp, ibv/detail/ibv_service_device.hpp, `initialize` of
-- ibv/detail/impl/ibv_service_io_completion.ipp and its calls of ibv/detail/impl/ibv_ops_verbs.ipp, and
-- `bind` and `create_qp` of a queue pair. What the verbs library and the system answer is `VerbsEnv`.
pub mod Registered
use rdma_on_asio.Base.{
  ℕ, Bool, true, false, not, ◌&&◌, ◌||◌, Option, none, some, List, [], ◌∷◌, if◌then◌else◌, ◌==◌,
  is_some,
}
use rdma_on_asio.Base.Int.{ℤ, is_nonzero}
use rdma_on_asio.Error.{
  ErrorCode, system, rdma, asio, cleared, is_error, already_registered, invalid_device,
  invalid_config, already_open, device_not_registered,
}
use rdma_on_asio.Config.{Config, derive_effective_config, is_config_compatible}
use rdma_on_asio.Cm.{Reply, to_pointer, is_minus_one}
use rdma_on_asio.Connector.{get}
use rdma_on_asio.Devices.{Device}
use rdma_on_asio.Memory.{Access}

-- Calls that leave the library. Contexts, channels, queues and descriptors are numbers.
pub data VerbsCall : Type 0 where
  ibv_create_comp_channel : ℕ → VerbsCall
  ibv_destroy_comp_channel : ℕ → VerbsCall
  comp_channel_getfl : ℕ → VerbsCall
  comp_channel_set_nonblock : ℕ → VerbsCall
  ibv_create_cq : ℕ → ℕ → ℕ → VerbsCall
  ibv_destroy_cq : ℕ → VerbsCall
  register_comp_channel : ℕ → VerbsCall
  deregister_comp_channel : ℕ → VerbsCall
  cleanup_cq_data : VerbsCall
  ibv_reg_mr : ℕ → ℕ → ℕ → Access → VerbsCall
  ibv_dereg_mr : ℕ → VerbsCall

abbrev pub VerbsLog : Type 0
VerbsLog = List VerbsCall

abbrev pub VerbsEnv : Type 0
VerbsEnv = VerbsLog → VerbsCall → Reply

-- `ibv_device_service` and `ibv_io_completion_service` of one io_context.
pub record Services : Type 0 where
  pub device : Option Device
  pub effective_config : Config
  pub registered : Bool
  pub comp_channel : Option ℕ
  pub cq : Option ℕ
  pub poll_batch : ℕ

unfoldable pub register_device : Device → Config → Services → Services
register_device device effective s = record s {
  device = some device;
  effective_config = effective;
  registered = true;
}

-- `shutdown` of the device service.
unfoldable pub shutdown_device : Services → Services
shutdown_device s = record s { device = none; registered = false }

-- `shutdown` of the io_completion service: the queue is destroyed before its channel.
unfoldable pub shutdown_io_completion : Services → VerbsLog → Services × VerbsLog
shutdown_io_completion s log =
    let deregistered =
      if is_some s.comp_channel
      then cleanup_cq_data ∷ deregister_comp_channel (get s.comp_channel) ∷ log
      else log in
    let queue = if is_some s.cq then ibv_destroy_cq (get s.cq) ∷ deregistered else deregistered in
    let channel =
      if is_some s.comp_channel
      then ibv_destroy_comp_channel (get s.comp_channel) ∷ queue
      else queue in
    (record s { cq = none; comp_channel = none }, channel)

module _ (env : VerbsEnv) where
  -- A channel that stays blocking is destroyed.
  unfoldable pub create_comp_channel : ℕ → VerbsLog → (Option ℕ × ErrorCode) × VerbsLog
  create_comp_channel context log =
      let made = env log (ibv_create_comp_channel context) in
      let log' = ibv_create_comp_channel context ∷ log in
      elim (to_pointer made.value) [
        | none ↦ ((none, system made.errno), log')
        | some channel ↦
            let got = env log' (comp_channel_getfl channel) in
            let got_log = comp_channel_getfl channel ∷ log' in
            let put = env got_log (comp_channel_set_nonblock channel) in
            let put_log = comp_channel_set_nonblock channel ∷ got_log in
            if is_minus_one got.value
            then ((none, system got.errno), ibv_destroy_comp_channel channel ∷ got_log)
            else if is_minus_one put.value
            then ((none, system put.errno), ibv_destroy_comp_channel channel ∷ put_log)
            else ((some channel, cleared), put_log)
      ]

  unfoldable pub create_cq : ℕ → ℕ → ℕ → VerbsLog → (Option ℕ × ErrorCode) × VerbsLog
  create_cq context cqe channel log =
      let made = env log (ibv_create_cq context cqe channel) in
      elim (to_pointer made.value) [
        | none ↦ ((none, system made.errno), ibv_create_cq context cqe channel ∷ log)
        | some cq ↦ ((some cq, cleared), ibv_create_cq context cqe channel ∷ log)
      ]

  -- `initialize` with a device that is not null.
  unfoldable pub initialize :
      Device → ℕ → ℕ → Services → VerbsLog → (Services × ErrorCode) × VerbsLog
  unfolding create_comp_channel create_cq
  initialize device cqe poll_batch s log =
      let ((channel, channel_ec), log') = create_comp_channel device.context log in
      let fd = get channel in
      let ((cq, cq_ec), log'') = create_cq device.context cqe fd log' in
      let err = (env log'' (register_comp_channel fd)).value in
      let log''' = register_comp_channel fd ∷ log'' in
      if is_some s.cq
      then ((s, rdma already_registered), log)
      else if is_error channel_ec
      then ((record s { comp_channel = channel }, channel_ec), log')
      else if is_error cq_ec
      then ((record s { comp_channel = none; cq = cq }, cq_ec), ibv_destroy_comp_channel fd ∷ log'')
      else if is_nonzero err
      then (
        (record s { comp_channel = none; cq = none }, system err),
        ibv_destroy_comp_channel fd ∷ ibv_destroy_cq (get cq) ∷ log''',
      )
      else (
        (
          record s {
            comp_channel = channel;
            cq = cq;
            poll_batch = if poll_batch == 0 then 16 else poll_batch;
          },
          cleared,
        ),
        log''',
      )

  unfoldable pub use_device :
      Option Device → Config → Services → VerbsLog → (Services × ErrorCode) × VerbsLog
  unfolding initialize register_device
  use_device none config s log =
      if s.registered then ((s, rdma already_registered), log) else ((s, rdma invalid_device), log)
  use_device (some device) config s log =
      let effective = derive_effective_config config device.attr in
      let ((s', ec), log') = initialize device effective.cqe effective.cq_poll_batch s log in
      if s.registered
      then ((s, rdma already_registered), log)
      else if not (is_config_compatible config device.attr)
      then ((s, rdma invalid_config), log)
      else if is_error ec
      then ((s', ec), log')
      else ((register_device device effective s', ec), log')

-- `ibv_queue_pair`: the `implementation_type` of its verbs service. `poll_cq` is whether completions are
-- polled by the caller.
pub record QueuePair : Type 0 where
  pub device : Option Device
  pub cq : Option ℕ
  pub config : Config
  pub poll_cq : Bool
  pub qp : Option ℕ

abbrev pub is_bound : QueuePair → Bool
is_bound q = is_some q.cq

-- `bind` to an io_context.
unfoldable pub bind_event : Services → QueuePair → QueuePair × ErrorCode
bind_event s q =
    if is_bound q
    then (q, asio already_open)
    else if not s.registered
    then (q, rdma device_not_registered)
    else (
      record q { device = s.device; cq = s.cq; config = s.effective_config; poll_cq = false },
      cleared,
    )

-- `bind` to a completion queue: its device, handle and effective configuration.
unfoldable pub bind_poll : Option Device → Option ℕ → Config → QueuePair → QueuePair × ErrorCode
bind_poll device cq config q =
    if is_bound q
    then (q, asio already_open)
    else (record q { device = device; cq = cq; config = config; poll_cq = true }, cleared)

-- `ibv_qp_init_attr`: what `create_qp` sets; the type is RC and every request is signaled.
pub record QpInitAttr : Type 0 where
  pub cq : ℕ
  pub max_send_wr : ℕ
  pub max_recv_wr : ℕ
  pub max_send_sge : ℕ
  pub max_recv_sge : ℕ
  pub max_inline_data : ℕ

-- `create` is `rdma_create_qp` on an id: its return code and `errno`, and `id->qp` after it.
unfoldable pub create_qp : (QpInitAttr → Reply × Option ℕ) → QueuePair → QueuePair × ErrorCode
create_qp create q =
    let (r, qp) = create (record {
      cq = get q.cq;
      max_send_wr = q.config.max_send_wr;
      max_recv_wr = q.config.max_recv_wr;
      max_send_sge = q.config.max_send_sge;
      max_recv_sge = q.config.max_recv_sge;
      max_inline_data = 0;
    }) in
    if not (is_some q.device) || not (is_some q.cq)
    then (q, rdma invalid_device)
    else if is_nonzero r.value
    then (q, system r.errno)
    else (record q { qp = qp }, cleared)
