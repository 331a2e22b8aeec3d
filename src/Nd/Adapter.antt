-- ===== src/Nd/Adapter.antt =====
-- nd/detail/impl/nd_config_derive.ipp and the capability checks of nd/detail/impl/nd_device_impl.ipp.
pub mod Laws
use Prim.Native.Nat.{bit_and}
use rdma_on_asio.Base.{
  ℕ, Bool, true, false, not, ◌&&◌, ◌||◌, Option, none, some, if◌then◌else◌, ◌==◌, ltb, leb, min,
}
use rdma_on_asio.Config.{
  Config, or_derived, default_cqe, default_cq_poll_batch, default_max_send_wr, default_max_recv_wr,
  default_max_send_sge, default_max_recv_sge,
}

-- `ND2_ADAPTER_INFO`: the fields that are read.
pub record AdapterInfo : Type 0 where
  pub max_registration_size : ℕ
  pub max_window_size : ℕ
  pub max_initiator_sge : ℕ
  pub max_receive_sge : ℕ
  pub max_read_sge : ℕ
  pub max_transfer_length : ℕ
  pub max_inline_data_size : ℕ
  pub max_inbound_read_limit : ℕ
  pub max_outbound_read_limit : ℕ
  pub max_receive_queue_depth : ℕ
  pub max_initiator_queue_depth : ℕ
  pub max_shared_receive_queue_depth : ℕ
  pub max_completion_queue_depth : ℕ
  pub inline_request_threshold : ℕ
  pub large_request_threshold : ℕ
  pub max_caller_data : ℕ
  pub max_callee_data : ℕ
  pub adapter_flags : ℕ

unfoldable pub derive_effective_config : Config → AdapterInfo → Config
derive_effective_config user_config caps = record user_config {
  cqe = or_derived user_config.cqe (min caps.max_completion_queue_depth default_cqe);
  cq_poll_batch = or_derived user_config.cq_poll_batch default_cq_poll_batch;
  max_send_wr =
      or_derived user_config.max_send_wr (min caps.max_initiator_queue_depth default_max_send_wr);
  max_recv_wr =
      or_derived user_config.max_recv_wr (min caps.max_receive_queue_depth default_max_recv_wr);
  max_send_sge =
      or_derived user_config.max_send_sge (min caps.max_initiator_sge default_max_send_sge);
  max_recv_sge =
      or_derived user_config.max_recv_sge (min caps.max_receive_sge default_max_recv_sge);
  max_inline_data = or_derived user_config.max_inline_data caps.max_inline_data_size;
  inbound_read_limit = or_derived user_config.inbound_read_limit caps.max_inbound_read_limit;
  outbound_read_limit = or_derived user_config.outbound_read_limit caps.max_outbound_read_limit;
}

-- `field == 0 || field <= cap`
unfoldable pub within : ℕ → ℕ → Bool
within field cap = field == 0 || leb field cap

unfoldable pub is_config_compatible : Config → AdapterInfo → Bool
unfolding within
is_config_compatible config caps =
    within config.cqe caps.max_completion_queue_depth
    && within config.max_send_wr caps.max_initiator_queue_depth
    && within config.max_recv_wr caps.max_receive_queue_depth
    && within config.max_send_sge caps.max_initiator_sge
    && within config.max_recv_sge caps.max_receive_sge
    && within config.max_inline_data caps.max_inline_data_size
    && within config.inbound_read_limit caps.max_inbound_read_limit
    && within config.outbound_read_limit caps.max_outbound_read_limit

-- `is_valid_adapter` for a configuration: null, or the adapter's capabilities.
unfoldable pub is_valid_adapter : Option AdapterInfo → Config → Bool
is_valid_adapter none config = false
is_valid_adapter (some caps) config =
    if ltb caps.max_completion_queue_depth config.cqe
    then false
    else if ltb caps.max_initiator_queue_depth config.max_send_wr
    then false
    else if ltb caps.max_receive_queue_depth config.max_recv_wr
    then false
    else if ltb caps.max_initiator_sge config.max_send_sge
    then false
    else if ltb caps.max_receive_sge config.max_recv_sge
    then false
    else if ltb caps.max_inline_data_size config.max_inline_data
    then false
    else if ltb caps.max_inbound_read_limit config.inbound_read_limit
    then false
    else if ltb caps.max_outbound_read_limit config.outbound_read_limit
    then false
    else true

-- `config.field != 0 && config.field > capabilities.field`
unfoldable pub over : ℕ → ℕ → Bool
over field cap = not (field == 0) && ltb cap field

-- `is_valid_adapter` for capabilities.
unfoldable pub is_capable_adapter : Option AdapterInfo → AdapterInfo → Bool
unfolding over
is_capable_adapter none config = false
is_capable_adapter (some caps) config =
    if over config.max_registration_size caps.max_registration_size
    then false
    else if over config.max_window_size caps.max_window_size
    then false
    else if over config.max_initiator_sge caps.max_initiator_sge
    then false
    else if over config.max_receive_sge caps.max_receive_sge
    then false
    else if over config.max_read_sge caps.max_read_sge
    then false
    else if over config.max_transfer_length caps.max_transfer_length
    then false
    else if over config.max_inline_data_size caps.max_inline_data_size
    then false
    else if over config.max_inbound_read_limit caps.max_inbound_read_limit
    then false
    else if over config.max_outbound_read_limit caps.max_outbound_read_limit
    then false
    else if over config.max_receive_queue_depth caps.max_receive_queue_depth
    then false
    else if over config.max_initiator_queue_depth caps.max_initiator_queue_depth
    then false
    else if over config.max_shared_receive_queue_depth caps.max_shared_receive_queue_depth
    then false
    else if over config.max_completion_queue_depth caps.max_completion_queue_depth
    then false
    else if over config.inline_request_threshold caps.inline_request_threshold
    then false
    else if over config.large_request_threshold caps.large_request_threshold
    then false
    else if over config.max_caller_data caps.max_caller_data
    then false
    else if over config.max_callee_data caps.max_callee_data
    then false
    else if not (config.adapter_flags == 0)
        && not (bit_and config.adapter_flags caps.adapter_flags == config.adapter_flags)
    then false
    else true
