-- ===== src/Config.antt =====
-- rdma_commons.hpp (rdma_config_t), ibv/detail/ibv_config_derive.hpp and
-- ibv/detail/impl/ibv_config_derive.ipp: the operating configuration from the device's limits.
pub mod Laws
use rdma_on_asio.Base.{ℕ, ◌≤◌, Bool, true, false, ◌&&◌, not, if◌then◌else◌, ◌==◌, ltb, min}
use rdma_on_asio.Base.Int.{ℤ, pos, negsuc}

-- The fields are `std::uint32_t` (`rnr_retry` and `min_rnr_timer` `std::uint8_t`).
pub record Config : Type 0 where
  pub cqe : ℕ
  pub cq_poll_batch : ℕ
  pub max_send_wr : ℕ
  pub max_recv_wr : ℕ
  pub max_send_sge : ℕ
  pub max_recv_sge : ℕ
  pub max_inline_data : ℕ
  pub inbound_read_limit : ℕ
  pub outbound_read_limit : ℕ
  pub rnr_retry : ℕ
  pub min_rnr_timer : ℕ
  pub cm_resolve_timeout_ms : ℕ
  pub backlog : ℤ

-- `rdma_config_t{}`: the default member initialisers.
abbrev pub default_config : Config
default_config = record {
  cqe = 0;
  cq_poll_batch = 0;
  max_send_wr = 0;
  max_recv_wr = 0;
  max_send_sge = 0;
  max_recv_sge = 0;
  max_inline_data = 0;
  inbound_read_limit = 0;
  outbound_read_limit = 0;
  rnr_retry = 7;
  min_rnr_timer = 12;
  cm_resolve_timeout_ms = 0;
  backlog = pos 128;
}

-- The fields of `ibv_device_attr` that are read; each is an `int`.
pub record DeviceAttr : Type 0 where
  pub max_cqe : ℤ
  pub max_qp_wr : ℤ
  pub max_sge : ℤ
  pub max_qp_rd_atom : ℤ
  pub max_qp_init_rd_atom : ℤ

abbrev pub default_cqe : ℕ
default_cqe = 4096

abbrev pub default_cq_poll_batch : ℕ
default_cq_poll_batch = 16

abbrev pub default_max_send_wr : ℕ
default_max_send_wr = 128

abbrev pub default_max_recv_wr : ℕ
default_max_recv_wr = 128

abbrev pub default_max_send_sge : ℕ
default_max_send_sge = 4

abbrev pub default_max_recv_sge : ℕ
default_max_recv_sge = 4

abbrev pub default_cm_resolve_timeout_ms : ℕ
default_cm_resolve_timeout_ms = 2000

-- `v > 0 ? static_cast<size_type>(v) : 0u`
unfoldable pub cap_of : ℤ → ℕ
cap_of (pos n) = n
cap_of (negsuc n) = 0

-- `if (field == 0) field = value`
unfoldable pub or_derived : ℕ → ℕ → ℕ
or_derived field value = if field == 0 then value else field

unfoldable pub derive_effective_config : Config → DeviceAttr → Config
derive_effective_config user_config caps = record user_config {
  cqe = or_derived user_config.cqe (min (cap_of caps.max_cqe) default_cqe);
  cq_poll_batch = or_derived user_config.cq_poll_batch default_cq_poll_batch;
  max_send_wr =
      or_derived user_config.max_send_wr (min (cap_of caps.max_qp_wr) default_max_send_wr);
  max_recv_wr =
      or_derived user_config.max_recv_wr (min (cap_of caps.max_qp_wr) default_max_recv_wr);
  max_send_sge =
      or_derived user_config.max_send_sge (min (cap_of caps.max_sge) default_max_send_sge);
  max_recv_sge =
      or_derived user_config.max_recv_sge (min (cap_of caps.max_sge) default_max_recv_sge);
  inbound_read_limit = or_derived user_config.inbound_read_limit (cap_of caps.max_qp_rd_atom);
  outbound_read_limit =
      or_derived user_config.outbound_read_limit (cap_of caps.max_qp_init_rd_atom);
  cm_resolve_timeout_ms =
      or_derived user_config.cm_resolve_timeout_ms default_cm_resolve_timeout_ms;
}

-- `field != 0 && field > cap`
unfoldable pub exceeds : ℕ → ℤ → Bool
exceeds field cap = not (field == 0) && ltb (cap_of cap) field

unfoldable pub is_config_compatible : Config → DeviceAttr → Bool
is_config_compatible config caps =
    if exceeds config.cqe caps.max_cqe
    then false
    else if exceeds config.max_send_wr caps.max_qp_wr
    then false
    else if exceeds config.max_recv_wr caps.max_qp_wr
    then false
    else if exceeds config.max_send_sge caps.max_sge
    then false
    else if exceeds config.max_recv_sge caps.max_sge
    then false
    else if exceeds config.inbound_read_limit caps.max_qp_rd_atom
    then false
    else if exceeds config.outbound_read_limit caps.max_qp_init_rd_atom
    then false
    else true
