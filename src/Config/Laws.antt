-- ===== src/Config/Laws.antt =====
-- What the checks of ibv/detail/impl/ibv_config_derive.ipp accept, and what they derive.
use rdma_on_asio.Base.{ℕ, ◌≤◌, ◌<◌, ◌≡◌, ◌↔◌, true, false, arith}
use rdma_on_asio.Base.Int.{ℤ}
use rdma_on_asio.Config.{
  Config, DeviceAttr, cap_of, or_derived, exceeds, derive_effective_config, is_config_compatible,
}

-- Every limit of a configuration is within the device's.
pub record FitsDevice (c : Config) (caps : DeviceAttr) : Type 0 where
  pub cqe_fits : c.cqe ≤ cap_of caps.max_cqe
  pub send_wr_fits : c.max_send_wr ≤ cap_of caps.max_qp_wr
  pub recv_wr_fits : c.max_recv_wr ≤ cap_of caps.max_qp_wr
  pub send_sge_fits : c.max_send_sge ≤ cap_of caps.max_sge
  pub recv_sge_fits : c.max_recv_sge ≤ cap_of caps.max_sge
  pub inbound_fits : c.inbound_read_limit ≤ cap_of caps.max_qp_rd_atom
  pub outbound_fits : c.outbound_read_limit ≤ cap_of caps.max_qp_init_rd_atom

-- `exceeds` is the test that it reads as: a limit of 0 exceeds no device.
exceeds_iff : (n : ℕ) (cap : ℤ) → (exceeds n cap ≡ false) ↔ (n ≤ cap_of cap)
unfolding exceeds
exceeds_iff n cap = ground arith

-- A configuration is compatible exactly when every limit of it is within the device's.
pub is_config_compatible_iff :
    (c : Config) (caps : DeviceAttr) → (is_config_compatible c caps ≡ true) ↔ FitsDevice c caps
unfolding is_config_compatible
is_config_compatible_iff c caps = (
  λ h. ground (
    arith,
    exceeds_iff c.cqe caps.max_cqe,
    exceeds_iff c.max_send_wr caps.max_qp_wr,
    exceeds_iff c.max_recv_wr caps.max_qp_wr,
    exceeds_iff c.max_send_sge caps.max_sge,
    exceeds_iff c.max_recv_sge caps.max_sge,
    exceeds_iff c.inbound_read_limit caps.max_qp_rd_atom,
    exceeds_iff c.outbound_read_limit caps.max_qp_init_rd_atom,
  ),
  λ f. ground (
    arith,
    exceeds_iff c.cqe caps.max_cqe,
    exceeds_iff c.max_send_wr caps.max_qp_wr,
    exceeds_iff c.max_recv_wr caps.max_qp_wr,
    exceeds_iff c.max_send_sge caps.max_sge,
    exceeds_iff c.max_recv_sge caps.max_sge,
    exceeds_iff c.inbound_read_limit caps.max_qp_rd_atom,
    exceeds_iff c.outbound_read_limit caps.max_qp_init_rd_atom,
  ),
)

-- A limit that is given or derived is still within the device's, and what is given stays.
or_derived-le : (n v cap : ℕ) → n ≤ cap → v ≤ cap → or_derived n v ≤ cap
unfolding or_derived
or_derived-le n v cap h k = ground arith

or_derived_idem : (n v : ℕ) → or_derived (or_derived n v) v ≡ or_derived n v
unfolding or_derived
or_derived_idem n v = ground arith

or_derived_pos : (n v : ℕ) → 0 < v → 0 < or_derived n v
unfolding or_derived
or_derived_pos n v h = ground arith

-- Deriving from a compatible configuration gives a compatible one.
pub derive_effective_config-compatible :
    (c : Config) (caps : DeviceAttr)
    → is_config_compatible c caps ≡ true
    → is_config_compatible (derive_effective_config c caps) caps ≡ true
unfolding derive_effective_config
derive_effective_config-compatible c caps h =
    (is_config_compatible_iff (derive_effective_config c caps) caps).1 (record {
      cqe_fits = or_derived-le _ _ _ f.cqe_fits (omega arith);
      send_wr_fits = or_derived-le _ _ _ f.send_wr_fits (omega arith);
      recv_wr_fits = or_derived-le _ _ _ f.recv_wr_fits (omega arith);
      send_sge_fits = or_derived-le _ _ _ f.send_sge_fits (omega arith);
      recv_sge_fits = or_derived-le _ _ _ f.recv_sge_fits (omega arith);
      inbound_fits = or_derived-le _ _ _ f.inbound_fits (omega arith);
      outbound_fits = or_derived-le _ _ _ f.outbound_fits (omega arith);
    })
  where
    f : FitsDevice c caps
    f = (is_config_compatible_iff c caps).0 h

-- Deriving twice is deriving once.
derive_effective_config_idem :
    (c : Config) (caps : DeviceAttr)
    → derive_effective_config (derive_effective_config c caps) caps ≡ derive_effective_config c caps
unfolding derive_effective_config
derive_effective_config_idem c caps = simp or_derived_idem

-- Every limit that a device supports is at least 1 after deriving, as are the poll batch and the
-- resolve timeout on any device.
derive_effective_config_pos :
    (c : Config) (caps : DeviceAttr)
    → 0 < cap_of caps.max_cqe
    → 0 < cap_of caps.max_qp_wr
    → 0 < cap_of caps.max_sge
    → let e = derive_effective_config c caps in
      (0 < e.cqe)
      × (0 < e.cq_poll_batch)
      × (0 < e.max_send_wr)
      × (0 < e.max_recv_wr)
      × (0 < e.max_send_sge)
      × (0 < e.max_recv_sge)
      × (0 < e.cm_resolve_timeout_ms)
unfolding derive_effective_config
derive_effective_config_pos c caps hc hw hs = (
  or_derived_pos _ _ (omega arith),
  or_derived_pos _ _ (omega arith),
  or_derived_pos _ _ (omega arith),
  or_derived_pos _ _ (omega arith),
  or_derived_pos _ _ (omega arith),
  or_derived_pos _ _ (omega arith),
  or_derived_pos _ _ (omega arith),
)
