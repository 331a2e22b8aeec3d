-- ===== src/Nd/Adapter/Laws.antt =====
-- nd/detail/impl/nd_config_derive.ipp and nd/detail/impl/nd_device_impl.ipp: the two checks of a
-- configuration agree, and deriving keeps to the adapter's limits.
use rdma_on_asio.Base.{ℕ, ◌≤◌, ◌≡◌, ◌↔◌, refl, sym, Bool, true, false, some, arith, ◌&&◌}
use rdma_on_asio.Config.{Config, or_derived}
use rdma_on_asio.Nd.Adapter.{
  AdapterInfo, derive_effective_config, within, is_config_compatible, is_valid_adapter,
}

Bool_ext : (a b : Bool) → (a ≡ true → b ≡ true) → (b ≡ true → a ≡ true) → a ≡ b
Bool_ext true b f g = sym (f refl)
Bool_ext false true f g = g refl
Bool_ext false false f g = refl

and_iff : (a b : Bool) → ((a && b) ≡ true) ↔ ((a ≡ true) × (b ≡ true))
and_iff a b = ground arith

-- Each limit is within the adapter's.
abbrev pub FitsAdapter : Config → AdapterInfo → Type 0
FitsAdapter c caps =
    (((((((c.cqe ≤ caps.max_completion_queue_depth)
                × (c.max_send_wr ≤ caps.max_initiator_queue_depth))
              × (c.max_recv_wr ≤ caps.max_receive_queue_depth))
            × (c.max_send_sge ≤ caps.max_initiator_sge))
          × (c.max_recv_sge ≤ caps.max_receive_sge))
        × (c.max_inline_data ≤ caps.max_inline_data_size))
      × (c.inbound_read_limit ≤ caps.max_inbound_read_limit))
    × (c.outbound_read_limit ≤ caps.max_outbound_read_limit)

or_derived-le : (n v cap : ℕ) → n ≤ cap → v ≤ cap → or_derived n v ≤ cap
unfolding or_derived
or_derived-le n v cap h k = ground arith

is_valid_adapter_iff :
    (c : Config) (caps : AdapterInfo) → (is_valid_adapter (some caps) c ≡ true) ↔ FitsAdapter c caps
unfolding is_valid_adapter
is_valid_adapter_iff c caps = (λ h. ground arith, λ h. ground arith)

within_iff : (field cap : ℕ) → (within field cap ≡ true) ↔ (field ≤ cap)
unfolding within
within_iff field cap = ground arith

-- One more limit in a conjunction of tests.
and_within_iff :
    {P : Type 0} (b : Bool) (field cap : ℕ)
    → ((b ≡ true) ↔ P)
    → ((b && within field cap) ≡ true) ↔ (P × (field ≤ cap))
and_within_iff b field cap e = (
  λ h. (e.0 ((and_iff b _).0 h).0, (within_iff field cap).0 ((and_iff b _).0 h).1),
  λ h. (and_iff b _).1 (e.1 h.0, (within_iff field cap).1 h.1),
)

is_config_compatible_iff :
    (c : Config) (caps : AdapterInfo) → (is_config_compatible c caps ≡ true) ↔ FitsAdapter c caps
unfolding is_config_compatible
is_config_compatible_iff c caps =
    and_within_iff _ c.outbound_read_limit caps.max_outbound_read_limit (
      and_within_iff _ c.inbound_read_limit caps.max_inbound_read_limit (
        and_within_iff _ c.max_inline_data caps.max_inline_data_size (
          and_within_iff _ c.max_recv_sge caps.max_receive_sge (
            and_within_iff _ c.max_send_sge caps.max_initiator_sge (
              and_within_iff _ c.max_recv_wr caps.max_receive_queue_depth (
                and_within_iff _ c.max_send_wr caps.max_initiator_queue_depth
                  (within_iff c.cqe caps.max_completion_queue_depth)))))))

-- The check that selects a device and the check that registers one accept the same configurations: those
-- whose limits are all within the adapter's.
pub is_valid_adapter-is_config_compatible :
    (config : Config) (caps : AdapterInfo)
    → (is_valid_adapter (some caps) config ≡ is_config_compatible config caps)
      × ((is_config_compatible config caps ≡ true) ↔ FitsAdapter config caps)
is_valid_adapter-is_config_compatible config caps = (
  Bool_ext _ _
      (λ h. (is_config_compatible_iff config caps).1 ((is_valid_adapter_iff config caps).0 h))
      (λ h. (is_valid_adapter_iff config caps).1 ((is_config_compatible_iff config caps).0 h)),
  is_config_compatible_iff config caps,
)

-- A configuration that the adapter is selected for is derived to one within all its limits, which the
-- adapter is selected for again.
pub derive_effective_config-FitsAdapter :
    (c : Config) (caps : AdapterInfo)
    → is_valid_adapter (some caps) c ≡ true
    → let d = derive_effective_config c caps in
      FitsAdapter d caps × (is_valid_adapter (some caps) d ≡ true)
unfolding derive_effective_config
derive_effective_config-FitsAdapter c caps h = (fits, (is_valid_adapter_iff _ caps).1 fits)
  where
    f : FitsAdapter c caps
    f = (is_valid_adapter_iff c caps).0 h

    fits : FitsAdapter (derive_effective_config c caps) caps
    fits = (
      (
        (
          (
            (
              (
                (
                  or_derived-le _ _ _ f.0.0.0.0.0.0.0 (omega arith),
                  or_derived-le _ _ _ f.0.0.0.0.0.0.1 (omega arith),
                ),
                or_derived-le _ _ _ f.0.0.0.0.0.1 (omega arith),
              ),
              or_derived-le _ _ _ f.0.0.0.0.1 (omega arith),
            ),
            or_derived-le _ _ _ f.0.0.0.1 (omega arith),
          ),
          or_derived-le _ _ _ f.0.0.1 (omega arith),
        ),
        or_derived-le _ _ _ f.0.1 (omega arith),
      ),
      or_derived-le _ _ _ f.1 (omega arith),
    )
