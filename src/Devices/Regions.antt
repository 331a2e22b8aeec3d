-- ===== src/Devices/Regions.antt =====
-- ibv/ibv_mr.hpp and `reg_mr` and `dereg_mr` of ibv/detail/impl/ibv_ops_verbs.ipp: registering memory. The keys,
-- ranges and slices of a region are those of Memory.
pub mod Lifetime
use rdma_on_asio.Base.{ℕ, Option, none, some, ◌∷◌, if◌then◌else◌}
use rdma_on_asio.Base.Int.{ℤ, is_nonzero}
use rdma_on_asio.Error.{ErrorCode, system, rdma, cleared, is_error, invalid_device}
use rdma_on_asio.Memory.{AccessFlag, to_access, Result, returns, throws}
use rdma_on_asio.Cm.{to_pointer}
use rdma_on_asio.Devices.Registration.{VerbsEnv, VerbsLog, ibv_reg_mr, ibv_dereg_mr}

-- `ibv_memory_region`; `mr` is null once it has been moved from.
pub record IbvMemoryRegion : Type 0 where
  pub mr : Option ℕ
  pub addr : ℕ
  pub length : ℕ
  pub flag : AccessFlag
  pub extra_flag : ℕ

module _ (env : VerbsEnv) where
  unfoldable pub reg_mr : ℕ → ℕ → ℕ → AccessFlag → ℕ → VerbsLog → (Option ℕ × ErrorCode) × VerbsLog
  reg_mr pd addr length flag extra log =
      let call = ibv_reg_mr pd addr length (to_access flag extra) in
      let reply = env log call in
      elim (to_pointer reply.value) [
        | none ↦ ((none, system reply.errno), call ∷ log)
        | some mr ↦ ((some mr, cleared), call ∷ log)
      ]

  unfoldable pub dereg_mr : ℕ → VerbsLog → (ℤ × ErrorCode) × VerbsLog
  dereg_mr mr log =
      let rc = (env log (ibv_dereg_mr mr)).value in
      ((rc, if is_nonzero rc then system rc else cleared), ibv_dereg_mr mr ∷ log)

  -- `throw_reg_mr`; the device is given by its protection domain, which may be null.
  unfoldable pub throw_reg_mr :
      Option ℕ → ℕ → ℕ → AccessFlag → ℕ → VerbsLog → Result (Option ℕ) × VerbsLog
  unfolding reg_mr
  throw_reg_mr none addr length flag extra log = (throws (rdma invalid_device), log)
  throw_reg_mr (some pd) addr length flag extra log =
      let ((mr, ec), log') = reg_mr pd addr length flag extra log in
      if is_error ec then (throws ec, log') else (returns mr, log')

  -- The constructor.
  unfoldable pub register_region :
      Option ℕ → ℕ → ℕ → AccessFlag → ℕ → VerbsLog → Result IbvMemoryRegion × VerbsLog
  unfolding throw_reg_mr
  register_region pd addr length flag extra log =
      let (made, log') = throw_reg_mr pd addr length flag extra log in
      elim made [
        | throws e ↦ (throws e, log')
        | returns mr ↦ (
          returns
              (record { mr = mr; addr = addr; length = length; flag = flag; extra_flag = extra }),
          log',
        )
      ]

-- `ibv_mr_deleter`, which the destructor calls.
unfoldable pub destroy_region : IbvMemoryRegion → VerbsLog → VerbsLog
destroy_region m log = elim m.mr [ none ↦ log | some mr ↦ ibv_dereg_mr mr ∷ log ]

-- The defaulted move constructor: the new region, and what is left of the other.
unfoldable pub move_region : IbvMemoryRegion → IbvMemoryRegion × IbvMemoryRegion
move_region other = (other, record other { mr = none })

-- The defaulted move assignment: what was registered so far goes to the deleter.
unfoldable pub assign_region :
    IbvMemoryRegion → IbvMemoryRegion → VerbsLog → (IbvMemoryRegion × IbvMemoryRegion) × VerbsLog
unfolding move_region destroy_region
assign_region m other log = (move_region other, destroy_region m log)
