-- ===== src/Nd/Memory.antt =====
-- nd/impl/nd_mr.ipp, nd/nd_mr.hpp and the registration of nd/detail/impl/nd_ops_verbs.ipp: the memory regions of the
-- NetworkDirect backend and the protection domain that they are registered in. Their keys, ranges and
-- slices are those of Memory.
pub mod Lifetime
use rdma_on_asio.Base.{ℕ, Bool, true, false, not, Option, none, some, List, ◌∷◌, if◌then◌else◌}
use rdma_on_asio.Base.Int.{ℤ}
use rdma_on_asio.Error.{ErrorCode, rdma, nd, cleared, is_error, invalid_device}
use rdma_on_asio.Memory.{AccessFlag, to_access, Result, returns, throws}
use rdma_on_asio.Nd.{
  Env, Log, Act, is_success, is_pending, create_overlapped_file, create_memory_region,
  release_memory_region, region_register, region_deregister, get_overlapped_result,
}

-- `native_pd_t`: the adapter and the handle of synchronous calls.
pub record NativePd : Type 0 where
  pub context : ℕ
  pub sync_handle : ℕ

-- `nd_memory_region`; `mr` is null once it has been moved from.
pub record NdMemoryRegion : Type 0 where
  pub mr : Option ℕ
  pub addr : ℕ
  pub length : ℕ
  pub flag : AccessFlag
  pub extra_flag : ℕ

module _ (env : Env) where
  -- A null context is no error.
  unfoldable pub allocate_pd : Option ℕ → Act (Option NativePd × ErrorCode)
  allocate_pd none log = ((none, cleared), log)
  allocate_pd (some context) log =
      let ec = env.code log (create_overlapped_file context) in
      let pd : NativePd = record { context = context; sync_handle = env.made log } in
      ((if is_error ec then none else some pd, ec), create_overlapped_file context ∷ log)

  -- A call on a region that may wait: the HRESULT that ends it.
  unfoldable pub waited : ℕ → ℤ → Act ℤ
  waited mr hr log =
      if is_pending hr
      then (env.hr log (get_overlapped_result mr), get_overlapped_result mr ∷ log)
      else (hr, log)

  unfoldable pub reg_mr : NativePd → ℕ → ℕ → AccessFlag → ℕ → Act (Option ℕ × ErrorCode)
  unfolding waited
  reg_mr pd addr length flag extra log =
      let create = create_memory_region pd.context pd.sync_handle in
      let created = nd (env.hr log create) in
      let mr = env.made log in
      let register = region_register mr addr length (to_access flag extra) in
      let hr = env.hr (create ∷ log) register in
      let (hr', log') = waited mr hr (register ∷ create ∷ log) in
      let ec = if is_success hr then cleared else nd hr' in
      if is_error created
      then ((none, created), create ∷ log)
      else if is_error ec
      then ((none, ec), release_memory_region mr ∷ log')
      else ((some mr, ec), log')

  -- The code stays as it was where the call succeeds at once.
  unfoldable pub dereg_mr : ℕ → ErrorCode → Act (ℤ × ErrorCode)
  unfolding waited
  dereg_mr mr ec log =
      let hr = env.hr log (region_deregister mr) in
      let (hr', log') = waited mr hr (region_deregister mr ∷ log) in
      if is_success hr then ((hr, ec), region_deregister mr ∷ log) else ((hr', nd hr'), log')

  unfoldable pub throw_reg_mr : Option NativePd → ℕ → ℕ → AccessFlag → ℕ → Act (Result (Option ℕ))
  unfolding reg_mr
  throw_reg_mr none addr length flag extra log = (throws (rdma invalid_device), log)
  throw_reg_mr (some pd) addr length flag extra log =
      let ((mr, ec), log') = reg_mr pd addr length flag extra log in
      if is_error ec then (throws ec, log') else (returns mr, log')

  -- The constructor; the device is given by its protection domain.
  unfoldable pub register_region :
      Option NativePd → ℕ → ℕ → AccessFlag → ℕ → Act (Result NdMemoryRegion)
  unfolding throw_reg_mr
  register_region pd addr length flag extra log =
      let (made, log') = throw_reg_mr pd addr length flag extra log in
      elim made [
        | throws e ↦ (throws e, log')
        | returns mr ↦ (
          returns
              (record { mr = mr; addr = addr; length = length; flag = flag; extra_flag = extra }),
          log',
        )
      ]

  -- The destructor deregisters, then drops the interface; a failure is only printed.
  unfoldable pub destroy_region : NdMemoryRegion → Log → Log
  unfolding dereg_mr
  destroy_region m log = elim m.mr [
    | none ↦ log
    | some mr ↦ release_memory_region mr ∷ (dereg_mr mr cleared log).1
  ]

-- The defaulted move constructor: the new region, and what is left of the other.
unfoldable pub move_region : NdMemoryRegion → NdMemoryRegion × NdMemoryRegion
move_region other = (other, record other { mr = none })

-- The defaulted move assignment: the interface held so far is dropped.
unfoldable pub assign_region :
    NdMemoryRegion → NdMemoryRegion → Log → (NdMemoryRegion × NdMemoryRegion) × Log
unfolding move_region
assign_region m other log =
    (move_region other, elim m.mr [ none ↦ log | some mr ↦ release_memory_region mr ∷ log ])
