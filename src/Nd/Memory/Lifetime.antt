-- ===== src/Nd/Memory/Lifetime.antt =====
-- nd/impl/nd_mr.ipp: what a memory region holds, from its constructor to its end.
use rdma_on_asio.Base.{
  ℕ, suc, ◌+◌, ◌≡◌, Bool, true, false, not, Option, none, some, [], ◌∷◌, arith, is_some,
}
use rdma_on_asio.Error.{nd, is_error}
use rdma_on_asio.Memory.{AccessFlag, Result, returns, throws}
use rdma_on_asio.Nd.{Env, Log, create_memory_region, release_memory_region, region_deregister}
use rdma_on_asio.Devices.Regions as Regions
use rdma_on_asio.Devices.Registration.{VerbsEnv, VerbsLog}
use rdma_on_asio.Devices.Registration.Registered.{SetsErrno}
use rdma_on_asio.Devices.Regions.Lifetime.{Registers, register_region-Registers}
use rdma_on_asio.Nd.Memory.{
  NativePd, NdMemoryRegion, waited, reg_mr, dereg_mr, throw_reg_mr, register_region, destroy_region,
  assign_region,
}

abbrev one : Bool → ℕ
one true = 1
one false = 0

-- Interfaces of regions made by the calls of a log, released, and deregistered.
abbrev pub made : Env → Log → ℕ
made env [] = 0
made env (create_memory_region a h ∷ log) =
    one (not (is_error (nd (env.hr log (create_memory_region a h))))) + made env log
made env (_ ∷ log) = made env log

abbrev pub released : Log → ℕ
released [] = 0
released (release_memory_region mr ∷ log) = 1 + released log
released (_ ∷ log) = released log

abbrev pub deregistered : Log → ℕ
deregistered [] = 0
deregistered (region_deregister mr ∷ log) = 1 + deregistered log
deregistered (_ ∷ log) = deregistered log

-- `n` more interfaces are held after `log'` than after `log`.
abbrev pub Holds : Env → ℕ → Log → Log → Type 0
Holds env n log log' = made env log' + released log ≡ made env log + released log' + n

-- How the constructor ends: it throws an error and holds nothing, or it holds one interface, which the
-- destructor deregisters and gives back, and the move assignment gives back only.
abbrev pub Constructed : Env → NdMemoryRegion → Log → Result NdMemoryRegion × Log → Type 0
Constructed env other log (throws e, log') = (is_error e ≡ true) × Holds env 0 log log'
Constructed env other log (returns m, log') =
    (is_some m.mr ≡ true)
    × Holds env 1 log log'
    × (deregistered log' ≡ deregistered log)
    × Holds env 0 log (destroy_region env m log')
    × (deregistered (destroy_region env m log') ≡ suc (deregistered log))
    × Holds env 0 log (assign_region m other log').1
    × (deregistered (assign_region m other log').1 ≡ deregistered log)

register_region-Constructed :
    (env : Env) (pd : Option NativePd) (addr length : ℕ) (flag : AccessFlag) (extra : ℕ)
    (other : NdMemoryRegion) (log : Log)
    → Constructed env other log (register_region env pd addr length flag extra log)
unfolding register_region throw_reg_mr reg_mr waited destroy_region dereg_mr assign_region
register_region-Constructed env none addr length flag extra other log = ground arith
register_region-Constructed env (some pd) addr length flag extra other log = ground arith

-- Whatever the devices answer, at once or after a wait, the constructor of a memory region of either
-- backend throws an error and holds nothing, or returns a region that its destructor deregisters, once.
-- Assigning another region to it deregisters it in the ibv backend; in the nd backend it only gives the
-- interface back. Of the verbs library this takes that a failing call sets errno.
pub regions-Constructed :
    (verbs : VerbsEnv) (env : Env) (pd : Option ℕ) (nd_pd : Option NativePd) (addr length : ℕ)
    (flag : AccessFlag) (extra : ℕ) (other : Regions.IbvMemoryRegion) (nd_other : NdMemoryRegion)
    (verbs_log : VerbsLog) (log : Log)
    → SetsErrno verbs
    → Registers verbs other verbs_log
        (Regions.register_region verbs pd addr length flag extra verbs_log)
      × Constructed env nd_other log (register_region env nd_pd addr length flag extra log)
regions-Constructed verbs env pd nd_pd addr length flag extra other nd_other verbs_log log h = (
  register_region-Registers verbs pd addr length flag extra other verbs_log h,
  register_region-Constructed env nd_pd addr length flag extra nd_other log,
)
