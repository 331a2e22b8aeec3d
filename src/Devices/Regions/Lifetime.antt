-- ===== src/Devices/Regions/Lifetime.antt =====
-- ibv/ibv_mr.hpp: what a memory region holds, from its constructor to its end.
use rdma_on_asio.Base.{ℕ, ◌+◌, ◌≡◌, Bool, true, false, Option, none, some, [], ◌∷◌, arith, is_some}
use rdma_on_asio.Error.{is_error}
use rdma_on_asio.Memory.{AccessFlag, to_access, Result, returns, throws}
use rdma_on_asio.Cm.{to_pointer}
use rdma_on_asio.Devices.Registration.{VerbsEnv, VerbsLog, ibv_reg_mr, ibv_dereg_mr}
use rdma_on_asio.Devices.Registration.Registered.{SetsErrno}
use rdma_on_asio.Devices.Regions.{
  IbvMemoryRegion, reg_mr, throw_reg_mr, register_region, destroy_region, assign_region,
}

abbrev one : Bool → ℕ
one true = 1
one false = 0

-- Registrations made by the calls of a log, and undone.
abbrev pub made : VerbsEnv → VerbsLog → ℕ
made env [] = 0
made env (ibv_reg_mr pd addr length access ∷ log) =
    one (is_some (to_pointer (env log (ibv_reg_mr pd addr length access)).value)) + made env log
made env (_ ∷ log) = made env log

abbrev pub undone : VerbsLog → ℕ
undone [] = 0
undone (ibv_dereg_mr mr ∷ log) = 1 + undone log
undone (_ ∷ log) = undone log

-- `n` more registrations are held after `log'` than after `log`.
abbrev pub Holds : VerbsEnv → ℕ → VerbsLog → VerbsLog → Type 0
Holds env n log log' = made env log' + undone log ≡ made env log + undone log' + n

-- How the constructor ends: it throws an error and holds nothing, or it holds one registration, which the
-- destructor and the move assignment undo.
abbrev pub Registers :
    VerbsEnv → IbvMemoryRegion → VerbsLog → Result IbvMemoryRegion × VerbsLog → Type 0
Registers env other log (throws e, log') = (is_error e ≡ true) × Holds env 0 log log'
Registers env other log (returns m, log') =
    (is_some m.mr ≡ true)
    × Holds env 1 log log'
    × Holds env 0 log (destroy_region m log')
    × Holds env 0 log (assign_region m other log').1

pub register_region-Registers :
    (env : VerbsEnv) (pd : Option ℕ) (addr length : ℕ) (flag : AccessFlag) (extra : ℕ)
    (other : IbvMemoryRegion) (log : VerbsLog)
    → SetsErrno env
    → Registers env other log (register_region env pd addr length flag extra log)
unfolding register_region throw_reg_mr reg_mr destroy_region assign_region
register_region-Registers env none addr length flag extra other log h = ground arith
register_region-Registers env (some pd) addr length flag extra other log h =
    ground (arith, h log (ibv_reg_mr pd addr length (to_access flag extra)))
