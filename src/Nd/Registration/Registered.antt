-- ===== src/Nd/Registration/Registered.antt =====
-- nd/impl/nd_use_device.ipp: what a registration leaves, on every path.
use rdma_on_asio.Base.{
  ℕ, ◌+◌, ◌≡◌, ◌⊎◌, inl, inr, refl, ◌∙◌, not, Bool, true, false, Option, none, some, [], ◌∷◌, arith,
  is_some, if◌then◌else◌, if_elim,
}
use rdma_on_asio.Error.{ErrorCode, is_error, nd}
use rdma_on_asio.Config.{Config}
use rdma_on_asio.Nd.{
  Env, Log, create_overlapped_file, close_handle, create_completion_queue, release_completion_queue,
}
use rdma_on_asio.Nd.Adapter.{derive_effective_config, is_config_compatible}
use rdma_on_asio.Nd.Adapter.Laws.{
  FitsAdapter, derive_effective_config-FitsAdapter, is_valid_adapter-is_config_compatible,
}
use rdma_on_asio.Nd.Registration.{
  NdAdapter, Services, register_device, shutdown_io_completion, initialize, use_device,
}

abbrev one : Bool → ℕ
one true = 1
one false = 0

-- Files made by the calls of a log, less those closed; queues made, less those released.
abbrev pub files_made : Env → Log → ℕ
files_made env [] = 0
files_made env (create_overlapped_file a ∷ log) =
    one (not (is_error (env.code log (create_overlapped_file a)))) + files_made env log
files_made env (_ ∷ log) = files_made env log

abbrev pub files_closed : Log → ℕ
files_closed [] = 0
files_closed (close_handle h ∷ log) = 1 + files_closed log
files_closed (_ ∷ log) = files_closed log

abbrev pub queues_made : Env → Log → ℕ
queues_made env [] = 0
queues_made env (create_completion_queue a cqe h ∷ log) =
    one (not (is_error (nd (env.hr log (create_completion_queue a cqe h))))) + queues_made env log
queues_made env (_ ∷ log) = queues_made env log

abbrev pub queues_released : Log → ℕ
queues_released [] = 0
queues_released (release_completion_queue h ∷ log) = 1 + queues_released log
queues_released (_ ∷ log) = queues_released log

-- Every file and queue that was made is held or was given back.
pub record IsBalanced (env : Env) (s : Services) (log : Log) : Type 0 where
  pub files : files_made env log ≡ files_closed log + one (is_some s.cq_handle)
  pub queues : queues_made env log ≡ queues_released log + one (is_some s.cq)
  pub together : is_some s.cq_handle ≡ is_some s.cq

initialize-IsBalanced :
    (env : Env) (d : NdAdapter) (cqe batch : ℕ) (s : Services) (log : Log)
    → IsBalanced env s log
    → let ((s', ec), log') = initialize env d cqe batch s log in
      IsBalanced env s' log'
      × ((is_error ec ≡ true) ⊎ ((is_error ec ≡ false) × (is_some s'.cq ≡ true)))
      × ((is_error ec ≡ false) ⊎ (s' ≡ s))
unfolding initialize
initialize-IsBalanced env d cqe batch s log v = ground (arith, v.files, v.queues, v.together)

pub derived-FitsAdapter :
    (config : Config) (d : NdAdapter)
    → is_config_compatible config d.info ≡ true
    → FitsAdapter (derive_effective_config config d.info) d.info
derived-FitsAdapter config d h =
    (derive_effective_config-FitsAdapter config d.info
      ((is_valid_adapter-is_config_compatible config d.info).0 ∙ h)).0

-- The device, its configuration within its limits, and a queue.
pub record Registers (d : NdAdapter) (config : Config) (s : Services) : Type 0 where
  pub device : s.device ≡ some d
  pub registered : s.registered ≡ true
  pub derived : s.effective_config ≡ derive_effective_config config d.info
  pub fits : FitsAdapter s.effective_config d.info
  pub has_cq : is_some s.cq ≡ true

-- How use_device ends.
abbrev pub Ends : Option NdAdapter → Config → Services → Services → ErrorCode → Type 0
Ends none config s s' ec = (is_error ec ≡ true) × (s' ≡ s)
Ends (some d) config s s' ec =
    ((is_error ec ≡ true) × (s' ≡ s))
    ⊎ ((is_error ec ≡ false) × (s.registered ≡ false) × Registers d config s')

register_device-Registers :
    (config : Config) (d : NdAdapter) (s : Services)
    → is_some s.cq ≡ true
    → is_config_compatible config d.info ≡ true
    → Registers d config (register_device d (derive_effective_config config d.info) s)
unfolding register_device
register_device-Registers config d s q c = record {
  device = refl;
  registered = refl;
  derived = refl;
  fits = derived-FitsAdapter config d c;
  has_cq = q;
}

abbrev Result : Type 0
Result = (Services × ErrorCode) × Log

made-Ends :
    (env : Env) (d : NdAdapter) (config : Config) (s : Services) (log : Log)
    → IsBalanced env s log
    → s.registered ≡ false
    → is_config_compatible config d.info ≡ true
    → let eff = derive_effective_config config d.info in
      let made = initialize env d eff.cqe eff.cq_poll_batch s log in
      let r : Result =
        if is_error made.0.1 then made else ((register_device d eff made.0.0, made.0.1), made.1) in
      IsBalanced env r.0.0 r.1 × Ends (some d) config s r.0.0 r.0.1
unfolding register_device
made-Ends env d config s log v u c =
    let eff = derive_effective_config config d.info in
    let made = initialize env d eff.cqe eff.cq_poll_batch s log in
    let (b, q, k) = initialize-IsBalanced env d eff.cqe eff.cq_poll_batch s log v in
    if_elim {A = Result} (λ r. IsBalanced env r.0.0 r.1 × Ends (some d) config s r.0.0 r.0.1)
      (is_error made.0.1) made ((register_device d eff made.0.0, made.0.1), made.1)
      (λ x. (b, inl (x, ground (arith, x, k))))
      (λ x. (
        record { files = b.files; queues = b.queues; together = b.together },
        inr (x, u, register_device-Registers config d made.0.0 (ground (arith, q, x)) c),
      ))

IsBalanced-Ends :
    (env : Env) (device : Option NdAdapter) (config : Config) (s : Services) (log : Log)
    → IsBalanced env s log
    → let ((s', ec), log') = use_device env device config s log in
      IsBalanced env s' log' × Ends device config s s' ec
unfolding use_device
IsBalanced-Ends env none config s log v =
    if_elim {A = Result} (λ r. IsBalanced env r.0.0 r.1 × Ends none config s r.0.0 r.0.1)
      s.registered _ _ (λ e. (v, (refl, refl))) (λ e. (v, (refl, refl)))
IsBalanced-Ends env (some d) config s log v =
    if_elim {A = Result} (λ r. IsBalanced env r.0.0 r.1 × Ends (some d) config s r.0.0 r.0.1)
      s.registered _ _ (λ e. (v, inl (refl, refl)))
      (λ e.
        if_elim {A = Result} (λ r. IsBalanced env r.0.0 r.1 × Ends (some d) config s r.0.0 r.0.1)
          (not (is_config_compatible config d.info)) _ _ (λ i. (v, inl (refl, refl)))
          (λ i. made-Ends env d config s log v e (not_false _ i)))
  where
    not_false : (b : Bool) → not b ≡ false → b ≡ true
    not_false b h = ground arith

-- shutdown of the services gives back the file and the queue.
shutdown-IsBalanced :
    (env : Env) (s : Services) (log : Log)
    → IsBalanced env s log
    → IsBalanced env (shutdown_io_completion s log).0 (shutdown_io_completion s log).1
unfolding shutdown_io_completion
shutdown-IsBalanced env s log v = ground (arith, v.files, v.queues)

-- use_device on every path that fails leaves the services exactly as they were and gives back the
-- file and the queue that it made; where it succeeds the services were free, and hold the device, a
-- queue and the derived configuration, which is within the adapter's limits. A shutdown then gives
-- all back.
pub use_device-Ends :
    (env : Env) (device : Option NdAdapter) (config : Config) (s : Services) (log : Log)
    → IsBalanced env s log
    → let ((s', ec), log') = use_device env device config s log in
      let (down, after) = shutdown_io_completion s' log' in
      IsBalanced env s' log'
      × Ends device config s s' ec
      × (files_made env after ≡ files_closed after)
      × (queues_made env after ≡ queues_released after)
unfolding shutdown_io_completion
use_device-Ends env device config s log v =
    let ((s', ec), log') = use_device env device config s log in
    let (b, e) = IsBalanced-Ends env device config s log v in
    let w = shutdown-IsBalanced env s' log' b in
    (b, e, omega (arith, w.files), omega (arith, w.queues))
