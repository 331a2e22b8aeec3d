-- ===== src/Devices/Registration/Registered.antt =====
-- ibv/impl/ibv_use_device.ipp and ibv/impl/ibv_queue_pair.ipp: what a registration leaves.
use rdma_on_asio.Base.{
  ℕ, ◌≡◌, ◌⊎◌, inl, inr, if◌then◌else◌, refl, sym, ◌∙◌, subst, if_elim, some_inj, not, Bool, true,
  false, Option, none, some, arith, is_some,
}
use mathlib.Core.Bool.{true≢false}
use rdma_on_asio.Connector.{get}
use rdma_on_asio.Base.Int.{is_nonzero}
use rdma_on_asio.Error.{ErrorCode, is_error}
use rdma_on_asio.Config.{Config, derive_effective_config, is_config_compatible}
use rdma_on_asio.Config.Laws.{
  FitsDevice, is_config_compatible_iff, derive_effective_config-compatible,
}
use rdma_on_asio.Cm.{to_pointer}
use rdma_on_asio.Devices.{Device}
use rdma_on_asio.Devices.Registration.{
  VerbsEnv, VerbsLog, VerbsCall, Services, create_comp_channel, create_cq, initialize, use_device,
  register_device, ibv_create_cq,
}

-- A failing creation sets `errno`.
abbrev pub SetsErrno : VerbsEnv → Type 0
SetsErrno env =
    (log : VerbsLog) (c : VerbsCall)
    → to_pointer (env log c).value ≡ none
    → is_nonzero (env log c).errno ≡ true

-- A registered device has the queue of its io_context, and its operating configuration is within its
-- limits.
pub record IsRegistered (s : Services) : Type 0 where
  pub device_fits : (d : Device) → s.device ≡ some d → FitsDevice s.effective_config d.attr
  pub has_device : s.registered ≡ true → is_some s.device ≡ true
  pub has_cq : s.registered ≡ true → is_some s.cq ≡ true

-- What `initialize` leaves alone.
initialize-device :
    (env : VerbsEnv) (d : Device) (cqe batch : ℕ) (s : Services) (log : VerbsLog)
    → let s' = (initialize env d cqe batch s log).0.0 in
      (s'.device ≡ s.device)
      × (s'.registered ≡ s.registered)
      × (s'.effective_config ≡ s.effective_config)
unfolding initialize
initialize-device env d cqe batch s log = ground arith

pub create_cq-some :
    (env : VerbsEnv) (context cqe channel : ℕ) (log : VerbsLog)
    → SetsErrno env
    → is_error (create_cq env context cqe channel log).0.1 ≡ false
    → is_some (create_cq env context cqe channel log).0.0 ≡ true
unfolding create_cq
create_cq-some env context cqe channel log h e =
    ground (arith, h log (ibv_create_cq context cqe channel))

initialize-cq :
    (env : VerbsEnv) (d : Device) (cqe batch : ℕ) (s : Services) (log : VerbsLog)
    → SetsErrno env
    → is_error (initialize env d cqe batch s log).0.1 ≡ false
    → is_some (initialize env d cqe batch s log).0.0.cq ≡ true
unfolding initialize
initialize-cq env d cqe batch s log h e =
    let made = create_comp_channel env d.context log in
    ground (arith, create_cq-some env d.context cqe (get made.0.0) made.1 h)

unregistered-IsRegistered :
    (s s' : Services)
    → s'.device ≡ s.device
    → s'.registered ≡ s.registered
    → s'.effective_config ≡ s.effective_config
    → s.registered ≡ false
    → IsRegistered s
    → IsRegistered s'
unregistered-IsRegistered s s' d r c u h = record {
  device_fits = λ x e. subst (λ k. FitsDevice k x.attr) (sym c) (h.device_fits x (sym d ∙ e));
  has_device = λ t. absurd (true≢false (sym t ∙ (r ∙ u)));
  has_cq = λ t. absurd (true≢false (sym t ∙ (r ∙ u)));
}

failed-IsRegistered :
    (env : VerbsEnv) (d : Device) (cqe batch : ℕ) (s : Services) (log : VerbsLog)
    → s.registered ≡ false
    → IsRegistered s
    → IsRegistered (initialize env d cqe batch s log).0.0
failed-IsRegistered env d cqe batch s log u w =
    let kept = initialize-device env d cqe batch s log in
    unregistered-IsRegistered s _ kept.0 kept.1 kept.2 u w

register_device-IsRegistered :
    (env : VerbsEnv) (d : Device) (config : Config) (s : Services) (log : VerbsLog)
    → SetsErrno env
    → not (is_config_compatible config d.attr) ≡ false
    → let effective = derive_effective_config config d.attr in
      is_error (initialize env d effective.cqe effective.cq_poll_batch s log).0.1 ≡ false
      → IsRegistered (
          register_device d effective
            (initialize env d effective.cqe effective.cq_poll_batch s log).0.0)
unfolding register_device
register_device-IsRegistered env d config s log h fits ok = record {
  device_fits = λ x e.
      subst (λ y. FitsDevice (derive_effective_config config d.attr) y.attr) (some_inj e)
        ((is_config_compatible_iff (derive_effective_config config d.attr) d.attr).0
          (derive_effective_config-compatible config d.attr (not_false _ fits)));
  has_device = λ t. refl;
  has_cq = λ t. initialize-cq env d _ _ s log h ok;
}
  where
    not_false : (b : Bool) → not b ≡ false → b ≡ true
    not_false b e = ground arith

-- The device, its configuration, which is the one derived from the caller's, and the queue.
pub record Holds (d : Device) (config : Config) (s : Services) : Type 0 where
  pub device : s.device ≡ some d
  pub registered : s.registered ≡ true
  pub derived : s.effective_config ≡ derive_effective_config config d.attr
  pub fits : FitsDevice s.effective_config d.attr
  pub has_cq : is_some s.cq ≡ true

-- How use_device ends: with an error, the registration as it was and no queue kept; or the services were
-- free, the configuration asked for is within the device's limits, and the device is registered.
abbrev pub Ends : Option Device → Config → Services → Services → ErrorCode → Type 0
Ends none config s s' ec = (is_error ec ≡ true) × (s' ≡ s)
Ends (some d) config s s' ec =
    ((is_error ec ≡ true)
      × (s'.device ≡ s.device)
      × (s'.registered ≡ s.registered)
      × (s'.effective_config ≡ s.effective_config)
      × (is_some s'.cq ≡ is_some s.cq))
    ⊎ ((is_error ec ≡ false)
        × (s.registered ≡ false)
        × FitsDevice config d.attr
        × Holds d config s')

-- A failing initialisation leaves the queue as it was.
initialize-failed :
    (env : VerbsEnv) (d : Device) (cqe batch : ℕ) (s : Services) (log : VerbsLog)
    → is_error (initialize env d cqe batch s log).0.1 ≡ true
    → is_some (initialize env d cqe batch s log).0.0.cq ≡ is_some s.cq
unfolding initialize create_cq
initialize-failed env d cqe batch s log e = ground (arith, e)

-- What holds of the services after a call, and how it ended.
abbrev Outcome : Device → Config → Services → (Services × ErrorCode) × VerbsLog → Type 0
Outcome d config s r = IsRegistered r.0.0 × Ends (some d) config s r.0.0 r.0.1

made-Outcome :
    (env : VerbsEnv) (d : Device) (config : Config) (s : Services) (log : VerbsLog)
    → SetsErrno env
    → IsRegistered s
    → s.registered ≡ false
    → not (is_config_compatible config d.attr) ≡ false
    → let eff = derive_effective_config config d.attr in
      let (made, log') = initialize env d eff.cqe eff.cq_poll_batch s log in
      Outcome d config s
        (if is_error made.1 then (made, log') else ((register_device d eff made.0, made.1), log'))
unfolding register_device
made-Outcome env d config s log h w u fits =
    let eff = derive_effective_config config d.attr in
    let (made, log') = initialize env d eff.cqe eff.cq_poll_batch s log in
    let kept = initialize-device env d eff.cqe eff.cq_poll_batch s log in
    if_elim {A = (Services × ErrorCode) × VerbsLog} (Outcome d config s) (is_error made.1)
      (made, log') ((register_device d eff made.0, made.1), log')
      (λ e. (
        failed-IsRegistered env d eff.cqe eff.cq_poll_batch s log u w,
        inl (e, kept.0, kept.1, kept.2, initialize-failed env d eff.cqe eff.cq_poll_batch s log e),
      ))
      (λ ok.
        let r = register_device-IsRegistered env d config s log h fits ok in
        (
          r,
          inr (
            ok,
            u,
            (is_config_compatible_iff config d.attr).0 (ground (arith, fits)),
            record {
              device = refl;
              registered = refl;
              derived = refl;
              fits = r.device_fits d refl;
              has_cq = r.has_cq refl;
            },
          ),
        ))

-- use_device keeps the services well-formed on every path, errors included: a device that is registered
-- has the queue, and its operating configuration is within its limits. It ends with an error, the
-- registration as it was and no queue kept; or the services were free and the caller's configuration is
-- within the device's limits, and they then hold the device, the queue and the configuration derived from
-- the caller's. Of the verbs library this takes that a failing creation sets errno.
pub use_device-IsRegistered :
    (env : VerbsEnv) (device : Option Device) (config : Config) (s : Services) (log : VerbsLog)
    → SetsErrno env
    → IsRegistered s
    → let ((s', ec), log') = use_device env device config s log in
      IsRegistered s' × Ends device config s s' ec
unfolding use_device
use_device-IsRegistered env none config s log h w =
    if_elim {A = (Services × ErrorCode) × VerbsLog}
      (λ r. IsRegistered r.0.0 × Ends none config s r.0.0 r.0.1) s.registered _ _
      (λ e. (w, (refl, refl))) (λ e. (w, (refl, refl)))
use_device-IsRegistered env (some d) config s log h w =
    if_elim {A = (Services × ErrorCode) × VerbsLog} (Outcome d config s) s.registered _ _
      (λ e. (w, inl (refl, refl, refl, refl, refl)))
      (λ u.
        if_elim {A = (Services × ErrorCode) × VerbsLog} (Outcome d config s)
          (not (is_config_compatible config d.attr)) _ _
          (λ e. (w, inl (refl, refl, refl, refl, refl)))
          (λ fits. made-Outcome env d config s log h w u fits))
