-- ===== src/Devices/Discovery.antt =====
-- ibv/detail/impl/ibv_device_impl.ipp and ibv/ibv_device.hpp: what discovery and selection return.
use mathlib.Core.List.Memᴰ.{head, tail}
use mathlib.Core.List.{Memᴰ, nil≢cons}
use rdma_on_asio.Base.{
  ℕ, ◌≡◌, ◌⊎◌, inl, inr, refl, sym, ◌∙◌, ap, subst, true, false, Option, none, some, List, [], ◌∷◌,
  ◌++◌, ◌≢◌, arith, All, All-mono, ◌==◌, ==_iff, if_elim, not, ◌&&◌, is_some, Option-cases,
  some_inj,
}
use rdma_on_asio.Error.{ErrorCode, cleared, is_error, system}
use rdma_on_asio.Base.Int.{is_nonzero}
use rdma_on_asio.Config.{Config, is_config_compatible}
use rdma_on_asio.Devices.Served.{Settled, keep_addressable-Settled}
use rdma_on_asio.Devices.{
  inet, inet6, sockaddr_size, Sockaddr, Address, Interface, Device, System, to_ip_address,
  is_candidate_local_address, attach_device_address, has_local_address, attach_to, keep_addressable,
  create_device, bindable_context_for, attach_interface, attach_interfaces, attach_local_addresses,
  create_devices, found, discover, get_devices, get_first_available_device,
}

-- Every entry of a list is in it.
Memᴰ_self {ℓ} : {A : Type ℓ} (xs : List A) → All (λ x. Memᴰ x xs) xs
Memᴰ_self [] = tt
Memᴰ_self (x ∷ xs) = (head refl, All-mono (λ y m. tail m) xs (Memᴰ_self xs))

-- A new device has no address.
create_device-bare :
    (sys : System) (c : Option ℕ) (d : Device)
    → (create_device sys c).0 ≡ some d
    → (d.v4_address ≡ none) × (d.v6_address ≡ none)
unfolding create_device
create_device-bare sys c d e = ground arith

-- The IPv4 or IPv6 address of a socket address.
abbrev pub IsAt : Sockaddr → Address → Type 0
IsAt s a =
    (((s.family ≡ inet) × (a.is_v4 ≡ true)) ⊎ ((s.family ≡ inet6) × (a.is_v4 ≡ false)))
    × (a.value ≡ s.address)

-- An id for the address is made, it is bound, and its context is this one.
abbrev pub BindsTo : System → Sockaddr → ℕ → Type 0
BindsTo sys s context =
    (is_nonzero (sys.create_id s) ≡ false)
    × (is_nonzero (sys.bind_addr s) ≡ false)
    × (sys.verbs s ≡ some context)

to_ip_address-IsAt : (s : Sockaddr) (a : Address) → to_ip_address (some s) ≡ some a → IsAt s a
unfolding to_ip_address sockaddr_size
to_ip_address-IsAt s a e = ground (arith, e)

bindable_context_for-BindsTo :
    (sys : System) (s : Sockaddr) (context : ℕ)
    → bindable_context_for sys s ≡ some context
    → BindsTo sys s context
unfolding bindable_context_for
bindable_context_for-BindsTo sys s context e = ground (arith, e)

-- A candidate is up and not the loopback.
is_candidate_local_address-up :
    (i : Interface)
    → not (is_candidate_local_address i) ≡ false
    → (i.is_up ≡ true) × (i.is_loopback ≡ false)
unfolding is_candidate_local_address
is_candidate_local_address-up i h = ground (arith, h)

module _ (sys : System) (is : List Interface) where
  -- The address is that of an interface of the list which is up and not the loopback, and rdma_cm, which
  -- makes an id for it and binds it, names the context.
  abbrev pub ComesFrom : ℕ → Address → Type 0
  ComesFrom context a =
      (i : Interface) × Memᴰ i is
      × (i.is_up ≡ true)
      × (i.is_loopback ≡ false)
      × (s : Sockaddr) × (i.addr ≡ some s)
      × IsAt s a
      × BindsTo sys s context

  -- Each address of the device is of its family and comes from an interface that binds to the device.
  pub record Sourced (d : Device) : Type 0 where
    pub v4_source : (a : Address) → d.v4_address ≡ some a → (a.is_v4 ≡ true) × ComesFrom d.context a
    pub v6_source :
        (a : Address) → d.v6_address ≡ some a → (a.is_v4 ≡ false) × ComesFrom d.context a

  attach_device_address-context :
      (d : Device) (a : Address) → (attach_device_address d a).context ≡ d.context
  unfolding attach_device_address
  attach_device_address-context d a = ground arith

  attach_device_address-Sourced :
      (d : Device) (a : Address)
      → Sourced d
      → ComesFrom d.context a
      → Sourced (attach_device_address d a)
  unfolding attach_device_address
  attach_device_address-Sourced d a h f =
      if_elim Sourced a.is_v4 _ _
        (λ is_v4.
          if_elim Sourced (not (is_some d.v4_address)) _ _
            (λ free. record {
              v4_source = λ b e. (
                ap (λ x. x.is_v4) (sym (some_inj e)) ∙ is_v4,
                subst (ComesFrom d.context) (some_inj e) f,
              );
              v6_source = h.v6_source;
            })
            (λ taken. h))
        (λ is_v6.
          if_elim Sourced (not (is_some d.v6_address)) _ _
            (λ free. record {
              v4_source = h.v4_source;
              v6_source = λ b e. (
                ap (λ x. x.is_v4) (sym (some_inj e)) ∙ is_v6,
                subst (ComesFrom d.context) (some_inj e) f,
              );
            })
            (λ taken. h))

  attach_to-Sourced :
      (context : ℕ) (a : Address) (ds : List Device)
      → ComesFrom context a
      → All Sourced ds
      → All Sourced (attach_to context a ds)
  unfolding attach_to
  attach_to-Sourced context a [] f h = h
  attach_to-Sourced context a (d ∷ ds) f h =
      if_elim (All Sourced) (d.context == context) _ _
        (λ e. (
          attach_device_address-Sourced d a h.0
              (subst (λ c. ComesFrom c a) (sym ((==_iff d.context context).0 e)) f),
          h.1,
        ))
        (λ e. (h.0, attach_to-Sourced context a ds f h.1))

  attach_interface-Sourced :
      (i : Interface) (ds : List Device)
      → Memᴰ i is
      → All Sourced ds
      → All Sourced (attach_interface sys i ds)
  unfolding attach_interface
  attach_interface-Sourced i ds m h =
      if_elim (All Sourced) (not (is_candidate_local_address i)) _ _ (λ e. h)
        (λ c. elim (Option-cases i.addr) [
          | inl e ↦ rw e h
          | inr (s, e) ↦ elim (Option-cases (to_ip_address (some s))) [
            | inl e' ↦ rw (e, e') h
            | inr (a, e') ↦ elim (Option-cases (bindable_context_for sys s)) [
              | inl e'' ↦ rw (e, e', e'') h
              | inr (context, e'') ↦
                  rw (e, e', e'')
                    (attach_to-Sourced context a ds
                      (
                        i,
                        m,
                        (is_candidate_local_address-up i c).0,
                        (is_candidate_local_address-up i c).1,
                        s,
                        e,
                        to_ip_address-IsAt s a e',
                        bindable_context_for-BindsTo sys s context e'',
                      )
                      h)
            ]
          ]
        ])

  attach_interfaces-Sourced :
      (js : List Interface) (ds : List Device)
      → All (λ j. Memᴰ j is) js
      → All Sourced ds
      → All Sourced (attach_interfaces sys js ds)
  unfolding attach_interfaces
  attach_interfaces-Sourced [] ds m h = h
  attach_interfaces-Sourced (j ∷ js) ds m h =
      attach_interfaces-Sourced js (attach_interface sys j ds) m.1
        (attach_interface-Sourced j ds m.0 h)

  create_device-Sourced : (c : Option ℕ) (d : Device) → (create_device sys c).0 ≡ some d → Sourced d
  create_device-Sourced c d e = record {
    v4_source = λ a f. absurd (none_of d.v4_address a (create_device-bare sys c d e).0 f);
    v6_source = λ a f. absurd (none_of d.v6_address a (create_device-bare sys c d e).1 f);
  }
    where
      none_of : (o : Option Address) (a : Address) → o ≡ none → o ≡ some a → ⊥
      none_of o a h k = cc

  create_devices-Sourced : (cs : List (Option ℕ)) → All Sourced (create_devices sys cs)
  unfolding create_devices
  create_devices-Sourced [] = tt
  create_devices-Sourced (c ∷ cs) = elim (Option-cases (create_device sys c).0) [
    | inl e ↦ rw (create_devices, e) (create_devices-Sourced cs)
    | inr (d, e) ↦ rw (create_devices, e) (create_device-Sourced c d e, create_devices-Sourced cs)
  ]

-- What is kept of a list of devices: each has an address, and what held of all still holds.
keep_addressable-All :
    (P : Device → Type 0) (ds : List Device)
    → All P ds
    → All (λ d. P d × (has_local_address d ≡ true)) (keep_addressable ds)
unfolding keep_addressable
keep_addressable-All P [] h = tt
keep_addressable-All P (d ∷ ds) h =
    if_elim (All (λ d. P d × (has_local_address d ≡ true))) (has_local_address d) _ _
      (λ e. ((h.0, e), keep_addressable-All P ds h.1)) (λ e. keep_addressable-All P ds h.1)

attach_local_addresses-Sourced :
    (sys : System) (ds : List Device)
    → All (Sourced sys sys.getifaddrs.2) ds
    → All (Sourced sys sys.getifaddrs.2) (attach_local_addresses sys ds).0
unfolding attach_local_addresses
attach_local_addresses-Sourced sys ds h =
    if_elim {A = List Device × ErrorCode} (λ r. All (Sourced sys sys.getifaddrs.2) r.0)
      (is_nonzero sys.getifaddrs.0 && is_error (system sys.getifaddrs.1)) _ _ (λ e. h)
      (λ e.
        attach_interfaces-Sourced sys sys.getifaddrs.2 sys.getifaddrs.2 ds
          (Memᴰ_self sys.getifaddrs.2) h)

-- The result of a discovery: why there is none, or devices whose addresses are accounted for, and every
-- interface has led to an address or gives none.
abbrev pub Found : System → Option (List (Option ℕ)) → List Device × ErrorCode → Type 0
Found sys contexts (ds, ec) =
    ((is_error ec ≡ true)
      × (ds ≡ [])
      × ((contexts ≡ none)
          ⊎ (contexts ≡ some [])
          ⊎ (is_nonzero sys.getifaddrs.0 ≡ true)
          ⊎ ((cs : List (Option ℕ)) × (contexts ≡ some cs) × Settled sys cs [] sys.getifaddrs.2)))
    ⊎ ((ec ≡ cleared)
        × (ds ≢ [])
        × All (λ d. Sourced sys sys.getifaddrs.2 d × (has_local_address d ≡ true)) ds
        × ((cs : List (Option ℕ)) × (contexts ≡ some cs) × Settled sys cs ds sys.getifaddrs.2))

abbrev pub Discovered : System → List Device × ErrorCode → Type 0
Discovered sys r = Found sys sys.contexts r

found-Found :
    (sys : System) (cs : List (Option ℕ)) (ds : List Device)
    → All (λ d. Sourced sys sys.getifaddrs.2 d × (has_local_address d ≡ true)) ds
    → Settled sys cs ds sys.getifaddrs.2
    → Found sys (some cs) (found sys ds)
found-Found sys cs [] h t = inl (refl, refl, inr (inr (inr (cs, refl, t))))
found-Found sys cs (d ∷ ds) h t = inr (refl, (λ e. nil≢cons (sym e)), h, (cs, refl, t))

attached-Settled :
    (sys : System) (cs : List (Option ℕ))
    → is_error (attach_local_addresses sys (create_devices sys cs)).1 ≡ false
    → Settled sys cs
        (keep_addressable (attach_local_addresses sys (create_devices sys cs)).0)
        sys.getifaddrs.2
unfolding attach_local_addresses
attached-Settled sys cs e =
    let interfaces = sys.getifaddrs.2 in
    let attached : (attach_local_addresses sys (create_devices sys cs)).0
        ≡ attach_interfaces sys interfaces (create_devices sys cs) =
      ground (arith, e) in
    subst (λ ds. Settled sys cs (keep_addressable ds) interfaces) (sym attached)
      (keep_addressable-Settled sys cs interfaces)

refused_attach :
    (sys : System) (ds : List Device)
    → is_error (attach_local_addresses sys ds).1 ≡ true
    → is_nonzero sys.getifaddrs.0 ≡ true
unfolding attach_local_addresses
refused_attach sys ds e = ground (arith, e)

discover-Found :
    (sys : System) (contexts : Option (List (Option ℕ)))
    → Found sys contexts (discover sys contexts)
unfolding discover
discover-Found sys none = inl (refl, refl, inl refl)
discover-Found sys (some []) = inl (refl, refl, inr (inl refl))
discover-Found sys (some (c ∷ cs)) =
    if_elim {A = List Device × ErrorCode} (Found sys (some (c ∷ cs)))
      (is_error (attach_local_addresses sys (create_devices sys (c ∷ cs))).1) _ _
      (λ e. inl (e, refl, inr (inr (inl (refused_attach sys (create_devices sys (c ∷ cs)) e)))))
      (λ e.
        found-Found sys (c ∷ cs) _
          (keep_addressable-All _ _ (
            attach_local_addresses-Sourced sys _
              (create_devices-Sourced sys sys.getifaddrs.2 (c ∷ cs))))
          (attached-Settled sys (c ∷ cs) e))

-- Discovery returns either an error and no device, or no error and at least one device. The error has a
-- cause: no context is listed, getifaddrs fails, or no interface gives an address. Each device has a local
-- address, and each of its addresses is of the family it is listed under and comes from an interface that
-- is up, is not the loopback and binds to the device. And no interface is missed: it has no address of
-- either family, is down, is the loopback, or does not bind to a listed context of which a device can be
-- made; or the device that it binds to is returned with an address of its family.
pub get_devices-Discovered : (sys : System) → Discovered sys (get_devices sys)
unfolding get_devices
get_devices-Discovered sys = discover-Found sys sys.contexts

abbrev pub Unfit : Config → List Device → Type 0
Unfit config = All (λ d. is_config_compatible config d.attr ≡ false)

-- The first device of the list that the configuration fits, or that none does.
abbrev pub FirstFit : Config → List Device → Option Device → Type 0
FirstFit config ds none = Unfit config ds
FirstFit config ds (some d) =
    (before : List Device) × (after : List Device) × (ds ≡ before ++ d ∷ after)
    × (is_config_compatible config d.attr ≡ true)
    × Unfit config before

FirstFit-cons :
    (config : Config) (d : Device) (ds : List Device) (o : Option Device)
    → is_config_compatible config d.attr ≡ false
    → FirstFit config ds o
    → FirstFit config (d ∷ ds) o
FirstFit-cons config d ds none e h = (e, h)
FirstFit-cons config d ds (some x) e (before, after, eq, fit, unfit) =
    (d ∷ before, after, ap (◌∷◌ d) eq, fit, (e, unfit))

-- The device selected is the first that the configuration fits: those before it do not fit, and where
-- none is selected none fits.
pub get_first_available_device-FirstFit :
    (config : Config) (ds : List Device) → FirstFit config ds (get_first_available_device config ds)
unfolding get_first_available_device
get_first_available_device-FirstFit config [] = tt
get_first_available_device-FirstFit config (d ∷ ds) =
    if_elim (FirstFit config (d ∷ ds)) (is_config_compatible config d.attr) _ _
      (λ e. ([], ds, refl, e, tt))
      (λ e. FirstFit-cons config d ds _ e (get_first_available_device-FirstFit config ds))
