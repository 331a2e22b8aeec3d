-- ===== src/Devices/Served.antt =====
-- The loop of ibv/detail/impl/ibv_device_impl.ipp over the interfaces: none is missed.
use rdma_on_asio.Base.{
  ℕ, ◌≡◌, ◌⊎◌, inl, inr, refl, ap, sym, ◌∙◌, Bool, true, false, Option, none, some, List, [], ◌∷◌,
  ◌≢◌, arith, All, All-mono, ==_iff, some_inj, Option-cases, Bool-cases,
}
use rdma_on_asio.Base.Int.{is_nonzero}
use rdma_on_asio.Devices.{
  Family, inet, inet6, other, sockaddr_size, Sockaddr, Address, Interface, Device, System,
  to_ip_address, is_candidate_local_address, attach_to, keep_addressable, create_device,
  bindable_context_for, attach_interface, attach_interfaces, create_devices,
}
use rdma_on_asio.Devices.Interfaces.{
  Passed, Served, Unbound, NotIn, Passed-mono, Served-mono, has_context, has_family,
  attach_to-context, attach_to-new, attach_to-kept, keep_addressable-family,
}

Family-cases : (f : Family) → (f ≡ inet) ⊎ (f ≡ inet6) ⊎ (f ≡ other)
Family-cases inet = inl refl
Family-cases inet6 = inr (inl refl)
Family-cases other = inr (inr refl)

module _ (sys : System) where
  -- A turn of the loop attaches one address, or does nothing.
  attach_interface-cases :
      (i : Interface) (ds : List Device)
      → (attach_interface sys i ds ≡ ds)
        ⊎ ((x : ℕ) × (a : Address) × (attach_interface sys i ds ≡ attach_to x a ds))
  unfolding attach_interface
  attach_interface-cases i ds = elim (Bool-cases (is_candidate_local_address i)) [
    | inr e ↦ inl (ground (arith, e))
    | inl e ↦ elim (Option-cases i.addr) [
      | inl n ↦ inl (ground (arith, e, n))
      | inr (s, n) ↦ elim (Option-cases (to_ip_address (some s))) [
        | inl m ↦ inl (ground (arith, e, n, m))
        | inr (a, m) ↦ elim (Option-cases (bindable_context_for sys s)) [
          | inl k ↦ inl (ground (arith, e, n, m, k))
          | inr (x, k) ↦ inr (x, a, ground (arith, e, n, m, k))
        ]
      ]
    ]
  ]

  attach_interface-context :
      (c : ℕ) (i : Interface) (ds : List Device)
      → has_context c (attach_interface sys i ds) ≡ has_context c ds
  attach_interface-context c i ds = elim (attach_interface-cases i ds) [
    | inl e ↦ ap (has_context c) e
    | inr (x, a, e) ↦ ap (has_context c) e ∙ attach_to-context c x a ds
  ]

  attach_interface-kept :
      (c : ℕ) (v4 : Bool) (i : Interface) (ds : List Device)
      → has_family c v4 ds ≡ true
      → has_family c v4 (attach_interface sys i ds) ≡ true
  attach_interface-kept c v4 i ds h = elim (attach_interface-cases i ds) [
    | inl e ↦ ap (has_family c v4) e ∙ h
    | inr (x, a, e) ↦ ap (has_family c v4) e ∙ attach_to-kept c x v4 a ds h
  ]

  -- An interface that is up, is not the loopback and binds to a device that is there.
  attach_interface-new :
      (i : Interface) (s : Sockaddr) (c : ℕ) (ds : List Device)
      → i.is_up ≡ true
      → i.is_loopback ≡ false
      → i.addr ≡ some s
      → is_nonzero (sys.create_id s) ≡ false
      → is_nonzero (sys.bind_addr s) ≡ false
      → sys.verbs s ≡ some c
      → has_context c ds ≡ true
      → (s.family ≡ other)
        ⊎ ((s.family ≡ inet) × (has_family c true (attach_interface sys i ds) ≡ true))
        ⊎ ((s.family ≡ inet6) × (has_family c false (attach_interface sys i ds) ≡ true))
  unfolding attach_interface is_candidate_local_address to_ip_address bindable_context_for
      sockaddr_size
  attach_interface-new i s c ds u l n m b v h = elim (Family-cases s.family) [
    | inl f ↦ inr (
        inl (
          f,
          ground (
            arith,
            u,
            l,
            n,
            m,
            b,
            v,
            f,
            attach_to-new c (record { is_v4 = true; value = s.address }) ds h,
          ),
        ))
    | inr (inl f) ↦ inr (
        inr (
          f,
          ground (
            arith,
            u,
            l,
            n,
            m,
            b,
            v,
            f,
            attach_to-new c (record { is_v4 = false; value = s.address }) ds h,
          ),
        ))
    | inr (inr f) ↦ inl f
  ]

  attach_interface-Served :
      (i : Interface) (ds : List Device)
      → Passed sys (NotIn ds) i ⊎ Served sys (attach_interface sys i ds) i
  attach_interface-Served i ds = elim (Bool-cases i.is_up) [
    | inr u ↦ inl (inr (inl u))
    | inl u ↦ elim (Bool-cases i.is_loopback) [
      | inl l ↦ inl (inr (inr (inl l)))
      | inr l ↦ elim (Option-cases i.addr) [
        | inl n ↦ inl (inl n)
        | inr (s, n) ↦ elim (bound s) [
          | inl p ↦ inl (inr (inr (inr (s, n, p))))
          | inr (c, m, b, v, h) ↦ elim (attach_interface-new i s c ds u l n m b v h) [
            | inl f ↦ inl (inr (inr (inr (s, n, inl f))))
            | inr f ↦ inr (s, c, n, v, f)
          ]
        ]
      ]
    ]
  ]
    where
      bound :
          (s : Sockaddr)
          → Unbound sys (NotIn ds) s
            ⊎ ((c : ℕ) × (is_nonzero (sys.create_id s) ≡ false)
                × (is_nonzero (sys.bind_addr s) ≡ false)
                × (sys.verbs s ≡ some c)
                × (has_context c ds ≡ true))
      bound s = elim (Bool-cases (is_nonzero (sys.create_id s))) [
        | inl m ↦ inl (inr (inl m))
        | inr m ↦ elim (Bool-cases (is_nonzero (sys.bind_addr s))) [
          | inl b ↦ inl (inr (inr (inl b)))
          | inr b ↦ elim (Option-cases (sys.verbs s)) [
            | inl v ↦ inl (inr (inr (inr (inl v))))
            | inr (c, v) ↦ elim (Bool-cases (has_context c ds)) [
              | inl h ↦ inr (c, m, b, v, h)
              | inr h ↦ inl (inr (inr (inr (inr (c, v, h)))))
            ]
          ]
        ]
      ]

  attach_interfaces-kept :
      (c : ℕ) (v4 : Bool) (is : List Interface) (ds : List Device)
      → has_family c v4 ds ≡ true
      → has_family c v4 (attach_interfaces sys is ds) ≡ true
  unfolding attach_interfaces
  attach_interfaces-kept c v4 [] ds h = h
  attach_interfaces-kept c v4 (i ∷ is) ds h =
      attach_interfaces-kept c v4 is _ (attach_interface-kept c v4 i ds h)

  attach_interfaces-Served :
      (is : List Interface) (ds : List Device)
      → All (λ i. Passed sys (NotIn ds) i ⊎ Served sys (attach_interfaces sys is ds) i) is
  unfolding attach_interfaces
  attach_interfaces-Served [] ds = tt
  attach_interfaces-Served (i ∷ is) ds = (
    elim (attach_interface-Served i ds) [
      | inl p ↦ inl p
      | inr h ↦ inr (
          Served-mono sys _ _ i (λ c v4. attach_interfaces-kept c v4 is (attach_interface sys i ds))
            h)
    ],
    All-mono
        (λ x h. elim h [
          | inl p ↦ inl (Passed-mono sys _ _ x (λ c e. sym (attach_interface-context c i ds) ∙ e) p)
          | inr r ↦ inr r
        ])
        is (attach_interfaces-Served is (attach_interface sys i ds)),
  )

  -- No device can be made of the context, or it is not listed.
  abbrev pub Unmade : List (Option ℕ) → ℕ → Type 0
  Unmade cs c =
      All (λ o. (o ≢ some c) ⊎ (sys.alloc_pd c ≡ none) ⊎ (is_nonzero (sys.query_device c).0 ≡ true))
        cs

  create_devices-Unmade :
      (cs : List (Option ℕ)) (c : ℕ) → NotIn (create_devices sys cs) c → Unmade cs c
  unfolding create_devices create_device
  create_devices-Unmade [] c h = tt
  create_devices-Unmade (none ∷ cs) c h =
      (inl (λ e. absurd (ground (arith, e))), create_devices-Unmade cs c h)
  create_devices-Unmade (some x ∷ cs) c h = (
    elim (Option-cases (sys.alloc_pd c)) [
      | inl a ↦ inr (inl a)
      | inr (pd, a) ↦ elim (Bool-cases (is_nonzero (sys.query_device c).0)) [
        | inl q ↦ inr (inr q)
        | inr q ↦ inl (λ e. made (some_inj e) pd a q)
      ]
    ],
    create_devices-Unmade cs c (ground (arith, h)),
  )
    where
      made :
          x ≡ c
          → (pd : ℕ) → sys.alloc_pd c ≡ some pd
          → is_nonzero (sys.query_device c).0 ≡ false
          → ⊥
      made e pd a q = ground (arith, e, h, a, q, (==_iff x c).1 e)

  -- Each interface gives no address, or the device that it binds to has an address of its family.
  abbrev pub Settled : List (Option ℕ) → List Device → List Interface → Type 0
  Settled cs ds is = All (λ i. Passed sys (Unmade cs) i ⊎ Served sys ds i) is

  pub keep_addressable-Settled :
      (cs : List (Option ℕ)) (is : List Interface)
      → Settled cs (keep_addressable (attach_interfaces sys is (create_devices sys cs))) is
  keep_addressable-Settled cs is =
      All-mono
        (λ i h. elim h [
          | inl p ↦ inl (Passed-mono sys _ _ i (create_devices-Unmade cs) p)
          | inr r ↦ inr (Served-mono sys _ _ i (λ c v4. keep_addressable-family c v4 _) r)
        ])
        is (attach_interfaces-Served is (create_devices sys cs))
