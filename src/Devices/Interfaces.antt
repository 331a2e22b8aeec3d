-- ===== src/Devices/Interfaces.antt =====
-- The loops of ibv/detail/impl/ibv_device_impl.ipp: what attaching an address does to a list of devices, and
-- what an interface may lead to.
use rdma_on_asio.Base.{
  ℕ, ◌≡◌, ◌⊎◌, inl, inr, refl, Bool, true, false, Option, none, some, List, [], ◌∷◌, arith, ◌==◌,
  ◌&&◌, ◌||◌, is_some, if◌then◌else◌,
}
use rdma_on_asio.Base.Int.{is_nonzero}
use rdma_on_asio.Devices.{
  inet, inet6, other, Sockaddr, Address, Interface, Device, System, attach_device_address,
  has_local_address, attach_to, keep_addressable,
}

abbrev pub address_in : Bool → Device → Option Address
address_in v4 d = if v4 then d.v4_address else d.v6_address

-- Whether a device of the context is there, and one that has an address of the family.
abbrev pub has_context : ℕ → List Device → Bool
has_context c [] = false
has_context c (d ∷ ds) = (d.context == c) || has_context c ds

abbrev pub has_family : ℕ → Bool → List Device → Bool
has_family c v4 [] = false
has_family c v4 (d ∷ ds) = (d.context == c && is_some (address_in v4 d)) || has_family c v4 ds

pub attach_to-context :
    (c x : ℕ) (a : Address) (ds : List Device) → has_context c (attach_to x a ds) ≡ has_context c ds
unfolding attach_to attach_device_address
attach_to-context c x a [] = refl
attach_to-context c x a (d ∷ ds) = ground (arith, attach_to-context c x a ds)

pub attach_to-new :
    (c : ℕ) (a : Address) (ds : List Device)
    → has_context c ds ≡ true
    → has_family c a.is_v4 (attach_to c a ds) ≡ true
unfolding attach_to attach_device_address
attach_to-new c a [] h = h
attach_to-new c a (d ∷ ds) h = ground (arith, h, attach_to-new c a ds)

pub attach_to-kept :
    (c x : ℕ) (v4 : Bool) (a : Address) (ds : List Device)
    → has_family c v4 ds ≡ true
    → has_family c v4 (attach_to x a ds) ≡ true
unfolding attach_to attach_device_address
attach_to-kept c x v4 a [] h = h
attach_to-kept c x v4 a (d ∷ ds) h = ground (arith, h, attach_to-kept c x v4 a ds)

pub keep_addressable-family :
    (c : ℕ) (v4 : Bool) (ds : List Device)
    → has_family c v4 ds ≡ true
    → has_family c v4 (keep_addressable ds) ≡ true
unfolding keep_addressable has_local_address
keep_addressable-family c v4 [] h = h
keep_addressable-family c v4 (d ∷ ds) h = ground (arith, h, keep_addressable-family c v4 ds)

-- An address that is of another family, or binds to no device but one that is absent.
abbrev pub Unbound : System → (ℕ → Type 0) → Sockaddr → Type 0
Unbound sys Absent s =
    (s.family ≡ other)
    ⊎ (is_nonzero (sys.create_id s) ≡ true)
    ⊎ (is_nonzero (sys.bind_addr s) ≡ true)
    ⊎ (sys.verbs s ≡ none)
    ⊎ ((c : ℕ) × (sys.verbs s ≡ some c) × Absent c)

-- An interface that gives no address: it has none or one that binds to no device, is down, or is the
-- loopback.
abbrev pub Passed : System → (ℕ → Type 0) → Interface → Type 0
Passed sys Absent i =
    (i.addr ≡ none)
    ⊎ (i.is_up ≡ false)
    ⊎ (i.is_loopback ≡ true)
    ⊎ ((s : Sockaddr) × (i.addr ≡ some s) × Unbound sys Absent s)

pub Passed-mono :
    (sys : System) (P Q : ℕ → Type 0) (i : Interface)
    → ((c : ℕ) → P c → Q c)
    → Passed sys P i
    → Passed sys Q i
Passed-mono sys P Q i f (inl h) = inl h
Passed-mono sys P Q i f (inr (inl h)) = inr (inl h)
Passed-mono sys P Q i f (inr (inr (inl h))) = inr (inr (inl h))
Passed-mono sys P Q i f (inr (inr (inr (s, n, inl h)))) = inr (inr (inr (s, n, inl h)))
Passed-mono sys P Q i f (inr (inr (inr (s, n, inr (inl h))))) = inr (inr (inr (s, n, inr (inl h))))
Passed-mono sys P Q i f (inr (inr (inr (s, n, inr (inr (inl h)))))) =
    inr (inr (inr (s, n, inr (inr (inl h)))))
Passed-mono sys P Q i f (inr (inr (inr (s, n, inr (inr (inr (inl h))))))) =
    inr (inr (inr (s, n, inr (inr (inr (inl h))))))
Passed-mono sys P Q i f (inr (inr (inr (s, n, inr (inr (inr (inr (c, v, h)))))))) =
    inr (inr (inr (s, n, inr (inr (inr (inr (c, v, f c h)))))))

-- No device of the context is in the list.
abbrev pub NotIn : List Device → ℕ → Type 0
NotIn ds c = has_context c ds ≡ false

-- The device that its address binds to has an address of its family.
abbrev pub Served : System → List Device → Interface → Type 0
Served sys ds i =
    (s : Sockaddr) × (c : ℕ) × (i.addr ≡ some s)
    × (sys.verbs s ≡ some c)
    × (((s.family ≡ inet) × (has_family c true ds ≡ true))
        ⊎ ((s.family ≡ inet6) × (has_family c false ds ≡ true)))

pub Served-mono :
    (sys : System) (ds ds' : List Device) (i : Interface)
    → ((c : ℕ) (v4 : Bool) → has_family c v4 ds ≡ true → has_family c v4 ds' ≡ true)
    → Served sys ds i
    → Served sys ds' i
Served-mono sys ds ds' i f (s, c, n, v, inl (e, h)) = (s, c, n, v, inl (e, f c true h))
Served-mono sys ds ds' i f (s, c, n, v, inr (e, h)) = (s, c, n, v, inr (e, f c false h))
