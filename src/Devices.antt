-- ===== src/Devices.antt =====
-- ibv/detail/ibv_device_impl.hpp, ibv/detail/impl/ibv_device_impl.ipp, ibv/ibv_device.hpp and
-- ibv/impl/ibv_device.ipp: the discovery of devices and their local addresses. What the system, the verbs
-- library and rdma_cm answer is the parameter `System`.
pub mod Discovery
pub mod Interfaces
pub mod Served
pub mod Registration
pub mod Regions
pub mod PollQueue
use rdma_on_asio.Base.{
  ℕ, Bool, true, false, not, ◌&&◌, ◌||◌, Option, none, some, List, [], ◌∷◌, if◌then◌else◌, ◌==◌,
  is_some,
}
use rdma_on_asio.Base.Int.{ℤ, is_nonzero}
use rdma_on_asio.Error.{
  ErrorCode, system, rdma, cleared, is_error, invalid_device, no_available_device,
  address_family_not_supported,
}
use rdma_on_asio.Config.{Config, DeviceAttr, is_config_compatible}

-- `sa_family`: the two that are told apart, and the others.
pub data Family : Type 0 where
  inet inet6 other : Family

-- `sockaddr`; the address is a number.
pub record Sockaddr : Type 0 where
  pub family : Family
  pub address : ℕ

-- `asio::ip::address`
pub record Address : Type 0 where
  pub is_v4 : Bool
  pub value : ℕ

-- `ifaddrs`: the address, null or not, and the flags `IFF_UP` and `IFF_LOOPBACK`.
pub record Interface : Type 0 where
  pub addr : Option Sockaddr
  pub is_up : Bool
  pub is_loopback : Bool

-- `ibv_device_t`; contexts and protection domains are numbers.
pub record Device : Type 0 where
  pub context : ℕ
  pub pd : ℕ
  pub attr : DeviceAttr
  pub v4_address : Option Address
  pub v6_address : Option Address

-- `ibv_alloc_pd` (null on failure), `ibv_query_device` (its return value and the attributes) and their
-- `errno`; `rdma_get_devices` (null, or its contexts); `getifaddrs`; the return values of
-- `rdma_create_id` and `rdma_bind_addr` for an address, and `id->verbs` after them.
pub record System : Type 0 where
  pub alloc_pd : ℕ → Option ℕ
  pub query_device : ℕ → ℤ × DeviceAttr
  pub errno : ℕ → ℤ
  pub contexts : Option (List (Option ℕ))
  pub getifaddrs : ℤ × ℤ × List Interface
  pub create_id : Sockaddr → ℤ
  pub bind_addr : Sockaddr → ℤ
  pub verbs : Sockaddr → Option ℕ

-- `sizeof(sockaddr_in)` and `sizeof(sockaddr_in6)`.
unfoldable pub sockaddr_size : Option Sockaddr → ℕ
sockaddr_size none = 0
sockaddr_size (some s) = elim s.family [ inet ↦ 16 | inet6 ↦ 28 | other ↦ 0 ]

abbrev pub is_inet : Family → Bool
is_inet inet = true
is_inet inet6 = false
is_inet other = false

unfoldable pub to_ip_address : Option Sockaddr → Option Address
unfolding sockaddr_size
to_ip_address none = none
to_ip_address (some s) =
    if sockaddr_size (some s) == 0
    then none
    else some (record { is_v4 = is_inet s.family; value = s.address })

unfoldable pub is_candidate_local_address : Interface → Bool
unfolding sockaddr_size
is_candidate_local_address i =
    if not (is_some i.addr)
    then false
    else if not i.is_up || i.is_loopback
    then false
    else not (sockaddr_size i.addr == 0)

-- The first address of a family stays.
unfoldable pub attach_device_address : Device → Address → Device
attach_device_address d a =
    if a.is_v4
    then (if not (is_some d.v4_address) then record d { v4_address = some a } else d)
    else if not (is_some d.v6_address)
    then record d { v6_address = some a }
    else d

unfoldable pub has_local_address : Device → Bool
has_local_address d = is_some d.v4_address || is_some d.v6_address

-- The loop over the devices, up to its `break`.
unfoldable pub attach_to : ℕ → Address → List Device → List Device
unfolding attach_device_address
attach_to context a [] = []
attach_to context a (d ∷ ds) =
    if d.context == context then attach_device_address d a ∷ ds else d ∷ attach_to context a ds

unfoldable pub keep_addressable : List Device → List Device
unfolding has_local_address
keep_addressable [] = []
keep_addressable (d ∷ ds) =
    if has_local_address d then d ∷ keep_addressable ds else keep_addressable ds

module _ (sys : System) where
  -- A null context, or what the device is made of.
  unfoldable pub create_device : Option ℕ → Option Device × ErrorCode
  create_device none = (none, rdma invalid_device)
  create_device (some context) = elim (sys.alloc_pd context) [
    | none ↦ (none, system (sys.errno context))
    | some pd ↦
        if is_nonzero (sys.query_device context).0 then (none, system (sys.errno context)) else (
          some (record {
            context = context;
            pd = pd;
            attr = (sys.query_device context).1;
            v4_address = none;
            v6_address = none;
          }),
          cleared,
        )
  ]

  -- Null where the address binds to no device.
  unfoldable pub bindable_context_for : Sockaddr → Option ℕ
  bindable_context_for s =
      if is_nonzero (sys.create_id s)
      then none
      else if is_nonzero (sys.bind_addr s)
      then none
      else sys.verbs s

  -- One turn of the loop over the interfaces.
  unfoldable pub attach_interface : Interface → List Device → List Device
  unfolding attach_to
  attach_interface i ds = if not (is_candidate_local_address i) then ds else elim i.addr [
    | none ↦ ds
    | some s ↦ elim (to_ip_address (some s)) [
      | none ↦ ds
      | some a ↦ elim (bindable_context_for s) [ none ↦ ds | some context ↦ attach_to context a ds ]
    ]
  ]

  unfoldable pub attach_interfaces : List Interface → List Device → List Device
  unfolding attach_interface
  attach_interfaces [] ds = ds
  attach_interfaces (i ∷ is) ds = attach_interfaces is (attach_interface i ds)

  unfoldable pub attach_local_addresses : List Device → List Device × ErrorCode
  unfolding attach_interfaces
  attach_local_addresses ds =
      let (rc, errno, interfaces) = sys.getifaddrs in
      if is_nonzero rc && is_error (system errno)
      then (ds, system errno)
      else (attach_interfaces interfaces ds, cleared)

  -- A device that cannot be made is left out.
  unfoldable pub create_devices : List (Option ℕ) → List Device
  unfolding create_device
  create_devices [] = []
  create_devices (c ∷ cs) = elim (create_device c).0 [
    | none ↦ create_devices cs
    | some d ↦ d ∷ create_devices cs
  ]

  -- The code is `no_available_device` where the list is empty.
  abbrev pub found : List Device → List Device × ErrorCode
  found [] = ([], rdma no_available_device)
  found (d ∷ ds) = (d ∷ ds, cleared)

  -- By the contexts of `rdma_get_devices`.
  unfoldable pub discover : Option (List (Option ℕ)) → List Device × ErrorCode
  unfolding create_devices attach_local_addresses keep_addressable
  discover none = ([], rdma no_available_device)
  discover (some []) = ([], rdma no_available_device)
  discover (some (c ∷ cs)) =
      let (ds, ec) = attach_local_addresses (create_devices (c ∷ cs)) in
      if is_error ec then ([], ec) else found (keep_addressable ds)

  unfoldable pub get_devices : List Device × ErrorCode
  unfolding discover
  get_devices = discover sys.contexts

-- The first device that the configuration fits; a device's context is never null here.
unfoldable pub get_first_available_device : Config → List Device → Option Device
get_first_available_device config [] = none
get_first_available_device config (d ∷ ds) =
    if is_config_compatible config d.attr then some d else get_first_available_device config ds

-- `get_v4_address` and `get_v6_address`, which throw where there is none.
unfoldable pub address_of : Device → Bool → Option Address × ErrorCode
address_of d is_v4 = elim (if is_v4 then d.v4_address else d.v6_address) [
  | none ↦ (none, rdma address_family_not_supported)
  | some a ↦ (some a, cleared)
]
