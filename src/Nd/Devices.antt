-- ===== src/Nd/Devices.antt =====
-- nd/detail/nd_device_impl.hpp, nd/detail/impl/nd_device_impl.ipp and nd/nd_device.hpp: the discovery of
-- adapters behind one provider. What NetworkDirect and Windows answer is the parameter `Provider`, the
-- order of `std::ranges::sort` a parameter of it.
pub mod Discovery
use rdma_on_asio.Base.{
  ℕ, Bool, true, false, not, ◌&&◌, Option, none, some, List, [], ◌∷◌, map, if◌then◌else◌, ◌==◌, ltb,
  is_some, ◌||◌,
}
use rdma_on_asio.Base.Int.{ℤ, pos, negsuc, is_nonzero, is_negative}
use rdma_on_asio.Error.{
  ErrorCode, system, rdma, nd, std, cleared, is_error, invalid_handle, address_not_available,
  invalid_argument, not_enough_memory,
}
use rdma_on_asio.Config.{Config}
use rdma_on_asio.Devices.{Family, inet, inet6, other, Address, is_inet}
use rdma_on_asio.Nd.Adapter.{AdapterInfo, is_valid_adapter}
use rdma_on_asio.Nd.Ranges.{filter, filter_map, chunk_by}

-- `SOCKET_ADDRESS`: the length is an `INT`.
pub record SocketAddress : Type 0 where
  pub length : ℤ
  pub family : Family
  pub address : ℕ

-- `nd2_sockaddr_t`
pub record NdSockaddr : Type 0 where
  pub family : Family
  pub address : ℕ
  pub address_size : ℕ

-- What `QueryAddressList` answers: the size first, whether the buffer is allocated, then the result, the
-- count and the entries of that count.
pub record AddressQuery : Type 0 where
  pub buffer_size : ℕ
  pub allocated : Bool
  pub hr : ℤ
  pub count : ℤ
  pub entries : List SocketAddress

-- The calls behind a display name, each with its result and the error after it; `sized` also with the
-- length.
pub record NameQuery : Type 0 where
  pub sized : ℤ × ℤ × ℕ
  pub written : ℤ × ℤ
  pub counted : ℤ × ℤ
  pub converted : ℤ × ℤ

-- `nd_adapter_t` without its name.
pub record NdDevice : Type 0 where
  pub adapter : ℕ
  pub sync_handle : ℕ
  pub adapter_id : ℕ
  pub v4_address : Option Address
  pub v6_address : Option Address
  pub info : AdapterInfo

-- `resolved_nd_address`
pub record ResolvedNdAddress : Type 0 where
  pub adapter_id : ℕ
  pub address : NdSockaddr

-- `QueryAddressList`, `ResolveAddress` and `OpenAdapter` of the provider; `Query`,
-- `CreateOverlappedFile` (its result, whether the handle can be closed, the handle) and
-- `QueryAddressList` of an adapter; the order that the sort by adapter id gives.
pub record Provider : Type 0 where
  pub addresses : AddressQuery
  pub resolve : NdSockaddr → ℤ × ℕ
  pub open_adapter : ℕ → ℤ × ℕ
  pub query : ℕ → ℤ × AdapterInfo
  pub name : NdSockaddr → NameQuery
  pub create_overlapped_file : ℕ → ℤ × Bool × ℕ
  pub adapter_addresses : ℕ → AddressQuery
  pub sorted_by_id : List ResolvedNdAddress → List ResolvedNdAddress

unfoldable pub create_overlapped_file_checked : ℤ × Bool × ℕ → Option ℕ × ErrorCode
create_overlapped_file_checked (hr, closable, handle) =
    if is_negative hr
    then (none, nd hr)
    else if not closable
    then (none, rdma invalid_handle)
    else (some handle, cleared)

unfoldable pub is_supported_addr_family : NdSockaddr → Bool
is_supported_addr_family a = elim a.family [ inet ↦ true | inet6 ↦ true | other ↦ false ]

-- `endpoint.capacity()`: the size of the larger address structure.
abbrev pub capacity : ℕ
capacity = 28

unfoldable pub to_ip_address : NdSockaddr → Option Address
unfolding is_supported_addr_family
to_ip_address a =
    if not (is_supported_addr_family a)
    then none
    else if ltb capacity a.address_size
    then none
    else some (record { is_v4 = is_inet a.family; value = a.address })

-- `sizeof(result.src_storage_)`
abbrev pub storage_size : ℕ
storage_size = 128

-- One entry copied, all zero where it is too long; a negative length converts to a huge one.
unfoldable pub copy_entry : SocketAddress → NdSockaddr
copy_entry s = elim s.length [
  | pos n ↦
      if ltb storage_size n
      then record { family = other; address = 0; address_size = 0 }
      else record { family = s.family; address = s.address; address_size = n }
  | negsuc n ↦ record { family = other; address = 0; address_size = 0 }
]

unfoldable pub copy_socket_address_list : List SocketAddress → List NdSockaddr
unfolding copy_entry filter
copy_socket_address_list entries = filter (λ a. not (a.address_size == 0)) (map copy_entry entries)

abbrev pub is_positive : ℤ → Bool
is_positive (pos n) = is_nonzero (pos n)
is_positive (negsuc n) = false

-- `enumerate_addr_list` and `query_adapter_addr_list`, which differ in the interface asked.
unfoldable pub query_addr_list : AddressQuery → List NdSockaddr × ErrorCode
unfolding copy_socket_address_list
query_addr_list q =
    if q.buffer_size == 0
    then ([], std address_not_available)
    else if not q.allocated
    then ([], std not_enough_memory)
    else if is_nonzero q.hr
    then ([], nd q.hr)
    else if not (is_positive q.count)
    then ([], std address_not_available)
    else (copy_socket_address_list q.entries, cleared)

-- `SOCKET_ERROR`, with `WSAEFAULT` as the error.
abbrev pub is_too_short : ℤ → ℤ → Bool
is_too_short (negsuc n) (pos e) = n == 0 && e == 10014
is_too_short (negsuc n) (negsuc e) = false
is_too_short (pos n) e = false

-- The code of `query_adapter_name`, whose branch for MSVC this is, from the code before.
unfoldable pub query_adapter_name : NameQuery → ErrorCode → ErrorCode
query_adapter_name q ec =
    let (res, err, addrlen) = q.sized in
    let sized_ec = if is_nonzero res then system err else ec in
    let written_ec = if is_nonzero q.written.0 then system q.written.1 else cleared in
    if is_too_short res err && not (addrlen == 0)
    then (if is_error written_ec
        then written_ec
        else if not (is_nonzero q.counted.0)
        then system q.counted.1
        else if not (is_nonzero q.converted.0)
        then system q.converted.1
        else written_ec)
    else sized_ec

-- The first address of a family stays.
abbrev pub attach_address : NdDevice → Option Address → NdDevice
attach_address d none = d
attach_address d (some a) =
    if a.is_v4 && not (is_some d.v4_address)
    then record d { v4_address = some a }
    else if not a.is_v4 && not (is_some d.v6_address)
    then record d { v6_address = some a }
    else d

unfoldable pub attach_device_addresses : List NdSockaddr → NdDevice → NdDevice
unfolding to_ip_address is_supported_addr_family
attach_device_addresses [] d = d
attach_device_addresses (a ∷ rest) d =
    attach_device_addresses rest
      (if is_supported_addr_family a then attach_address d (to_ip_address a) else d)

unfoldable pub has_address : NdDevice → Bool
has_address d = is_some d.v4_address || is_some d.v6_address

module _ (provider : Provider) where
  unfoldable pub create_device : NdSockaddr → ℕ → Option NdDevice × ErrorCode
  unfolding query_adapter_name create_overlapped_file_checked
  create_device addr adapter_id =
      let (hr, adapter) = provider.open_adapter adapter_id in
      let (query_hr, info) = provider.query adapter in
      let name_ec = query_adapter_name (provider.name addr) cleared in
      let (handle, file_ec) =
        create_overlapped_file_checked (provider.create_overlapped_file adapter) in
      if is_nonzero hr
      then (none, nd hr)
      else if is_nonzero query_hr
      then (none, nd query_hr)
      else if is_error name_ec
      then (none, name_ec)
      else elim handle [
        | none ↦ (none, file_ec)
        | some sync_handle ↦ (
          some (record {
            adapter = adapter;
            sync_handle = sync_handle;
            adapter_id = adapter_id;
            v4_address = none;
            v6_address = none;
            info = info;
          }),
          file_ec,
        )
      ]

  -- The adapter's own addresses, or the provider's where it tells none.
  abbrev pub local_addresses : NdDevice → List NdSockaddr → List NdSockaddr
  unfolding query_addr_list
  local_addresses d provider_addresses =
      let (adapter_addresses, query_ec) = query_addr_list (provider.adapter_addresses d.adapter) in
      if is_error query_ec
      then provider_addresses
      else elim adapter_addresses [ [] ↦ provider_addresses | a ∷ rest ↦ a ∷ rest ]

  -- The device with its addresses, where it has one.
  unfoldable pub attached : List NdSockaddr → NdDevice → Option NdDevice × ErrorCode
  unfolding attach_device_addresses has_address
  attached provider_addresses d =
      let d' = attach_device_addresses (local_addresses d provider_addresses) d in
      if has_address d' then (some d', cleared) else (none, std address_not_available)

  -- Behind the test of `create_device`.
  unfoldable pub finish_open :
      List NdSockaddr → Option NdDevice × ErrorCode → Option NdDevice × ErrorCode
  unfolding attached
  finish_open provider_addresses (none, ec) = (none, ec)
  finish_open provider_addresses (some d, ec) =
      if is_error ec then (none, ec) else attached provider_addresses d

  unfoldable pub open_device : ℕ → List NdSockaddr → Option NdDevice × ErrorCode
  unfolding create_device finish_open
  open_device adapter_id [] = (none, std invalid_argument)
  open_device adapter_id (a ∷ rest) = finish_open (a ∷ rest) (create_device a adapter_id)

  -- An address with the adapter that it resolves to.
  abbrev pub resolved : NdSockaddr → Option ResolvedNdAddress
  resolved a =
      let (hr, id) = provider.resolve a in
      if is_nonzero hr then none else some (record { adapter_id = id; address = a })

  -- A chunk, which is not empty, opened under the id of its front.
  abbrev pub open_chunk : List ResolvedNdAddress → Option NdDevice
  unfolding open_device
  open_chunk [] = none
  open_chunk (r ∷ rs) = (open_device r.adapter_id (map (λ i. i.address) (r ∷ rs))).0

  unfoldable pub discover_provider_devices : List NdDevice
  unfolding query_addr_list filter filter_map chunk_by
  discover_provider_devices =
      let (addr_list, ec) = query_addr_list provider.addresses in
      if is_error ec
      then []
      else filter_map open_chunk (
          chunk_by (λ a b. a.adapter_id == b.adapter_id)
            (provider.sorted_by_id
              (filter_map resolved (filter is_supported_addr_family addr_list))))

-- `get_first_available_device`, over the devices of each provider in turn.
unfoldable pub first_of : Config → List NdDevice → Option NdDevice
first_of config [] = none
first_of config (d ∷ ds) =
    if is_valid_adapter (some d.info) config then some d else first_of config ds

unfoldable pub get_first_available_device : Config → List (List NdDevice) → Option NdDevice
unfolding first_of
get_first_available_device config [] = none
get_first_available_device config (ds ∷ dss) = elim (first_of config ds) [
  | none ↦ get_first_available_device config dss
  | some d ↦ some d
]
