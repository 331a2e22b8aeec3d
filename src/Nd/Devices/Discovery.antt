-- ===== src/Nd/Devices/Discovery.antt =====
-- nd/detail/impl/nd_device_impl.ipp: the devices that discovery returns.
use mathlib.Core.Option.{some-ne-none}
use rdma_on_asio.Base.{
  ℕ, suc, ◌≤◌, ◌≡◌, refl, sym, ◌∙◌, ap, true, Option, none, some, List, [], ◌∷◌, arith, if_elim,
  inl, inr, Option-cases, map, subst, some_inj,
}
use rdma_on_asio.Error.{ErrorCode, is_error}
use rdma_on_asio.Devices.{Address}
use rdma_on_asio.Nd.Ranges.{filter_map}
use rdma_on_asio.Nd.Ranges.Laws.{Sorted, Grouped, IsChunk, chunk_by-Grouped}
use rdma_on_asio.Nd.Devices.{
  NdDevice, NdSockaddr, Provider, ResolvedNdAddress, attach_address, attach_device_addresses,
  has_address, create_device, local_addresses, open_device, attached, finish_open, open_chunk,
  discover_provider_devices, query_addr_list, is_supported_addr_family, to_ip_address,
}

-- Devices of increasing adapter ids, from a least id on, each with a local address.
abbrev pub Distinct : ℕ → List NdDevice → Type 0
Distinct k [] = Unit
Distinct k (d ∷ ds) = (k ≤ d.adapter_id) × (has_address d ≡ true) × Distinct (suc d.adapter_id) ds

attach_address-adapter_id :
    (d : NdDevice) (a : Option Address) → (attach_address d a).adapter_id ≡ d.adapter_id
attach_address-adapter_id d a = ground arith

attach_device_addresses-adapter_id :
    (addresses : List NdSockaddr) (d : NdDevice)
    → (attach_device_addresses addresses d).adapter_id ≡ d.adapter_id
unfolding attach_device_addresses
attach_device_addresses-adapter_id [] d = refl
attach_device_addresses-adapter_id (a ∷ rest) d =
    attach_device_addresses-adapter_id rest _
    ∙ if_elim {A = NdDevice} (λ x. x.adapter_id ≡ d.adapter_id) (is_supported_addr_family a) _ _
        (λ e. attach_address-adapter_id d (to_ip_address a)) (λ e. refl)

create_device-adapter_id :
    (p : Provider) (a : NdSockaddr) (id : ℕ) (d : NdDevice)
    → (create_device p a id).0 ≡ some d
    → d.adapter_id ≡ id
unfolding create_device
create_device-adapter_id p a id d h = ground arith

attached_lem :
    (p : Provider) (addresses : List NdSockaddr) (made d : NdDevice)
    → (attached p addresses made).0 ≡ some d
    → (d.adapter_id ≡ made.adapter_id) × (has_address d ≡ true)
unfolding attached
attached_lem p addresses made d =
    if_elim {A = Option NdDevice × ErrorCode}
      (λ r. r.0 ≡ some d → (d.adapter_id ≡ made.adapter_id) × (has_address d ≡ true))
      (has_address (attach_device_addresses (local_addresses p made addresses) made)) _ _
      (λ t e. (
        ap (λ x. x.adapter_id) (sym (some_inj e))
            ∙ attach_device_addresses-adapter_id (local_addresses p made addresses) made,
        subst (λ x. has_address x ≡ true) (some_inj e) t,
      ))
      (λ f e. absurd (some-ne-none d (sym e)))

finish_open_lem :
    (p : Provider) (id : ℕ) (addresses : List NdSockaddr) (r : Option NdDevice × ErrorCode)
    (d : NdDevice)
    → ((made : NdDevice) → r.0 ≡ some made → made.adapter_id ≡ id)
    → (finish_open p addresses r).0 ≡ some d
    → (d.adapter_id ≡ id) × (has_address d ≡ true)
unfolding finish_open
finish_open_lem p id addresses (none, ec) d h e = absurd (some-ne-none d (sym e))
finish_open_lem p id addresses (some made, ec) d h e =
    if_elim {A = Option NdDevice × ErrorCode}
      (λ r. r.0 ≡ some d → (d.adapter_id ≡ id) × (has_address d ≡ true)) (is_error ec) _ _
      (λ t e. absurd (some-ne-none d (sym e)))
      (λ f e. (
        (attached_lem p addresses made d e).0 ∙ h made refl,
        (attached_lem p addresses made d e).1,
      ))
      e

open_device_lem :
    (p : Provider) (id : ℕ) (addresses : List NdSockaddr) (d : NdDevice)
    → (open_device p id addresses).0 ≡ some d
    → (d.adapter_id ≡ id) × (has_address d ≡ true)
unfolding open_device
open_device_lem p id [] d e = absurd (some-ne-none d (sym e))
open_device_lem p id (a ∷ rest) d e =
    finish_open_lem p id (a ∷ rest) (create_device p a id) d (create_device-adapter_id p a id) e

Distinct-mono : (j k : ℕ) (ds : List NdDevice) → j ≤ k → Distinct k ds → Distinct j ds
Distinct-mono j k [] h g = tt
Distinct-mono j k (d ∷ ds) h g = (omega (arith, h, g.0), g.1, g.2)

open_chunk_lem :
    (p : Provider) (i : ℕ) (chunk : List ResolvedNdAddress) (d : NdDevice)
    → IsChunk (λ r. r.adapter_id) i chunk
    → open_chunk p chunk ≡ some d
    → (d.adapter_id ≡ i) × (has_address d ≡ true)
unfolding open_chunk
open_chunk_lem p i [] d c e = elim c [ ]
open_chunk_lem p i (r ∷ rs) d c e =
    let h = open_device_lem p r.adapter_id (map (λ x. x.address) (r ∷ rs)) d e in (h.0 ∙ c.0, h.1)

open_chunks-Distinct :
    (p : Provider) (k : ℕ) (chunks : List (List ResolvedNdAddress))
    → Grouped (λ r. r.adapter_id) k chunks
    → Distinct k (filter_map (open_chunk p) chunks)
unfolding filter_map
open_chunks-Distinct p k [] g = tt
open_chunks-Distinct p k (c ∷ cs) (i, h, chunk, g) = elim (Option-cases (open_chunk p c)) [
  | inl e ↦
      rw (filter_map, e)
        (Distinct-mono k (suc i) _ (omega (arith, h)) (open_chunks-Distinct p (suc i) cs g))
  | inr (d, e) ↦
      rw (filter_map, e)
        (
          omega (arith, h, (open_chunk_lem p i c d chunk e).0),
          (open_chunk_lem p i c d chunk e).1,
          subst (λ j. Distinct (suc j) (filter_map (open_chunk p) cs))
              (sym (open_chunk_lem p i c d chunk e).0) (open_chunks-Distinct p (suc i) cs g),
        )
]

-- Where the sort puts addresses in order of their adapter, no two devices that discovery returns are of
-- one adapter, and each device has a local address.
pub discover_provider_devices-Distinct :
    (p : Provider)
    → ((rs : List ResolvedNdAddress) → Sorted (λ r. r.adapter_id) 0 (p.sorted_by_id rs))
    → Distinct 0 (discover_provider_devices p)
unfolding discover_provider_devices
discover_provider_devices-Distinct p sorted =
    if_elim (Distinct 0) (is_error (query_addr_list p.addresses).1) _ _ (λ e. tt)
      (λ e. open_chunks-Distinct p 0 _ (chunk_by-Grouped (λ r. r.adapter_id) 0 _ (sorted _)))
