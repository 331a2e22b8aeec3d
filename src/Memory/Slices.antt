-- ===== src/Memory/Slices.antt =====
-- Buffers and remote addresses cut from a region stay inside it.
use rdma_on_asio.Base.{ℕ, ◌+◌, ◌-◌, ◌≤◌, ◌<◌, ◌≡◌, ◌⊎◌, true, none, arith, is_some}
use rdma_on_asio.Memory.{
  word_max, mr_contains_offset, Buffer, empty_buffer, MemoryRegion, Result, returns, throws,
  local_key, remote_key, is_in_mr, is_address_in_mr, mr_offset_of, slice, slice_address,
  remote_addr,
}

-- A region that `ibv_reg_mr` accepted: it does not wrap round the address space.
abbrev pub IsMapped : MemoryRegion → Type 0
IsMapped m = m.addr + m.length ≤ word_max

-- The call returns, and its value satisfies `P`.
abbrev pub Returns {ℓ} : {A : Type ℓ} → (A → Type 0) → Result A → Type 0
Returns P (returns a) = P a
Returns P (throws e) = ⊥

-- A buffer that names `n` bytes at an offset of a live region.
pub record Names (m : MemoryRegion) (offset n : ℕ) (b : Buffer) : Type 0 where
  pub is_live : is_some m.mr ≡ true
  pub at_offset : b.addr ≡ m.addr + offset
  pub whole : b.length ≡ n
  pub within : b.addr + b.length ≤ m.addr + m.length
  pub keyed : local_key m ≡ returns b.lkey

-- The range leaves the region, or the region was moved from.
abbrev pub OutOfRange : MemoryRegion → ℕ → ℕ → Type 0
OutOfRange m offset n = (m.mr ≡ none) ⊎ (m.length < offset + n)

-- An address range that is not in the region: it starts before it or ends behind it, or the region is null
-- or was moved from.
abbrev pub OutOfAddresses : MemoryRegion → ℕ → ℕ → Type 0
OutOfAddresses m address n =
    (m.mr ≡ none) ⊎ (m.addr ≡ 0) ⊎ (address < m.addr) ⊎ (m.addr + m.length < address + n)

slice_lem :
    (m : MemoryRegion) (offset n : ℕ)
    → IsMapped m
    → Returns
        (λ b. Names m offset n b ⊎ (OutOfRange m offset n × (b ≡ empty_buffer)))
        (slice m offset n)
unfolding slice is_in_mr mr_contains_offset local_key
slice_lem m offset n h = ground arith

remote_addr_lem :
    (m : MemoryRegion) (offset n : ℕ)
    → IsMapped m
    → Returns
        (λ r.
          (r.addr ≡ m.addr + offset) × (offset + n ≤ m.length) × (remote_key m ≡ returns r.token)
          ⊎ (OutOfRange m offset n × (r.addr ≡ 0) × (r.token ≡ 0)))
        (remote_addr m offset n)
unfolding remote_addr is_in_mr mr_contains_offset remote_key
remote_addr_lem m offset n h = ground arith

slice_address_lem :
    (m : MemoryRegion) (address n : ℕ)
    → IsMapped m
    → Returns
        (λ b.
          ((b.addr ≡ address) × Names m (address - m.addr) n b)
          ⊎ (OutOfAddresses m address n × (b ≡ empty_buffer)))
        (slice_address m address n)
unfolding slice_address slice is_in_mr is_address_in_mr mr_offset_of mr_contains_offset local_key
slice_address_lem m address n h = ground arith

-- `slice`, the slice at an address and `remote_addr` of a mapped region never throw: they name the range
-- asked for, inside the region and under its local and its remote key, or are empty and null where the
-- range leaves the region or the region is moved from; the slice at an address is empty also where the
-- region starts at the null address.
pub slice-remote_addr :
    (m : MemoryRegion) (offset n address : ℕ)
    → IsMapped m
    → Returns
        (λ b. Names m offset n b ⊎ (OutOfRange m offset n × (b ≡ empty_buffer)))
        (slice m offset n)
      × Returns
          (λ b.
            ((b.addr ≡ address) × Names m (address - m.addr) n b)
            ⊎ (OutOfAddresses m address n × (b ≡ empty_buffer)))
          (slice_address m address n)
      × Returns
          (λ r.
            (r.addr ≡ m.addr + offset) × (offset + n ≤ m.length) × (remote_key m ≡ returns r.token)
            ⊎ (OutOfRange m offset n × (r.addr ≡ 0) × (r.token ≡ 0)))
          (remote_addr m offset n)
slice-remote_addr m offset n address h =
    (slice_lem m offset n h, slice_address_lem m address n h, remote_addr_lem m offset n h)
