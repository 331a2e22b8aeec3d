-- ===== src/Memory.antt =====
-- detail/mr_range.hpp, rdma_buffer.hpp (the elements and `buffer()`), ibv/ibv_mr.hpp: registered
-- regions, ranges in them and the buffers that name such ranges. A pointer is its address, null is 0.
pub mod Range
pub mod Slices
use rdma_on_asio.Base.{
  ℕ, ◌+◌, ◌-◌, ◌^◌, ◌%◌, Bool, true, false, ◌&&◌, ◌||◌, Option, none, some, is_some, if◌then◌else◌,
  ◌==◌, ltb, leb,
}
use rdma_on_asio.Error.{RdmaErrc, invalid_handle, invalid_device, ErrorCode, rdma, is_error}

-- `std::numeric_limits<std::uintptr_t>::max()`, and of `std::size_t`, on the 64-bit targets.
abbrev pub word_max : ℕ
word_max = 18446744073709551615

unfoldable pub mr_contains_offset : ℕ → ℕ → ℕ → Bool
mr_contains_offset region_length offset length =
    leb offset region_length && leb length (region_length - offset)

unfoldable pub mr_offset_of : ℕ → ℕ → ℕ → ℕ → Option ℕ
mr_offset_of region_base region_length address length =
    if region_base == 0 || address == 0
    then none
    else if ltb (word_max - region_base) region_length || ltb address region_base
    then none
    else let integer_offset = address - region_base in
      if ltb word_max integer_offset
      then none
      else if mr_contains_offset region_length integer_offset length
      then some integer_offset
      else none

-- `const_buffer` and `mutable_buffer` carry the same three fields.
pub record Buffer : Type 0 where
  pub addr : ℕ
  pub length : ℕ
  pub lkey : ℕ

-- `mutable_buffer{}`
abbrev pub empty_buffer : Buffer
empty_buffer = record { addr = 0; length = 0; lkey = 0 }

pub record RemoteAddr : Type 0 where
  pub addr : ℕ
  pub token : ℕ

-- What `ibv_reg_mr` returned: the keys of the registration.
pub record NativeMr : Type 0 where
  pub lkey : ℕ
  pub rkey : ℕ

-- `ibv_memory_region`; `mr` is null once the region has been moved from.
pub record MemoryRegion : Type 0 where
  pub mr : Option NativeMr
  pub addr : ℕ
  pub length : ℕ

-- `mr_access_flag_t`
pub data AccessFlag : Type 0 where
  mr_access_local_write mr_access_remote_read mr_access_remote_write : AccessFlag

-- The access word of a registration: the bits that the library sets, and those of `extra_flag`.
pub record Access : Type 0 where
  pub local_write : Bool
  pub remote_read : Bool
  pub remote_write : Bool
  pub extra : ℕ

-- The `switch (flag)` of `reg_mr`.
unfoldable pub to_access : AccessFlag → ℕ → Access
to_access mr_access_local_write extra = record {
  local_write = true;
  remote_read = false;
  remote_write = false;
  extra = extra;
}
to_access mr_access_remote_read extra = record {
  local_write = true;
  remote_read = true;
  remote_write = false;
  extra = extra;
}
to_access mr_access_remote_write extra = record {
  local_write = true;
  remote_read = true;
  remote_write = true;
  extra = extra;
}

-- A call that may throw.
pub data Result {ℓ} (A : Type ℓ) : Type ℓ where
  returns : A → Result A
  throws : ErrorCode → Result A

abbrev pub map_result {ℓ κ} : {A : Type ℓ} {B : Type κ} → (A → B) → Result A → Result B
map_result f (returns a) = returns (f a)
map_result f (throws e) = throws e

unfoldable pub local_key : MemoryRegion → Result ℕ
local_key m = elim m.mr [ none ↦ throws (rdma invalid_handle) | some n ↦ returns n.lkey ]

unfoldable pub remote_key : MemoryRegion → Result ℕ
remote_key m = elim m.mr [ none ↦ throws (rdma invalid_handle) | some n ↦ returns n.rkey ]

-- `is_in_mr(void const*, std::size_t)`
unfoldable pub is_address_in_mr : MemoryRegion → ℕ → ℕ → Bool
is_address_in_mr m address length =
    is_some m.mr && is_some (mr_offset_of m.addr m.length address length)

-- `is_in_mr(std::size_t, std::size_t)`
unfoldable pub is_in_mr : MemoryRegion → ℕ → ℕ → Bool
is_in_mr m offset length = is_some m.mr && mr_contains_offset m.length offset length

-- `buffer(mr)`
unfoldable pub buffer : MemoryRegion → Result Buffer
buffer m = map_result (λ k. record { addr = m.addr; length = m.length; lkey = k }) (local_key m)

-- `buffer(mr, offset, n)`, which `slice` and `cslice` return. A pointer wraps at 2^64.
unfoldable pub slice : MemoryRegion → ℕ → ℕ → Result Buffer
slice m offset n =
    if is_in_mr m offset n
    then map_result (λ k. record { addr = (m.addr + offset) % 2 ^ 64; length = n; lkey = k })
        (local_key m)
    else returns empty_buffer

-- `slice(void*, std::size_t)`, which cuts the buffer that starts at an address.
unfoldable pub slice_address : MemoryRegion → ℕ → ℕ → Result Buffer
slice_address m address n = elim (mr_offset_of m.addr m.length address n) [
  | none ↦ returns empty_buffer
  | some offset ↦ slice m offset n
]

unfoldable pub remote_addr : MemoryRegion → ℕ → ℕ → Result RemoteAddr
remote_addr m offset length =
    if is_in_mr m offset length
    then map_result (λ k. record { addr = (m.addr + offset) % 2 ^ 64; token = k }) (remote_key m)
    else returns (record { addr = 0; token = 0 })
