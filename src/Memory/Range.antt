-- ===== src/Memory/Range.antt =====
-- The range tests of detail/mr_range.hpp decide inclusion, and nothing in them wraps.
use rdma_on_asio.Base.{ℕ, ◌+◌, ◌≤◌, ◌<◌, ◌≡◌, ◌↔◌, true, some, arith}
use rdma_on_asio.Memory.{word_max, mr_contains_offset, mr_offset_of}

-- The test holds exactly of the ranges that end within the region.
mr_contains_offset_iff :
    (region_length offset length : ℕ)
    → (mr_contains_offset region_length offset length ≡ true) ↔ (offset + length ≤ region_length)
unfolding mr_contains_offset
mr_contains_offset_iff r o l = ground arith

-- An address range lies in a region: both are real pointers, the region does not wrap, and the range
-- starts and ends within it, at the offset `k`.
pub record LiesAt (base region_length address length k : ℕ) : Type 0 where
  pub has_base : 0 < base
  pub has_address : 0 < address
  pub no_wrap : base + region_length ≤ word_max
  pub at_offset : address ≡ base + k
  pub ends_within : k + length ≤ region_length

-- `mr_offset_of` finds the offset of an address range exactly when the range lies in the region.
mr_offset_of_iff :
    (base region_length address length k : ℕ)
    → base ≤ word_max
    → address ≤ word_max
    → (mr_offset_of base region_length address length ≡ some k)
      ↔ LiesAt base region_length address length k
unfolding mr_offset_of mr_contains_offset
mr_offset_of_iff b r a l k hb ha = (λ h. ground arith, λ h. ground arith)
