-- ===== src/Tests/Memory.antt =====
-- The theorems on lists, memory and configuration, on concrete regions and devices.
use rdma_on_asio.Base.{
  ℕ, ◌+◌, ◌-◌, ◌≤◌, ◌≡◌, ◌⊎◌, refl, some, List, [], ◌∷◌, ◌++◌, arith, take, replicate,
}
use rdma_on_asio.Memory.{
  MemoryRegion, slice, slice_address, remote_addr, remote_key, returns, empty_buffer,
}
use rdma_on_asio.Memory.Slices.{OutOfAddresses, Returns, Names, OutOfRange, slice-remote_addr}
use rdma_on_asio.Sglist.{to_list, clear}
use rdma_on_asio.Sglist.Storage.{spilled}
use rdma_on_asio.Sglist.Append.{append_all}
use rdma_on_asio.Sglist.Reuse.{append_all-clear_stale}

abbrev nine : List ℕ
nine = 1 ∷ 2 ∷ 3 ∷ 4 ∷ 5 ∷ 6 ∷ 7 ∷ 8 ∷ 9 ∷ []

append_all-clear_stale_example :
    to_list (append_all 0 (clear (spilled (replicate 8 0) (replicate 16 7) 16 9)) nine)
    ≡ take 8 (replicate 16 7) ++ 9 ∷ []
append_all-clear_stale_example =
    append_all-clear_stale 0 (replicate 8 0) (replicate 16 7) 16 9
      (1 ∷ 2 ∷ 3 ∷ 4 ∷ 5 ∷ 6 ∷ 7 ∷ 8 ∷ []) 9 refl refl (omega arith)

abbrev region : MemoryRegion
region = record { mr = some (record { lkey = 1; rkey = 2 }); addr = 4096; length = 100 }

slice-remote_addr_example :
    Returns
      (λ b. Names region 10 20 b ⊎ (OutOfRange region 10 20 × (b ≡ empty_buffer)))
      (slice region 10 20)
    × Returns
        (λ b.
          ((b.addr ≡ 4106) × Names region (4106 - 4096) 20 b)
          ⊎ (OutOfAddresses region 4106 20 × (b ≡ empty_buffer)))
        (slice_address region 4106 20)
    × Returns
        (λ r.
          (r.addr ≡ 4096 + 10) × (10 + 20 ≤ 100) × (remote_key region ≡ returns r.token)
          ⊎ (OutOfRange region 10 20 × (r.addr ≡ 0) × (r.token ≡ 0)))
        (remote_addr region 10 20)
slice-remote_addr_example = slice-remote_addr region 10 20 4106 (omega arith)
