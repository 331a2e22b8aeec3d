-- ===== src/Sglist/Built.antt =====
-- What ibv/ibv_buffer.hpp builds: all of a sequence that the limits admit, and the verdict on the rest.
use rdma_on_asio.Base.{
  ℕ, ◌+◌, ◌≤◌, ◌≡◌, refl, ap₂, ◌∙◌, ◌⊎◌, ◌↔◌, Bool, true, false, ◌&&◌, List, [], ◌∷◌, map, arith,
  length, ◌==◌,
}
use rdma_on_asio.Memory.{Buffer}
use rdma_on_asio.Sglist.{Sglist, inline_sge_count, to_list, append, clear}
use rdma_on_asio.Sglist.Storage.{blank, as_blank}
use rdma_on_asio.Sglist.Append.{append_all, to_list-append_all}
use rdma_on_asio.Sglist.Builder.{
  Sge, zero_sge, fill_native_sge, Built, initial_built, max_operation, finish, count_buffer,
  build_loop, build_native_sglist,
}

abbrev pub total_length : List Buffer → ℕ
total_length [] = 0
total_length (x ∷ xs) = x.length + total_length xs

abbrev pub all_zero : List Buffer → Bool
all_zero [] = true
all_zero (x ∷ xs) = x.length == 0 && all_zero xs

-- The sequence respects both limits, `c` entries and `t` bytes being used already. A limit of 0
-- entries is none.
abbrev pub FitsFrom : ℕ → ℕ → ℕ → List Buffer → Type 0
FitsFrom max_sge c t bs =
    ((max_sge ≡ 0) ⊎ (c + length bs ≤ max_sge)) × (t + total_length bs ≤ max_operation)

abbrev pub Fits : ℕ → List Buffer → Type 0
Fits max_sge bs = FitsFrom max_sge 0 0 bs

-- The counters after a sequence that fits.
abbrev counted : Built → List Buffer → Built
counted b bs = record b {
  count = b.count + length bs;
  total_bytes = b.total_bytes + total_length bs;
  all_empty = b.all_empty && all_zero bs;
}

and_true : (b : Bool) → (b && true) ≡ b
and_true b = ground arith

and_assoc : (a b c : Bool) → (a && b && c) ≡ (a && (b && c))
and_assoc a b c = ground arith

build_loop-fits :
    (m : ℕ) (bs : List Buffer) (s : Sglist Sge) (b : Built)
    → FitsFrom m b.count b.total_bytes bs
    → build_loop m bs s b ≡ finish (counted b bs) (append_all zero_sge s (map fill_native_sge bs))
unfolding build_loop append_all
build_loop-fits m [] s b h = ground (arith, and_true b.all_empty)
build_loop-fits m (x ∷ xs) s b h = ground (
  arith,
  build_loop-fits m xs (append zero_sge s (fill_native_sge x)) (count_buffer b x),
  and_assoc b.all_empty (x.length == 0) (all_zero xs),
)

-- No verdict against the sequence.
abbrev pub IsAccepted : Built → Type 0
IsAccepted b = (b.too_many_sge ≡ false) × (b.buffer_too_large ≡ false)

build_loop_sound :
    (m : ℕ) (bs : List Buffer) (s : Sglist Sge) (b : Built)
    → (m ≡ 0) ⊎ (b.count ≤ m)
    → b.total_bytes ≤ max_operation
    → IsAccepted (build_loop m bs s b).0
    → FitsFrom m b.count b.total_bytes bs
unfolding build_loop
build_loop_sound m [] s b hc ht h = ground arith
build_loop_sound m (x ∷ xs) s b hc ht h =
    ground (arith, build_loop_sound m xs (append zero_sge s (fill_native_sge x)) (count_buffer b x))

-- The builder accepts exactly the sequences within both limits, whatever the list held.
pub build_native_sglist-IsAccepted_iff :
    (bs : List Buffer) (s : Sglist Sge) (max_sge : ℕ)
    → IsAccepted (build_native_sglist bs s max_sge).0 ↔ Fits max_sge bs
unfolding build_native_sglist
build_native_sglist-IsAccepted_iff bs s m = (
  build_loop_sound m bs (clear s) initial_built (ground arith) (omega arith),
  λ h. rw (build_loop-fits m bs (clear s) initial_built h) (refl, refl),
)

-- The native entry of a buffer, its length as it is.
abbrev pub exact_sge : Buffer → Sge
exact_sge b = record { addr = b.addr; length = b.length; lkey = b.lkey }

fill-exact :
    (bs : List Buffer) → total_length bs ≤ max_operation → map fill_native_sge bs ≡ map exact_sge bs
fill-exact [] h = refl
fill-exact (x ∷ xs) h = ap₂ ◌∷◌ (ground arith) (fill-exact xs (omega arith))

-- On a list that holds no heap block, a sequence within the limits is built whole: one entry for each
-- buffer, in order, with its address, its untruncated length and its key; the count, the bytes and the
-- emptiness are those of the sequence; the pointer passed on is the list's.
pub build_native_sglist-Fits :
    (bs : List Buffer) (i : List Sge) (max_sge : ℕ)
    → length i ≡ inline_sge_count
    → Fits max_sge bs
    → let (b, t) = build_native_sglist bs (blank i) max_sge in
      (to_list t ≡ map exact_sge bs)
      × (b.data_ptr ≡ t.data_ptr)
      × (b.count ≡ length bs)
      × (b.total_bytes ≡ total_length bs)
      × (b.all_empty ≡ all_zero bs)
unfolding build_native_sglist clear
build_native_sglist-Fits bs i m p h = rw (build_loop-fits m bs (blank i) initial_built h) (
  to_list-append_all zero_sge (blank i) (map fill_native_sge bs) (as_blank i p refl)
      ∙ fill-exact bs (omega arith),
  refl,
  omega arith,
  omega arith,
  refl,
)
