-- ===== src/Sglist/Builder.antt =====
-- small_sglist.hpp (`built_sglist`) and ibv/ibv_buffer.hpp: the native scatter/gather list of a buffer
-- sequence, with the limits on entries and bytes.
use rdma_on_asio.Base.{
  ℕ, ◌+◌, ◌-◌, ◌%◌, ◌^◌, Bool, true, false, not, ◌&&◌, ◌||◌, List, [], ◌∷◌, if◌then◌else◌, ◌==◌,
  ltb, leb,
}
use rdma_on_asio.Memory.{Buffer}
use rdma_on_asio.Sglist.{Sglist, DataPtr, null, append, clear, uses_heap}

-- `ibv_sge`
pub record Sge : Type 0 where
  pub addr : ℕ
  pub length : ℕ
  pub lkey : ℕ

abbrev pub zero_sge : Sge
zero_sge = record { addr = 0; length = 0; lkey = 0 }

-- `length` is cast to `std::uint32_t`.
abbrev pub fill_native_sge : Buffer → Sge
fill_native_sge b = record { addr = b.addr; length = b.length % 2 ^ 32; lkey = b.lkey }

pub record Built : Type 0 where
  pub data_ptr : DataPtr
  pub count : ℕ
  pub total_bytes : ℕ
  pub all_empty : Bool
  pub too_many_sge : Bool
  pub buffer_too_large : Bool
  pub heap_spilled : Bool

abbrev pub initial_built : Built
initial_built = record {
  data_ptr = null;
  count = 0;
  total_bytes = 0;
  all_empty = true;
  too_many_sge = false;
  buffer_too_large = false;
  heap_spilled = false;
}

-- `std::numeric_limits<std::uint32_t>::max()`: the limit of a segment and of an operation.
abbrev pub max_segment : ℕ
max_segment = 4294967295

abbrev pub max_operation : ℕ
max_operation = 4294967295

-- The three ways out of the loop set `data` and `heap_spilled` from the list.
abbrev pub finish : Built → Sglist Sge → Built × Sglist Sge
finish b s = (record b { data_ptr = s.data_ptr; heap_spilled = uses_heap s }, s)

-- The part of the loop's body behind the two checks.
abbrev pub count_buffer : Built → Buffer → Built
count_buffer b x = record b {
  count = b.count + 1;
  total_bytes = b.total_bytes + x.length;
  all_empty = b.all_empty && x.length == 0;
}

unfoldable pub build_loop : ℕ → List Buffer → Sglist Sge → Built → Built × Sglist Sge
build_loop max_sge [] s b = finish b s
build_loop max_sge (x ∷ xs) s b =
    let rest = build_loop max_sge xs (append zero_sge s (fill_native_sge x)) (count_buffer b x) in
    if not (max_sge == 0) && leb max_sge b.count
    then finish (record b { too_many_sge = true }) s
    else if ltb max_segment x.length || ltb (max_operation - x.length) b.total_bytes
    then finish (record b { buffer_too_large = true }) s
    else rest

unfoldable pub build_native_sglist : List Buffer → Sglist Sge → ℕ → Built × Sglist Sge
unfolding build_loop
build_native_sglist bs s max_sge = build_loop max_sge bs (clear s) initial_built
