-- ===== src/Sglist.antt =====
-- detail/small_sglist.hpp: a list of native scatter/gather entries with inline storage for eight of
-- them, and heap storage beyond.
pub mod Storage
pub mod Append
pub mod Builder
pub mod Built
pub mod Reuse
use rdma_on_asio.Base.{
  ℕ, suc, ◌+◌, ◌*◌, ◌-◌, max, min, Bool, true, false, not, ◌&&◌, Option, none, some, List, [], ◌++◌,
  take, drop, set, replicate, if◌then◌else◌, ◌==◌, ltb, leb, is_some,
}

abbrev pub inline_sge_count : ℕ
inline_sge_count = 8

-- What `data_` points at. `reserve` frees the old heap block, so a pointer to it is `dangling`.
pub data DataPtr : Type 0 where
  null on_inline on_heap dangling : DataPtr

pub record Sglist {ℓ} (A : Type ℓ) : Type ℓ where
  pub inline_cells : List A
  pub heap : Option (List A)
  pub heap_capacity : ℕ
  pub data_ptr : DataPtr
  pub size : ℕ

-- `std::copy_n(source, n, target)`
abbrev pub copy_n {ℓ} : {A : Type ℓ} → List A → ℕ → List A → List A
copy_n source n target = take n source ++ drop n target

abbrev pub heap_cells {ℓ} : {A : Type ℓ} → Option (List A) → List A
heap_cells none = []
heap_cells (some h) = h

-- `data_ == heap_.get()`: a null `data_` equals a heap block that is not there.
abbrev pub points_at_heap {ℓ} : {A : Type ℓ} → DataPtr → Option A → Bool
points_at_heap null h = not (is_some h)
points_at_heap on_inline h = false
points_at_heap on_heap h = true
points_at_heap dangling h = false

abbrev pub is_null : DataPtr → Bool
is_null null = true
is_null on_inline = false
is_null on_heap = false
is_null dangling = false

-- The pointer after the old heap block was freed.
abbrev pub moved_ptr : DataPtr → ℕ → DataPtr
moved_ptr p size =
    if ltb inline_sge_count size
    then on_heap
    else elim p [ null ↦ null | on_inline ↦ on_inline | on_heap ↦ dangling | dangling ↦ dangling ]

module _ {ℓ} {A : Type ℓ} where
  -- The cells behind a pointer.
  abbrev pub cells_at : Sglist A → DataPtr → List A
  cells_at l null = []
  cells_at l on_inline = l.inline_cells
  cells_at l on_heap = heap_cells l.heap
  cells_at l dangling = []

  -- The entries that a reader of `data()` and `size()` sees.
  abbrev pub to_list : Sglist A → List A
  to_list l = take l.size (cells_at l l.data_ptr)

  unfoldable pub uses_heap : Sglist A → Bool
  uses_heap l = points_at_heap l.data_ptr l.heap

  unfoldable pub capacity : Sglist A → ℕ
  capacity l = if points_at_heap l.data_ptr l.heap then l.heap_capacity else inline_sge_count

  unfoldable pub clear : Sglist A → Sglist A
  clear l = record l { data_ptr = null; size = 0 }

  -- Writing through a pointer at an index.
  abbrev pub put_at : Sglist A → DataPtr → ℕ → A → Sglist A
  put_at l null i v = l
  put_at l on_inline i v = record l { inline_cells = set l.inline_cells i v }
  put_at l on_heap i v = record l { heap = some (set (heap_cells l.heap) i v) }
  put_at l dangling i v = l

-- `d` is a value-initialised entry.
module _ {ℓ} {A : Type ℓ} (d : A) where
  -- `small_sglist()`
  unfoldable pub new : Sglist A
  new = record {
    inline_cells = replicate inline_sge_count d;
    heap = none;
    heap_capacity = 0;
    data_ptr = null;
    size = 0;
  }

  unfoldable pub reserve : Sglist A → ℕ → Sglist A
  reserve l count =
      if leb count inline_sge_count
      then l
      else if ltb l.heap_capacity count
      then record l {
        heap = some (
            if is_null l.data_ptr
            then replicate count d
            else copy_n (cells_at l l.data_ptr) l.size (replicate count d));
        heap_capacity = count;
        data_ptr = moved_ptr l.data_ptr l.size;
      }
      else l

  unfoldable pub resize : Sglist A → ℕ → Sglist A
  unfolding reserve
  resize l count =
      if count == 0
      then clear l
      else let move_heap_to_inline =
          leb count inline_sge_count && points_at_heap l.data_ptr l.heap in
        let r = reserve l count in
        record r {
          inline_cells =
              if move_heap_to_inline
              then copy_n (cells_at l l.data_ptr) (min l.size count) r.inline_cells
              else r.inline_cells;
          data_ptr = if leb count inline_sge_count then on_inline else on_heap;
          size = count;
        }

  -- `heap_capacity_ == 0 ? inline_sge_count * 2 : heap_capacity_ * 2`
  abbrev pub doubled : Sglist A → ℕ
  doubled l = if l.heap_capacity == 0 then inline_sge_count * 2 else l.heap_capacity * 2

  -- The list after the call; the entry returned is the one at `index`, the old size.
  unfoldable pub append_uninitialized : Sglist A → Sglist A
  unfolding reserve
  append_uninitialized l =
      let target = l.size + 1 in
      let r =
        if ltb inline_sge_count target && ltb l.heap_capacity target
        then reserve l (max target (doubled l))
        else l in
      record r {
        data_ptr =
            if is_null r.data_ptr
            then on_inline
            else if ltb inline_sge_count target
            then on_heap
            else r.data_ptr;
        size = target;
      }

  -- `auto& sge = append_uninitialized(); sge = v`
  unfoldable pub append : Sglist A → A → Sglist A
  unfolding append_uninitialized
  append l v = let r = append_uninitialized l in put_at r r.data_ptr l.size v
