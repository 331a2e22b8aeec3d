-- ===== src/Sglist/Storage.antt =====
-- The states that `clear` on a fresh list and `append_uninitialized` produce, and where they store.
use rdma_on_asio.Base.{
  ℕ, suc, ◌≤◌, ◌<◌, ◌≡◌, ◌∙◌, List, [], ◌∷◌, ◌++◌, none, some, arith, length, take, drop, set,
  take-suc-set, take-append_left, take-take, length-append, length-take_of_le, length-drop,
}
use rdma_on_asio.Sglist.{Sglist, null, on_inline, on_heap, inline_sge_count, copy_n}

module _ {ℓ} {A : Type ℓ} where
  -- Nothing stored, and no heap block.
  abbrev pub blank : List A → Sglist A
  blank i = record { inline_cells = i; heap = none; heap_capacity = 0; data_ptr = null; size = 0 }

  -- `n` entries in the inline cells `i`.
  abbrev pub inlined : List A → ℕ → Sglist A
  inlined i n = record {
    inline_cells = i;
    heap = none;
    heap_capacity = 0;
    data_ptr = on_inline;
    size = n;
  }

  -- `n` entries in the heap block `h`.
  abbrev pub spilled : List A → List A → ℕ → ℕ → Sglist A
  spilled i h c n = record {
    inline_cells = i;
    heap = some h;
    heap_capacity = c;
    data_ptr = on_heap;
    size = n;
  }

  -- A list that has been filled by appending alone since it was made.
  pub data IsFilled (l : Sglist A) : Type ℓ where
    as_blank : (i : List A) → length i ≡ inline_sge_count → l ≡ blank i → IsFilled l
    as_inlined :
        (i : List A) (n : ℕ)
        → length i ≡ inline_sge_count
        → 0 < n
        → n ≤ inline_sge_count
        → l ≡ inlined i n
        → IsFilled l
    as_spilled :
        (i h : List A) (c n : ℕ)
        → length h ≡ c
        → inline_sge_count < n
        → n ≤ c
        → l ≡ spilled i h c n
        → IsFilled l

  -- Copying `n` cells into a longer block keeps them, and the block's length.
  pub take-copy_n : (n : ℕ) (xs ys : List A) → n ≤ length xs → take n (copy_n xs n ys) ≡ take n xs
  take-copy_n n xs ys h =
      take-append_left n (take n xs) (drop n ys) (omega (arith, length-take_of_le n xs h))
      ∙ take-take n xs

  pub length-copy_n :
      (n : ℕ) (xs ys : List A) → n ≤ length xs → n ≤ length ys → length (copy_n xs n ys) ≡ length ys
  length-copy_n n xs ys h k =
      omega
        (arith, length-append (take n xs) (drop n ys), length-take_of_le n xs h, length-drop n ys)

  -- Writing behind `n` copied cells.
  pub take-suc-set-copy_n :
      (n : ℕ) (xs ys : List A) (v : A)
      → n ≤ length xs
      → n < length ys
      → take (suc n) (set (copy_n xs n ys) n v) ≡ take n xs ++ v ∷ []
  take-suc-set-copy_n n xs ys v h k = rw (
    take-suc-set (copy_n xs n ys) n v (omega (arith, length-copy_n n xs ys h (omega arith))),
    take-copy_n n xs ys h,
  )
