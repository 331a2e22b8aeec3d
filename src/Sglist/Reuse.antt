-- ===== src/Sglist/Reuse.antt =====
-- Appending after `clear` to a list of detail/small_sglist.hpp that kept its heap block.
use rdma_on_asio.Base.{
  ℕ, suc, ◌+◌, ◌≤◌, ◌<◌, ◌≡◌, refl, ◌∙◌, ap, List, [], ◌∷◌, ◌++◌, some, arith, length, take, set,
  take-suc-set,
}
use rdma_on_asio.Sglist.{Sglist, on_inline, inline_sge_count, to_list, append, clear}
use rdma_on_asio.Sglist.Storage.{spilled}
use rdma_on_asio.Sglist.Append.{append_all}

module _ {ℓ} {A : Type ℓ} (d : A) where
  -- `n` entries in the inline cells, beside a heap block that is kept.
  abbrev pub kept : List A → List A → ℕ → ℕ → Sglist A
  kept i h c n = record {
    inline_cells = i;
    heap = some h;
    heap_capacity = c;
    data_ptr = on_inline;
    size = n;
  }

  first_append :
      (i h : List A) (c n : ℕ) (v : A)
      → append d (clear (spilled i h c n)) v ≡ kept (set i 0 v) h c 1
  unfolding append clear
  first_append i h c n v = refl

  inline_append :
      (i h : List A) (c n : ℕ) (v : A)
      → n < inline_sge_count
      → append d (kept i h c n) v ≡ kept (set i n v) h c (suc n)
  unfolding append
  inline_append i h c n v k = ground arith

  ninth_append :
      (i h : List A) (c : ℕ) (v : A)
      → inline_sge_count < c
      → append d (kept i h c 8) v ≡ spilled i (set h 8 v) c 9
  unfolding append
  ninth_append i h c v k = ground arith

  -- The inline cells after writing `vs` from cell `n` on.
  puts : List A → ℕ → List A → List A
  puts i n [] = i
  puts i n (v ∷ vs) = puts (set i n v) (suc n) vs

  inline_append_all :
      (i h : List A) (c n m : ℕ) (vs : List A)
      → length vs + n ≡ m
      → m ≤ inline_sge_count
      → append_all d (kept i h c n) vs ≡ kept (puts i n vs) h c m
  unfolding append_all puts
  inline_append_all i h c n m [] e k = rw (← e) (ap (kept i h c) (omega arith))
  inline_append_all i h c n m (v ∷ vs) e k =
      ap (λ l. append_all d l vs) (inline_append i h c n v (omega arith))
      ∙ inline_append_all (set i n v) h c (suc n) m vs (omega arith) k

  append_all-append :
      (l : Sglist A) (vs ws : List A)
      → append_all d l (vs ++ ws) ≡ append_all d (append_all d l vs) ws
  unfolding append_all
  append_all-append l [] ws = refl
  append_all-append l (v ∷ vs) ws = append_all-append (append d l v) vs ws

  -- Whenever a list that has spilled is cleared and refilled with nine entries, a reader sees the
  -- first eight cells of the old heap block in place of the first eight entries.
  pub append_all-clear_stale :
      (i h : List A) (c n : ℕ) (vs : List A) (v : A)
      → length vs ≡ inline_sge_count
      → length h ≡ c
      → inline_sge_count < c
      → to_list (append_all d (clear (spilled i h c n)) (vs ++ v ∷ []))
        ≡ take inline_sge_count h ++ v ∷ []
  unfolding append_all
  append_all-clear_stale i h c n [] v e p k = absurd (omega arith)
  append_all-clear_stale i h c n (w ∷ vs) v e p k =
      ap to_list (append_all-append (clear (spilled i h c n)) (w ∷ vs) (v ∷ []) ∙ last_append)
      ∙ take-suc-set h 8 v (omega arith)
    where
      filled : append_all d (clear (spilled i h c n)) (w ∷ vs) ≡ kept (puts (set i 0 w) 1 vs) h c 8
      filled =
          ap (λ l. append_all d l vs) (first_append i h c n w)
          ∙ inline_append_all (set i 0 w) h c 1 8 vs (omega arith) (omega arith)

      last_append :
          append_all d (append_all d (clear (spilled i h c n)) (w ∷ vs)) (v ∷ [])
          ≡ spilled (puts (set i 0 w) 1 vs) (set h 8 v) c 9
      last_append = ap (λ l. append d l v) filled ∙ ninth_append _ h c v k
