-- ===== src/Sglist/Append.antt =====
-- Appending to a list that was filled by appending adds one entry at the end, across the spill.
use mathlib.Core.List.{append-nil, append_assoc}
use rdma_on_asio.Base.{
  ℕ, suc, ◌*◌, ◌<◌, ◌≡◌, refl, sym, ap, ◌∙◌, List, [], ◌∷◌, ◌++◌, arith, set, replicate, length-set,
  length-replicate, take-suc-set, dec_lt,
}
use rdma_on_asio.Sglist.{Sglist, inline_sge_count, copy_n, to_list, append}
use rdma_on_asio.Sglist.Storage.{
  blank, inlined, spilled, IsFilled, as_blank, as_inlined, as_spilled, length-copy_n,
  take-suc-set-copy_n,
}

module _ {ℓ} {A : Type ℓ} (d : A) where
  append-blank : (i : List A) (v : A) → append d (blank i) v ≡ inlined (set i 0 v) 1
  unfolding append
  append-blank i v = refl

  append-inlined :
      (i : List A) (n : ℕ) (v : A)
      → n < inline_sge_count
      → append d (inlined i n) v ≡ inlined (set i n v) (suc n)
  unfolding append
  append-inlined i n v h = ground arith

  append-full :
      (i : List A) (v : A)
      → append d (inlined i inline_sge_count) v
        ≡ spilled i (set (copy_n i 8 (replicate 16 d)) 8 v) 16 9
  unfolding append
  append-full i v = refl

  append-spilled :
      (i h : List A) (c n : ℕ) (v : A)
      → inline_sge_count < n
      → n < c
      → append d (spilled i h c n) v ≡ spilled i (set h n v) c (suc n)
  unfolding append
  append-spilled i h c n v k l = ground arith

  append-grow :
      (i h : List A) (c : ℕ) (v : A)
      → inline_sge_count < c
      → append d (spilled i h c c) v
        ≡ spilled i (set (copy_n h c (replicate (c * 2) d)) c v) (c * 2) (suc c)
  unfolding append
  append-grow i h c v k = ground arith

  -- An append keeps a list filled.
  pub append-IsFilled : (l : Sglist A) (v : A) → IsFilled l → IsFilled (append d l v)
  append-IsFilled l v (as_blank i p e) =
      as_inlined (set i 0 v) 1 (length-set i 0 v ∙ p) (omega arith) (omega arith)
        (ap (λ k. append d k v) e ∙ append-blank i v)
  append-IsFilled l v (as_inlined i n p q r e) = elim (dec_lt n inline_sge_count) [
    | yes h ↦
        as_inlined (set i n v) (suc n) (length-set i n v ∙ p) (omega arith) h
          (ap (λ k. append d k v) e ∙ append-inlined i n v h)
    | no h ↦
        let full : n ≡ inline_sge_count = omega arith in
        as_spilled i (set (copy_n i 8 (replicate 16 d)) 8 v) 16 9
          (length-set (copy_n i 8 (replicate 16 d)) 8 v
            ∙ length-copy_n 8 i (replicate 16 d) (omega arith) (omega arith))
          (omega arith) (omega arith)
          (ap (λ k. append d k v) (e ∙ ap (inlined i) full) ∙ append-full i v)
  ]
  append-IsFilled l v (as_spilled i h c n p q r e) = elim (dec_lt n c) [
    | yes k ↦
        as_spilled i (set h n v) c (suc n) (length-set h n v ∙ p) (omega arith) k
          (ap (λ k. append d k v) e ∙ append-spilled i h c n v q k)
    | no k ↦
        let full : n ≡ c = omega arith in
        as_spilled i (set (copy_n h c (replicate (c * 2) d)) c v) (c * 2) (suc c)
          (length-set (copy_n h c (replicate (c * 2) d)) c v
            ∙ length-copy_n c h (replicate (c * 2) d) (omega arith)
                (omega (arith, length-replicate (c * 2) d))
            ∙ length-replicate (c * 2) d)
          (omega arith) (omega arith)
          (ap (λ k. append d k v) (e ∙ ap (spilled i h c) full) ∙ append-grow i h c v (omega arith))
  ]

  -- Appending to a filled list adds the entry behind those that a reader saw before.
  pub to_list-append :
      (l : Sglist A) (v : A) → IsFilled l → to_list (append d l v) ≡ to_list l ++ v ∷ []
  to_list-append l v (as_blank i p e) = rw (e, append-blank i v) (take-suc-set i 0 v (omega arith))
  to_list-append l v (as_inlined i n p q r e) = elim (dec_lt n inline_sge_count) [
    | yes h ↦ rw (e, append-inlined i n v h) (take-suc-set i n v (omega arith))
    | no h ↦
        let full : n ≡ inline_sge_count = omega arith in
        rw (e, full, append-full i v)
          (take-suc-set-copy_n 8 i (replicate 16 d) v (omega arith) (omega arith))
  ]
  to_list-append l v (as_spilled i h c n p q r e) = elim (dec_lt n c) [
    | yes k ↦ rw (e, append-spilled i h c n v q k) (take-suc-set h n v (omega arith))
    | no k ↦
        let full : n ≡ c = omega arith in
        rw (e, full, append-grow i h c v (omega arith))
          (take-suc-set-copy_n c h (replicate (c * 2) d) v (omega arith)
            (omega (arith, length-replicate (c * 2) d)))
  ]

  -- Appending every entry of `vs`, in order.
  unfoldable pub append_all : Sglist A → List A → Sglist A
  append_all l [] = l
  append_all l (v ∷ vs) = append_all (append d l v) vs

  pub append_all-IsFilled : (l : Sglist A) (vs : List A) → IsFilled l → IsFilled (append_all l vs)
  unfolding append_all
  append_all-IsFilled l [] f = f
  append_all-IsFilled l (v ∷ vs) f = append_all-IsFilled (append d l v) vs (append-IsFilled l v f)

  -- Appending any number of entries to a filled list adds them, in order, behind those that a reader saw
  -- before, across the spill to the heap and its growth.
  pub to_list-append_all :
      (l : Sglist A) (vs : List A) → IsFilled l → to_list (append_all l vs) ≡ to_list l ++ vs
  unfolding append_all
  to_list-append_all l [] f = sym (append-nil (to_list l))
  to_list-append_all l (v ∷ vs) f =
      to_list-append_all (append d l v) vs (append-IsFilled l v f)
      ∙ ap (λ k. k ++ vs) (to_list-append l v f)
      ∙ append_assoc (to_list l) (v ∷ []) vs
