-- ===== src/Nd/Ranges/Laws.antt =====
-- nd/detail/nd_device_impl.hpp: the chunks of `chunk_by`.
use rdma_on_asio.Base.{
  ℕ, ◌≤◌, ◌≡◌, inl, inr, refl, Bool, true, false, List, [], ◌∷◌, ◌++◌, All, All-append, subst, suc,
  Bool-cases, ◌==◌, ==_iff, arith,
}
use rdma_on_asio.Nd.Ranges.{chunk_loop, chunk_by}
use mathlib.Core.List.{append_assoc}

module _ {ℓ} {A : Type ℓ} where
  abbrev pub concat : List (List A) → List A
  concat [] = []
  concat (xs ∷ xss) = xs ++ concat xss

  concat-chunk_loop :
      (pred : A → A → Bool) (current : List A) (previous : A) (xs : List A)
      → concat (chunk_loop pred current previous xs) ≡ current ++ xs
  unfolding chunk_loop
  concat-chunk_loop pred current previous [] = refl
  concat-chunk_loop pred current previous (x ∷ xs) = elim (Bool-cases (pred previous x)) [
    | inl e ↦
        rw (chunk_loop, e, concat-chunk_loop pred (current ++ x ∷ []) x xs)
          (append_assoc current (x ∷ []) xs)
    | inr e ↦ rw (chunk_loop, e, concat-chunk_loop pred (x ∷ []) x xs) refl
  ]

  concat-chunk_by : (pred : A → A → Bool) (xs : List A) → concat (chunk_by pred xs) ≡ xs
  unfolding chunk_by
  concat-chunk_by pred [] = refl
  concat-chunk_by pred (x ∷ xs) = concat-chunk_loop pred (x ∷ []) x xs

module _ {ℓ} {A : Type ℓ} (pred : A → A → Bool) where
  -- From `x` on, each element is linked to the one before by the predicate.
  abbrev pub Linked : A → List A → Type 0
  Linked x [] = Unit
  Linked x (y ∷ ys) = (pred x y ≡ true) × Linked y ys

  abbrev pub last : A → List A → A
  last x [] = x
  last x (y ∷ ys) = last y ys

  -- The next chunk starts with an element that is not linked to `x`.
  abbrev pub Cut : A → List (List A) → Type 0
  Cut x [] = Unit
  Cut x ([] ∷ cs) = ⊥
  Cut x ((y ∷ ys) ∷ cs) = pred x y ≡ false

  -- No chunk is empty, each is linked, and each ends where a link is missing.
  abbrev pub Chunked : List (List A) → Type 0
  Chunked [] = Unit
  Chunked ([] ∷ cs) = ⊥
  Chunked ((x ∷ xs) ∷ cs) = Linked x xs × Cut (last x xs) cs × Chunked cs

  last-append : (x : A) (xs : List A) (y : A) → last x (xs ++ y ∷ []) ≡ y
  last-append x [] y = refl
  last-append x (z ∷ xs) y = last-append z xs y

  Linked-append :
      (x : A) (xs : List A) (y : A)
      → Linked x xs
      → pred (last x xs) y ≡ true
      → Linked x (xs ++ y ∷ [])
  Linked-append x [] y l e = (e, tt)
  Linked-append x (z ∷ xs) y l e = (l.0, Linked-append z xs y l.1 e)

  -- The first chunk starts with the first element of the chunk that grows.
  Cut-chunk_loop :
      (w x : A) (current : List A) (previous : A) (xs : List A)
      → pred w x ≡ false
      → Cut w (chunk_loop pred (x ∷ current) previous xs)
  unfolding chunk_loop
  Cut-chunk_loop w x current previous [] e = e
  Cut-chunk_loop w x current previous (y ∷ xs) e = elim (Bool-cases (pred previous y)) [
    | inl t ↦ rw (chunk_loop, t) (Cut-chunk_loop w x (current ++ y ∷ []) y xs e)
    | inr f ↦ rw (chunk_loop, f) e
  ]

  Chunked-chunk_loop :
      (x : A) (current : List A) (previous : A) (xs : List A)
      → Linked x current
      → last x current ≡ previous
      → Chunked (chunk_loop pred (x ∷ current) previous xs)
  unfolding chunk_loop
  Chunked-chunk_loop x current previous [] l e = (l, tt, tt)
  Chunked-chunk_loop x current previous (y ∷ xs) l e = elim (Bool-cases (pred previous y)) [
    | inl t ↦
        rw (chunk_loop, t)
          (Chunked-chunk_loop x (current ++ y ∷ []) y xs (Linked-append x current y l (rw e t))
            (last-append x current y))
    | inr f ↦
        rw (chunk_loop, f)
          (
            l,
            Cut-chunk_loop (last x current) y [] y xs (rw e f),
            Chunked-chunk_loop y [] y xs tt refl,
          )
  ]

  -- The chunks, one after the other, are the range; none is empty, neighbours within a chunk satisfy the
  -- predicate, and the last element of a chunk and the first of the next do not.
  pub chunk_by-Chunked :
      (xs : List A) → (concat (chunk_by pred xs) ≡ xs) × Chunked (chunk_by pred xs)
  unfolding chunk_by
  chunk_by-Chunked [] = (refl, tt)
  chunk_by-Chunked (x ∷ xs) = (concat-chunk_by pred (x ∷ xs), Chunked-chunk_loop x [] x xs tt refl)

module _ {ℓ} {A : Type ℓ} (key : A → ℕ) where
  -- In order of the key, from a least key on.
  abbrev pub Sorted : ℕ → List A → Type 0
  Sorted k [] = Unit
  Sorted k (x ∷ xs) = (k ≤ key x) × Sorted (key x) xs

  abbrev pub IsChunk : ℕ → List A → Type 0
  IsChunk i [] = ⊥
  IsChunk i (x ∷ xs) = (key x ≡ i) × All (λ y. key y ≡ i) xs

  -- Chunks of one key each, whose keys increase.
  abbrev pub Grouped : ℕ → List (List A) → Type 0
  Grouped k [] = Unit
  Grouped k (c ∷ cs) = (i : ℕ) × (k ≤ i) × IsChunk i c × Grouped (suc i) cs

  IsChunk-append : (i : ℕ) (c : List A) (x : A) → IsChunk i c → key x ≡ i → IsChunk i (c ++ x ∷ [])
  IsChunk-append i [] x h e = elim h [ ]
  IsChunk-append i (y ∷ c) x h e = (h.0, All-append (λ z. key z ≡ i) c (x ∷ []) h.1 (e, tt))

  chunk_loop-Grouped :
      (i k : ℕ) (current : List A) (previous : A) (xs : List A)
      → k ≤ i
      → IsChunk i current
      → key previous ≡ i
      → Sorted i xs
      → Grouped k (chunk_loop (λ a b. key a == key b) current previous xs)
  unfolding chunk_loop
  chunk_loop-Grouped i k current previous [] h c e s = (i, h, c, tt)
  chunk_loop-Grouped i k current previous (x ∷ xs) h c e s =
      elim (Bool-cases (key previous == key x)) [
        | inl t ↦
            rw (chunk_loop, t)
              (chunk_loop-Grouped i k (current ++ x ∷ []) x xs h
                (IsChunk-append i current x c (same t)) (same t)
                (subst (λ j. Sorted j xs) (same t) s.1))
        | inr f ↦
            rw (chunk_loop, f)
              (
                i,
                h,
                c,
                chunk_loop-Grouped (key x) (suc i) (x ∷ []) x xs (above f) (refl, tt) refl s.1,
              )
      ]
    where
      same : (key previous == key x) ≡ true → key x ≡ i
      same t = ground (arith, (==_iff (key previous) (key x)).0 t)

      above : (key previous == key x) ≡ false → suc i ≤ key x
      above f = ground (arith, (==_iff (key previous) (key x)).1, s.0)

  -- The chunks of equal keys of a range in order have increasing keys.
  pub chunk_by-Grouped :
      (k : ℕ) (xs : List A) → Sorted k xs → Grouped k (chunk_by (λ a b. key a == key b) xs)
  unfolding chunk_by
  chunk_by-Grouped k [] s = tt
  chunk_by-Grouped k (x ∷ xs) s = chunk_loop-Grouped (key x) k (x ∷ []) x xs s.0 (refl, tt) refl s.1
