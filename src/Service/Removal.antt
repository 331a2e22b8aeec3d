-- ===== src/Service/Removal.antt =====
-- ibv/detail/impl/ibv_service_base.ipp: do_remove takes one node out of the list and leaves the others.
use rdma_on_asio.Base.{
  ℕ, ◌≡◌, inl, inr, refl, sym, ap, ◌∙◌, subst, true, false, Option, none, some, List, [], ◌∷◌,
  arith, if◌then◌else◌, ◌==◌, ==_iff, Bool-cases, All,
}
use rdma_on_asio.Service.{Node, Service, points_at, do_remove}
use rdma_on_asio.Service.Listed.{
  Chain, Absent, Distinct, Holds, framed-Chain, member, delete, delete-Distinct, next-inside,
  points_at-prev,
}

-- A list without an address is one the pointer at it points at no member of.
points_at-Absent : (x : ℕ) (xs : List ℕ) → Absent x xs → All (λ y. points_at (some x) y ≡ false) xs
points_at-Absent x [] h = tt
points_at-Absent x (y ∷ ys) h = (ground (arith, h.0), points_at-Absent x ys h.1)

module _ (s : Service) (impl : ℕ) where
  abbrev after : ℕ → Node
  after = (do_remove impl s).nodes

  after-next :
      (y : ℕ)
      → (y == impl) ≡ false
      → (after y).next
        ≡ (if points_at (s.nodes impl).prev y then (s.nodes impl).next else (s.nodes y).next)
  unfolding do_remove
  after-next y n = ground (arith, n)

  after-prev :
      (y : ℕ)
      → (y == impl) ≡ false
      → (after y).prev
        ≡ (if points_at (s.nodes impl).next y then (s.nodes impl).prev else (s.nodes y).prev)
  unfolding do_remove
  after-prev y n = ground (arith, n)

  -- A node that neither is the removed one nor stands beside it is as it was.
  after-apart :
      (y : ℕ)
      → (y == impl) ≡ false
      → points_at (s.nodes impl).prev y ≡ false
      → points_at (s.nodes impl).next y ≡ false
      → after y ≡ s.nodes y
  unfolding do_remove
  after-apart y n h k = ground (arith, n, h, k)

  -- What follows the removed node follows the node before it.
  tail_moved :
      (xs : List ℕ)
      → Chain s.nodes (some impl) (s.nodes impl).next xs
      → All (λ y. points_at (s.nodes impl).prev y ≡ false) xs
      → Absent impl xs
      → Distinct xs
      → Chain after (s.nodes impl).prev (s.nodes impl).next xs
  tail_moved [] c h a d = c
  tail_moved (y ∷ ys) (q, b, c) h a d = (
    q,
    after-prev y a.0 ∙ ground (arith, q),
    subst (λ o. Chain after (some y) o ys) (sym kept)
        (framed-Chain s.nodes after (some y) (s.nodes y).next ys (still ys a.1 h.1 d.0) c),
  )
    where
      kept : (after y).next ≡ (s.nodes y).next
      kept = after-next y a.0 ∙ ground (arith, h.0)

      still :
          (zs : List ℕ)
          → Absent impl zs
          → All (λ z. points_at (s.nodes impl).prev z ≡ false) zs
          → Absent y zs
          → All (λ z. after z ≡ s.nodes z) zs
      still [] u v w = tt
      still (z ∷ zs) u v w = (after-apart z u.0 v.0 (ground (arith, q, w.0)), still zs u.1 v.1 w.1)

  removed-Chain :
      (prev p : Option ℕ) (xs : List ℕ)
      → Chain s.nodes prev p xs
      → All (λ y. points_at prev y ≡ false) xs
      → Distinct xs
      → member impl xs ≡ true
      → Chain after prev (if points_at p impl then (s.nodes impl).next else p) (delete impl xs)
  removed-Chain prev p [] c h d m = absurd (ground (arith, m))
  removed-Chain prev p (x ∷ xs) (q, b, c) h d m = elim (Bool-cases (x == impl)) [
    | inl e ↦ rw (q, e) (head_removed ((==_iff x impl).0 e))
    | inr e ↦
        rw (q, e)
          (
            refl,
            after-prev x e ∙ unmoved e,
            linked e (
                removed-Chain (some x) (s.nodes x).next xs c (points_at-Absent x xs d.0) d.1
                  (later e)),
          )
  ]
    where
      head_removed : x ≡ impl → Chain after prev (s.nodes impl).next xs
      head_removed e =
          let before = ap (λ z. (s.nodes z).prev) (sym e) ∙ b in
          subst (λ o. Chain after o (s.nodes impl).next xs) before
            (tail_moved xs (subst (λ z. Chain s.nodes (some z) (s.nodes z).next xs) e c)
              (subst (λ o. All (λ y. points_at o y ≡ false) xs) (sym before) h.1)
              (subst (λ z. Absent z xs) e d.0) d.1)

      later : (x == impl) ≡ false → member impl xs ≡ true
      later e = ground (arith, e, m)

      unmoved :
          (x == impl) ≡ false
          → (if points_at (s.nodes impl).next x then (s.nodes impl).prev else (s.nodes x).prev)
            ≡ prev
      unmoved e = rw (next-inside s.nodes impl x (some x) (s.nodes x).next xs c (later e) d.0) b

      kept :
          (x == impl) ≡ false
          → (after x).next
            ≡ (if points_at (s.nodes x).next impl then (s.nodes impl).next else (s.nodes x).next)
      kept e =
          after-next x e
          ∙ rw (points_at-prev s.nodes impl x (s.nodes x).next xs c (later e) d.0) refl

      linked :
          (x == impl) ≡ false
          → Chain after
              (some x)
              (if points_at (s.nodes x).next impl then (s.nodes impl).next else (s.nodes x).next)
              (delete impl xs)
          → Chain after (some x) (after x).next (delete impl xs)
      linked e k = subst (λ o. Chain after (some x) o (delete impl xs)) (sym (kept e)) k

-- What is removed leaves the list; the order of the others stays.
pub do_remove-Holds :
    (impl : ℕ) (s : Service) (xs : List ℕ)
    → member impl xs ≡ true
    → Holds s xs
    → Holds (do_remove impl s) (delete impl xs)
unfolding do_remove
do_remove-Holds impl s xs m (c, d) =
    (removed-Chain s impl none s.impl_list xs c (none_apart xs) d m, delete-Distinct impl xs d)
  where
    none_apart : (ys : List ℕ) → All (λ y. points_at none y ≡ false) ys
    none_apart [] = tt
    none_apart (y ∷ ys) = (refl, none_apart ys)
