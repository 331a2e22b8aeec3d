-- ===== src/Service/Listed.antt =====
-- ibv/detail/impl/ibv_service_base.ipp: the pointers represent a list of distinct addresses.
use rdma_on_asio.Base.{
  ℕ, zero, suc, ◌<◌, ◌≡◌, inl, inr, refl, sym, ap, ◌∙◌, subst, Bool, true, false, Option, none,
  some, List, [], ◌∷◌, arith, if◌then◌else◌, ◌==◌, ==_iff, Bool-cases, All, length, ◌||◌,
}
use rdma_on_asio.Service.{Node, Service, points_at, do_insert, shutdown_loop}

-- `p` and the next pointers behind it run through the list, each node's previous pointer at the one
-- before, the first's at `prev`.
abbrev pub Chain : (ℕ → Node) → Option ℕ → Option ℕ → List ℕ → Type 0
Chain nodes prev p [] = p ≡ none
Chain nodes prev p (x ∷ xs) =
    (p ≡ some x) × ((nodes x).prev ≡ prev) × Chain nodes (some x) (nodes x).next xs

abbrev pub Absent : ℕ → List ℕ → Type 0
Absent a = All (λ x. (x == a) ≡ false)

abbrev pub Distinct : List ℕ → Type 0
Distinct [] = Unit
Distinct (x ∷ xs) = Absent x xs × Distinct xs

-- The service holds the implementations of the list, each once.
abbrev pub Holds : Service → List ℕ → Type 0
Holds s xs = Chain s.nodes none s.impl_list xs × Distinct xs

-- A chain does not see a change at other addresses.
pub framed-Chain :
    (f g : ℕ → Node) (prev p : Option ℕ) (xs : List ℕ)
    → All (λ x. g x ≡ f x) xs
    → Chain f prev p xs
    → Chain g prev p xs
framed-Chain f g prev p [] h c = c
framed-Chain f g prev p (x ∷ xs) (e, h) (q, b, c) = (
  q,
  ap (λ n. n.prev) e ∙ b,
  subst (λ o. Chain g (some x) o xs) (ap (λ n. n.next) (sym e))
      (framed-Chain f g (some x) _ xs h c),
)

pub shutdown_loop-Chain :
    (fuel : ℕ) (nodes : ℕ → Node) (prev p : Option ℕ) (xs : List ℕ)
    → length xs < fuel
    → Chain nodes prev p xs
    → shutdown_loop fuel nodes p ≡ some xs
unfolding shutdown_loop
shutdown_loop-Chain zero nodes prev p xs h c = absurd (omega (arith, h))
shutdown_loop-Chain (suc fuel) nodes prev p [] h c = rw c refl
shutdown_loop-Chain (suc fuel) nodes prev p (x ∷ xs) h (q, b, c) =
    rw (q, shutdown_loop-Chain fuel nodes (some x) (nodes x).next xs (omega (arith, h)) c) refl

pub both-All :
    {P Q R : ℕ → Type 0} (f : (y : ℕ) → P y → Q y → R y) (xs : List ℕ)
    → All P xs
    → All Q xs
    → All R xs
both-All f [] h k = tt
both-All f (x ∷ xs) h k = (f x h.0 k.0, both-All f xs h.1 k.1)

-- What is inserted heads the list.
pub do_insert-Holds :
    (impl : ℕ) (s : Service) (xs : List ℕ)
    → Absent impl xs
    → Holds s xs
    → Holds (do_insert impl s) (impl ∷ xs)
unfolding do_insert
do_insert-Holds impl s [] a (c, d) = ((refl, ground (arith, c), ground (arith, c)), (a, d))
do_insert-Holds impl s (x ∷ xs) a ((q, b, c), d) = (
  (
    refl,
    ground (arith, q, a.0),
    (
      ground (arith, q, a.0),
      ground (arith, q, a.0),
      subst (λ o. Chain (do_insert impl s).nodes (some x) o xs) (sym kept)
          (framed-Chain s.nodes (do_insert impl s).nodes (some x) (s.nodes x).next xs
            (both-All (λ y h k. apart y h k) xs a.1 d.0) c),
    ),
  ),
  (a, d),
)
  where
    kept : ((do_insert impl s).nodes x).next ≡ (s.nodes x).next
    kept = ground (arith, q, a.0)

    apart :
        (y : ℕ) → (y == impl) ≡ false → (y == x) ≡ false → (do_insert impl s).nodes y ≡ s.nodes y
    apart y h k = ground (arith, q, h, k)

abbrev pub member : ℕ → List ℕ → Bool
member a [] = false
member a (x ∷ xs) = x == a || member a xs

abbrev pub delete : ℕ → List ℕ → List ℕ
delete a [] = []
delete a (x ∷ xs) = let rest = delete a xs in if x == a then xs else x ∷ rest

delete-Absent : (w a : ℕ) (xs : List ℕ) → Absent w xs → Absent w (delete a xs)
delete-Absent w a [] h = tt
delete-Absent w a (x ∷ xs) h = elim (Bool-cases (x == a)) [
  | inl e ↦ rw e h.1
  | inr e ↦ rw e (h.0, delete-Absent w a xs h.1)
]

pub delete-Distinct : (a : ℕ) (xs : List ℕ) → Distinct xs → Distinct (delete a xs)
delete-Distinct a [] d = tt
delete-Distinct a (x ∷ xs) d = elim (Bool-cases (x == a)) [
  | inl e ↦ rw e d.1
  | inr e ↦ rw e (delete-Absent x a xs d.0, delete-Distinct a xs d.1)
]

module _ (f : ℕ → Node) (impl : ℕ) where
  -- Neither neighbour of a node of a chain is outside the chain and the address before it.
  pub next-inside :
      (w : ℕ) (prev p : Option ℕ) (xs : List ℕ)
      → Chain f prev p xs
      → member impl xs ≡ true
      → Absent w xs
      → points_at (f impl).next w ≡ false
  next-inside w prev p [] c m a = absurd (ground (arith, m))
  next-inside w prev p (x ∷ []) (q, b, c) m a = ground (arith, q, b, c, m, (==_iff x impl).0)
  next-inside w prev p (x ∷ y ∷ ys) (q, b, c) m a = elim (Bool-cases (x == impl)) [
    | inl e ↦ ground (arith, c.0, a.1.0, (==_iff x impl).0 e)
    | inr e ↦ next-inside w (some x) (f x).next (y ∷ ys) c (ground (arith, e, m)) a.1
  ]

  pub prev-inside :
      (w q : ℕ) (p : Option ℕ) (xs : List ℕ)
      → Chain f (some q) p xs
      → member impl xs ≡ true
      → (q == w) ≡ false
      → Absent w xs
      → points_at (f impl).prev w ≡ false
  prev-inside w q p [] c m n a = absurd (ground (arith, m))
  prev-inside w q p (x ∷ xs) (e, b, c) m n a = elim (Bool-cases (x == impl)) [
    | inl t ↦ ground (arith, b, n, (==_iff x impl).0 t)
    | inr t ↦ prev-inside w x (f x).next xs c (ground (arith, t, m)) a.0 a.1
  ]

  -- The node before points at a node exactly where the node's previous pointer is at it.
  pub points_at-prev :
      (x : ℕ) (p : Option ℕ) (xs : List ℕ)
      → Chain f (some x) p xs
      → member impl xs ≡ true
      → Absent x xs
      → points_at p impl ≡ points_at (f impl).prev x
  points_at-prev x p [] c m a = absurd (ground (arith, m))
  points_at-prev x p (y ∷ ys) (e, b, c) m a = elim (Bool-cases (y == impl)) [
    | inl t ↦ ground (arith, e, b, t, (==_iff y impl).0 t)
    | inr t ↦ ground (arith, e, t, prev-inside x y (f y).next ys c (ground (arith, t, m)) a.0 a.1)
  ]
