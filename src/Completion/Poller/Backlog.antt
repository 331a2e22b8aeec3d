-- ===== src/Completion/Poller/Backlog.antt =====
-- The bounded poll of ibv/detail/impl/ibv_service_io_completion.ipp against what its queue still holds.
use mathlib.Core.List.{append_assoc, nil≢cons}
use rdma_on_asio.Base.{
  ℕ, zero, suc, ◌<◌, ◌≡◌, ◌⊎◌, inl, inr, refl, sym, ap, ◌∙◌, subst, true, false, List, [], ◌∷◌,
  ◌++◌, some, arith, length, take, drop, All, ◌==◌, Bool-cases,
}
use rdma_on_asio.Verbs.{VerbsOp}
use rdma_on_asio.Completion.{Wc, Device, resolve_all, resolve_verbs_op, poll_into}
use rdma_on_asio.Completion.Polling.{resolve_all-append}
use rdma_on_asio.Completion.Poller.{is_empty}

-- A device that hands over a backlog in order, a batch at each call, to which nothing is added; each
-- completion names an operation.
pub record Feeds (device : Device) (batch : ℕ) (backlog : ℕ → List Wc) : Type 0 where
  pub answers : (n : ℕ) → device n batch ≡ some (take batch (backlog n))
  pub shrinks : (n : ℕ) → backlog (suc n) ≡ drop batch (backlog n)
  pub named : (n : ℕ) → All (λ wc. (wc.wr_id == 0) ≡ false) (backlog n)

take-drop : {A : Type 0} (n : ℕ) (xs : List A) → take n xs ++ drop n xs ≡ xs
take-drop zero xs = refl
take-drop (suc n) [] = refl
take-drop (suc n) (x ∷ xs) = ap (◌∷◌ x) (take-drop n xs)

pub resolve_all_nil :
    (ops : ℕ → VerbsOp) (wcs : List Wc)
    → All (λ wc. (wc.wr_id == 0) ≡ false) wcs
    → resolve_all ops wcs ≡ []
    → wcs ≡ []
unfolding resolve_all resolve_verbs_op
resolve_all_nil ops [] h e = refl
resolve_all_nil ops (wc ∷ wcs) h e = absurd (ground (arith, h.0, e))

pub append_nil_left : {A : Type 0} (xs ys : List A) → xs ++ ys ≡ [] → xs ≡ []
append_nil_left [] ys e = refl
append_nil_left (x ∷ xs) ys e = absurd (nil≢cons (sym e))

pub append_nil_right : {A : Type 0} (xs ys : List A) → xs ++ ys ≡ [] → ys ≡ []
append_nil_right [] ys e = e
append_nil_right (x ∷ xs) ys e = absurd (nil≢cons (sym e))

take_nil : {A : Type 0} (n : ℕ) (xs : List A) → 0 < n → take n xs ≡ [] → xs ≡ []
take_nil zero xs h e = absurd (omega (arith, h))
take_nil (suc n) [] h e = refl
take_nil (suc n) (x ∷ xs) h e = absurd (nil≢cons (sym e))

All-take : {A : Type 0} (P : A → Type 0) (n : ℕ) (xs : List A) → All P xs → All P (take n xs)
All-take P zero xs h = tt
All-take P (suc n) [] h = tt
All-take P (suc n) (x ∷ xs) h = (h.0, All-take P n xs h.1)

pub is_empty-cases :
    (l : List VerbsOp) → ((is_empty l ≡ true) × (l ≡ [])) ⊎ ((is_empty l ≡ false) × (0 < length l))
is_empty-cases [] = inl (refl, refl)
is_empty-cases (op ∷ l) = inr (refl, omega arith)

module _ (device : Device) (ops : ℕ → VerbsOp) (batch : ℕ) (backlog : ℕ → List Wc)
    (feeds : Feeds device batch backlog) where
  unfoldable pub left : ℕ → List VerbsOp
  left n = resolve_all ops (backlog n)

  pub left_split : (n : ℕ) → left n ≡ resolve_all ops (take batch (backlog n)) ++ left (suc n)
  unfolding left
  left_split n =
      ap (resolve_all ops) (sym (take-drop batch (backlog n)))
      ∙ resolve_all-append ops (take batch (backlog n)) (drop batch (backlog n))
      ∙ ap (λ l. resolve_all ops (take batch (backlog n)) ++ resolve_all ops l)
          (sym (feeds.shrinks n))

  poll_into_full :
      (batches n : ℕ)
      → (length (take batch (backlog n)) == batch) ≡ true
      → let (rest, n') = poll_into batches device ops batch (suc n) in
        poll_into (suc batches) device ops batch n
        ≡ (resolve_all ops (take batch (backlog n)) ++ rest, n')
  unfolding poll_into
  poll_into_full batches n e = rw (poll_into, feeds.answers n, e) refl

  poll_into_short :
      (batches n : ℕ)
      → (length (take batch (backlog n)) == batch) ≡ false
      → poll_into (suc batches) device ops batch n
        ≡ (resolve_all ops (take batch (backlog n)), suc n)
  unfolding poll_into
  poll_into_short batches n e = rw (poll_into, feeds.answers n, e) refl

  abbrev pub Drains : ℕ → List VerbsOp × ℕ → Type 0
  Drains n (drained, n') = left n ≡ drained ++ left n'

  -- What a number of batches drains is the front of what is left.
  pub poll_into-left : (batches n : ℕ) → Drains n (poll_into batches device ops batch n)
  unfolding poll_into
  poll_into-left zero n = refl
  poll_into-left (suc batches) n = elim (Bool-cases (length (take batch (backlog n)) == batch)) [
    | inl e ↦ subst (Drains n) (sym (poll_into_full batches n e)) (
        left_split n
        ∙ ap (λ l. resolve_all ops (take batch (backlog n)) ++ l) (poll_into-left batches (suc n))
        ∙ sym (
            append_assoc (resolve_all ops (take batch (backlog n)))
              (poll_into batches device ops batch (suc n)).0 _))
    | inr e ↦ subst (Drains n) (sym (poll_into_short batches n e)) (left_split n)
  ]

  -- A turn's batches drain nothing only where nothing is left.
  pub poll_into_none :
      (batches n : ℕ)
      → 0 < batch
      → (poll_into (suc batches) device ops batch n).0 ≡ []
      → left n ≡ []
  unfolding left resolve_all
  poll_into_none batches n b e = ap (resolve_all ops) (
      take_nil batch (backlog n) b (
        resolve_all_nil ops (take batch (backlog n))
          (All-take (λ wc. (wc.wr_id == 0) ≡ false) batch (backlog n) (feeds.named n)) front))
    where
      front : resolve_all ops (take batch (backlog n)) ≡ []
      front = elim (Bool-cases (length (take batch (backlog n)) == batch)) [
        | inl t ↦
            append_nil_left (resolve_all ops (take batch (backlog n))) _
              (sym (ap (λ r. r.0) (poll_into_full batches n t)) ∙ e)
        | inr f ↦ sym (ap (λ r. r.0) (poll_into_short batches n f)) ∙ e
      ]
