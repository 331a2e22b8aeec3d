-- ===== src/Nd/Queue.antt =====
-- nd/impl/nd_completion_queue.ipp: the completion queue in poll mode. `Queue`, `drain_ready` and the
-- completion of an operation read as those of ibv/impl/ibv_completion_queue.ipp and are Completion's;
-- dispatch_completion stamps and resolves as resolve_wc of Nd.Verbs.
use mathlib.Core.List.{append_assoc, append-nil}
use rdma_on_asio.Base.{
  ℕ, zero, suc, ◌+◌, ◌<◌, ◌≡◌, refl, sym, ap, ◌∙◌, Option, none, some, List, [], ◌∷◌, ◌++◌, arith,
  length, length-append,
}
use rdma_on_asio.Verbs.{VerbsOp}
use rdma_on_asio.Completion.{Queue, complete, complete_all, drain_ready}
use rdma_on_asio.Completion.Polling.{completed-complete_all}
use rdma_on_asio.Nd.Verbs.{NdWc, Results, resolve_wc, resolve_batch}

module _ (pushes : VerbsOp → List VerbsOp) where
  -- The loop of `poll` on fuel, from the total so far. `none` means that the fuel ran out.
  unfoldable pub poll_loop : ℕ → Results → (ℕ → VerbsOp) → ℕ → ℕ → Queue → Option (ℕ × Queue)
  unfolding complete_all resolve_batch
  poll_loop zero results ops batch total q = none
  poll_loop (suc fuel) results ops batch total q =
      let q' = record q { polls = suc q.polls } in
      elim (results q.polls batch) [
        | [] ↦ some (total, q')
        | wc ∷ wcs ↦
            poll_loop fuel results ops batch (total + length (wc ∷ wcs))
              (complete_all pushes (resolve_batch ops (wc ∷ wcs)) q')
      ]

  -- The code is always cleared.
  unfoldable pub poll : ℕ → Results → (ℕ → VerbsOp) → ℕ → Queue → Option (ℕ × Queue)
  unfolding drain_ready poll_loop
  poll fuel results ops batch q =
      let (total, q') = drain_ready pushes q in poll_loop fuel results ops batch total q'

  unfoldable pub poll_one : Results → (ℕ → VerbsOp) → Queue → ℕ × Queue
  unfolding complete_all resolve_batch
  poll_one results ops q =
      let q' = record q { polls = suc q.polls } in
      elim q.ready [
        | op ∷ rest ↦ (1, complete pushes op (record q { ready = rest }))
        | [] ↦ elim (results q.polls 1) [
          | [] ↦ (0, q')
          | wc ∷ wcs ↦ (1, complete_all pushes (resolve_batch ops (wc ∷ [])) q')
        ]
      ]

-- What the device returns from its `n`-th call until it runs dry.
pub data RunsDry (results : Results) (batch : ℕ) : ℕ → List NdWc → Type 0 where
  dry : (n : ℕ) → results n batch ≡ [] → RunsDry results batch n []
  more :
      (n : ℕ) (wc : NdWc) (wcs rest : List NdWc)
      → results n batch ≡ wc ∷ wcs
      → RunsDry results batch (suc n) rest
      → RunsDry results batch n ((wc ∷ wcs) ++ rest)

pub resolve_batch-append :
    (ops : ℕ → VerbsOp) (xs ys : List NdWc)
    → resolve_batch ops (xs ++ ys) ≡ resolve_batch ops xs ++ resolve_batch ops ys
unfolding resolve_batch resolve_wc
resolve_batch-append ops [] ys = refl
resolve_batch-append ops (x ∷ xs) ys = ground (arith, resolve_batch-append ops xs ys)

module _ (pushes : VerbsOp → List VerbsOp) where
  poll_loop_last :
      (fuel : ℕ) (results : Results) (ops : ℕ → VerbsOp) (batch total : ℕ) (q : Queue)
      → results q.polls batch ≡ []
      → poll_loop pushes (suc fuel) results ops batch total q
        ≡ some (total, record q { polls = suc q.polls })
  unfolding poll_loop
  poll_loop_last fuel results ops batch total q d = ground (arith, d)

  poll_loop_more :
      (fuel : ℕ) (results : Results) (ops : ℕ → VerbsOp) (batch total : ℕ) (q : Queue) (wc : NdWc)
      (wcs : List NdWc)
      → results q.polls batch ≡ wc ∷ wcs
      → poll_loop pushes (suc fuel) results ops batch total q
        ≡ poll_loop pushes fuel results ops batch
            (total + length (wc ∷ wcs))
            (complete_all pushes (resolve_batch ops (wc ∷ wcs)) (record q { polls = suc q.polls }))
  unfolding poll_loop
  poll_loop_more fuel results ops batch total q wc wcs d = rw (d, poll_loop) refl

  poll_loop_lem :
      (fuel : ℕ) (results : Results) (ops : ℕ → VerbsOp) (batch total : ℕ) (q : Queue) (n : ℕ)
      (wcs : List NdWc)
      → RunsDry results batch n wcs
      → q.polls ≡ n
      → length wcs < fuel
      → (q' : Queue) × (poll_loop pushes fuel results ops batch total q
          ≡ some (total + length wcs, q'))
        × (q'.completed ≡ q.completed ++ resolve_batch ops wcs)
  unfolding resolve_batch
  poll_loop_lem zero results ops batch total q n wcs r p h = absurd (omega arith)
  poll_loop_lem (suc fuel) results ops batch total q _ _ (dry n d) p h = (
    record q { polls = suc q.polls },
    poll_loop_last fuel results ops batch total q (ap (λ k. results k batch) p ∙ d)
        ∙ ap (λ t. some (t, record q { polls = suc q.polls })) (omega arith),
    sym (append-nil q.completed),
  )
  poll_loop_lem (suc fuel) results ops batch total q _ _ (more n wc wcs rest d r) p h =
      let now = record q { polls = suc q.polls } in
      let batch_ops = resolve_batch ops (wc ∷ wcs) in
      let (c, k) = completed-complete_all pushes batch_ops now in
      let l = length-append (wc ∷ wcs) rest in
      let (q', s, c') =
        poll_loop_lem fuel results ops batch (total + length (wc ∷ wcs))
          (complete_all pushes batch_ops now) (suc n) rest r (k ∙ ap suc p) (omega arith) in
      (
        q',
        poll_loop_more fuel results ops batch total q wc wcs (ap (λ k. results k batch) p ∙ d)
            ∙ s
            ∙ ap (λ t. some (t, q')) (omega arith),
        c'
            ∙ ap (λ (s : List VerbsOp). s ++ resolve_batch ops rest) c
            ∙ append_assoc q.completed batch_ops (resolve_batch ops rest)
            ∙ ap (λ (s : List VerbsOp). q.completed ++ s)
                (sym (resolve_batch-append ops (wc ∷ wcs) rest)),
      )

  -- A poll of a device that runs dry ends, on more fuel than it has results: the ready operations are
  -- completed first and in order, then that of each result in the order the device gave them; the number
  -- returned counts both.
  pub poll-RunsDry :
      (fuel : ℕ) (results : Results) (ops : ℕ → VerbsOp) (batch : ℕ) (q : Queue) (wcs : List NdWc)
      → RunsDry results batch q.polls wcs
      → length wcs < fuel
      → (q' : Queue) × (poll pushes fuel results ops batch q
          ≡ some (length q.ready + length wcs, q'))
        × (q'.completed ≡ (q.completed ++ q.ready) ++ resolve_batch ops wcs)
  unfolding poll drain_ready
  poll-RunsDry fuel results ops batch q wcs r h =
      let (c, k) = completed-complete_all pushes q.ready (record q { ready = [] }) in
      let (q', s, c') =
        poll_loop_lem fuel results ops batch (length q.ready)
          (complete_all pushes q.ready (record q { ready = [] })) q.polls wcs r k h in
      (q', s, c' ∙ ap (λ (s : List VerbsOp). s ++ resolve_batch ops wcs) c)
