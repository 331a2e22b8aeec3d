-- ===== src/Completion/Polling.antt =====
-- Poll mode of ibv/impl/ibv_completion_queue.ipp and the bounded poll of
-- ibv/detail/impl/ibv_service_io_completion.ipp: what they complete, and in which order.
use mathlib.Core.List.{append_assoc, append-nil}
use rdma_on_asio.Base.{
  ℕ, zero, suc, ◌+◌, ◌*◌, ◌≤◌, ◌<◌, ◌≡◌, ◌⊎◌, inl, inr, refl, sym, ap, ◌∙◌, List, [], ◌∷◌, ◌++◌,
  none, some, arith, length, length-append, Option-cases,
}
use rdma_on_asio.Base.Int.{pos}
use rdma_on_asio.Error.{ErrorCode, cleared, system, eio}
use rdma_on_asio.Verbs.{VerbsOp}
use rdma_on_asio.Completion.{
  Wc, Device, Queue, resolve_all, resolve_verbs_op, complete, complete_all, drain_ready, poll_loop,
  poll, poll_into,
}

-- The batches that a device returns from its `n`-th call on, and how they end.
pub data Returns (device : Device) (batch : ℕ) : ℕ → List Wc → ErrorCode → Type 0 where
  fails : (n : ℕ) → device n batch ≡ none → Returns device batch n [] (system (pos eio))
  dry : (n : ℕ) → device n batch ≡ some [] → Returns device batch n [] cleared
  more :
      (n : ℕ) (wc : Wc) (wcs rest : List Wc) (ec : ErrorCode)
      → device n batch ≡ some (wc ∷ wcs)
      → Returns device batch (suc n) rest ec
      → Returns device batch n ((wc ∷ wcs) ++ rest) ec

pub resolve_all-append :
    (ops : ℕ → VerbsOp) (xs ys : List Wc)
    → resolve_all ops (xs ++ ys) ≡ resolve_all ops xs ++ resolve_all ops ys
unfolding resolve_all resolve_verbs_op
resolve_all-append ops [] ys = refl
resolve_all-append ops (x ∷ xs) ys = ground (arith, resolve_all-append ops xs ys)

module _ (pushes : VerbsOp → List VerbsOp) where
  pub completed-complete_all :
      (l : List VerbsOp) (q : Queue)
      → ((complete_all pushes l q).completed ≡ q.completed ++ l)
        × ((complete_all pushes l q).polls ≡ q.polls)
  unfolding complete_all
  completed-complete_all [] q = (sym (append-nil q.completed), refl)
  completed-complete_all (op ∷ l) q =
      let (c, p) = completed-complete_all l (complete pushes op q) in
      (c ∙ append_assoc q.completed (op ∷ []) l, p)

  poll_loop_last :
      (fuel : ℕ) (device : Device) (ops : ℕ → VerbsOp) (batch total : ℕ) (q : Queue)
      (ec : ErrorCode)
      → ((device q.polls batch ≡ none) × (ec ≡ system (pos eio)))
        ⊎ ((device q.polls batch ≡ some []) × (ec ≡ cleared))
      → poll_loop pushes (suc fuel) device ops batch total q
        ≡ some (total, ec, record q { polls = suc q.polls })
  unfolding poll_loop
  poll_loop_last fuel device ops batch total q ec (inl (d, e)) = ground (arith, d, e)
  poll_loop_last fuel device ops batch total q ec (inr (d, e)) = ground (arith, d, e)

  poll_loop_more :
      (fuel : ℕ) (device : Device) (ops : ℕ → VerbsOp) (batch total : ℕ) (q : Queue) (wc : Wc)
      (wcs : List Wc)
      → device q.polls batch ≡ some (wc ∷ wcs)
      → poll_loop pushes (suc fuel) device ops batch total q
        ≡ poll_loop pushes fuel device ops batch
            (total + length (wc ∷ wcs))
            (complete_all pushes (resolve_all ops (wc ∷ wcs)) (record q { polls = suc q.polls }))
  unfolding poll_loop
  poll_loop_more fuel device ops batch total q wc wcs d = rw (d, poll_loop) refl

  poll_loop_lem :
      (fuel : ℕ) (device : Device) (ops : ℕ → VerbsOp) (batch total : ℕ) (q : Queue) (n : ℕ)
      (wcs : List Wc) (ec : ErrorCode)
      → Returns device batch n wcs ec
      → q.polls ≡ n
      → length wcs < fuel
      → (q' : Queue) × (poll_loop pushes fuel device ops batch total q
          ≡ some (total + length wcs, ec, q'))
        × (q'.completed ≡ q.completed ++ resolve_all ops wcs)
  unfolding resolve_all
  poll_loop_lem zero device ops batch total q n wcs ec r p h = absurd (omega arith)
  poll_loop_lem (suc fuel) device ops batch total q _ _ _ (fails n d) p h =
      let e = ap (λ k. device k batch) p ∙ d in
      (
        record q { polls = suc q.polls },
        poll_loop_last fuel device ops batch total q (system (pos eio)) (inl (e, refl))
            ∙ ap (λ t. some (t, system (pos eio), record q { polls = suc q.polls })) (omega arith),
        sym (append-nil q.completed),
      )
  poll_loop_lem (suc fuel) device ops batch total q _ _ _ (dry n d) p h =
      let e = ap (λ k. device k batch) p ∙ d in
      (
        record q { polls = suc q.polls },
        poll_loop_last fuel device ops batch total q cleared (inr (e, refl))
            ∙ ap (λ t. some (t, cleared, record q { polls = suc q.polls })) (omega arith),
        sym (append-nil q.completed),
      )
  poll_loop_lem (suc fuel) device ops batch total q _ _ _ (more n wc wcs rest ec d r) p h =
      let e = ap (λ k. device k batch) p ∙ d in
      let q' =
        complete_all pushes (resolve_all ops (wc ∷ wcs)) (record q { polls = suc q.polls }) in
      let (c, k) =
        completed-complete_all (resolve_all ops (wc ∷ wcs)) (record q { polls = suc q.polls }) in
      let l = length-append (wc ∷ wcs) rest in
      let (q'', s, c') =
        poll_loop_lem fuel device ops batch (total + length (wc ∷ wcs)) q' (suc n) rest ec r
          (k ∙ ap suc p) (omega arith) in
      (
        q'',
        poll_loop_more fuel device ops batch total q wc wcs e
            ∙ s
            ∙ ap (λ t. some (t, ec, q'')) (omega arith),
        c'
            ∙ ap (λ (s : List VerbsOp). s ++ resolve_all ops rest) c
            ∙ append_assoc q.completed (resolve_all ops (wc ∷ wcs)) (resolve_all ops rest)
            ∙ ap (λ (s : List VerbsOp). q.completed ++ s)
                (sym (resolve_all-append ops (wc ∷ wcs) rest)),
      )

  -- A poll of a device that returns finitely many completions ends, on more fuel than these: the ready
  -- operations are completed first and in order, then that of each completion in the order the device
  -- gave them; the number returned counts both, and the code is EIO if the device failed last.
  pub poll_lem :
      (fuel : ℕ) (device : Device) (ops : ℕ → VerbsOp) (batch : ℕ) (q : Queue) (wcs : List Wc)
      (ec : ErrorCode)
      → Returns device batch q.polls wcs ec
      → length wcs < fuel
      → (q' : Queue) × (poll pushes fuel device ops batch q
          ≡ some (length q.ready + length wcs, ec, q'))
        × (q'.completed ≡ (q.completed ++ q.ready) ++ resolve_all ops wcs)
  unfolding poll drain_ready
  poll_lem fuel device ops batch q wcs ec r h =
      let (c, k) = completed-complete_all q.ready (record q { ready = [] }) in
      let (q', s, c') =
        poll_loop_lem fuel device ops batch (length q.ready)
          (complete_all pushes q.ready (record q { ready = [] })) q.polls wcs ec r k h in
      (q', s, c' ∙ ap (λ (s : List VerbsOp). s ++ resolve_all ops wcs) c)

-- A device gives at most as many completions as it is asked for.
abbrev pub IsBounded : Device → Type 0
IsBounded device = (n batch : ℕ) (wcs : List Wc) → device n batch ≡ some wcs → length wcs ≤ batch

length-resolve_all : (ops : ℕ → VerbsOp) (wcs : List Wc) → length (resolve_all ops wcs) ≤ length wcs
unfolding resolve_all resolve_verbs_op
length-resolve_all ops [] = omega arith
length-resolve_all ops (wc ∷ wcs) = ground (arith, length-resolve_all ops wcs)

-- The poller's turn is bounded: at most so many operations as there are entries in its batches, and at
-- most so many calls of the device, even where the device never runs dry.
pub poll_into-le :
    (batches : ℕ) (device : Device) (ops : ℕ → VerbsOp) (batch polls : ℕ)
    → IsBounded device
    → let (completed, polls') = poll_into batches device ops batch polls in
      (length completed ≤ batches * batch) × (polls ≤ polls') × (polls' ≤ polls + batches)
unfolding poll_into
poll_into-le zero device ops batch polls h = (omega arith, omega arith, omega arith)
poll_into-le (suc batches) device ops batch polls h = elim (Option-cases (device polls batch)) [
  | inl e ↦ ground (arith, e)
  | inr (wcs, e) ↦ ground (
    arith,
    e,
    h polls batch wcs e,
    length-resolve_all ops wcs,
    length-append (resolve_all ops wcs) (poll_into batches device ops batch (suc polls)).0,
    poll_into-le batches device ops batch (suc polls) h,
  )
]
