-- ===== src/QueuePair/Completed.antt =====
-- From the initiation of operations on a queue pair in poll mode to the poll that completes them
-- (ibv/ibv_queue_pair.hpp and ibv/impl/ibv_completion_queue.ipp).
use rdma_on_asio.Base.{
  ℕ, ◌+◌, ◌<◌, ◌≡◌, refl, ap, ◌∙◌, false, none, some, List, [], ◌∷◌, ◌++◌, map, arith, ◌==◌, length,
  All,
}
use rdma_on_asio.Error.{ErrorCode}
use rdma_on_asio.Verbs.{PostEnv, VerbsOp}
use rdma_on_asio.Completion.{Wc, Device, Queue, resolve_all, resolve_verbs_op, stamp, poll}
use rdma_on_asio.Completion.Polling.{Returns, poll_lem}
use rdma_on_asio.QueuePair.{
  Posts, ibv_posts, Sinks, QpObject, async_send, async_recv, async_read, async_write, finish_poll,
}
use rdma_on_asio.QueuePair.Conservation.{
  outstanding, ids, count, Routes, Initiation, send, recv, read, write, address, initiate,
  initiate_all, held-initiate_all, ibv_posts-Routes,
}

abbrev pub no_sinks : Sinks
no_sinks = record { ready = []; scheduled = []; calls = [] }

scheduled-initiate :
    (posts : Posts) (q : QpObject) (i : Initiation) (s : Sinks)
    → q.io_ctx ≡ none
    → (initiate posts q i s).scheduled ≡ s.scheduled
unfolding async_send async_recv async_read async_write finish_poll
scheduled-initiate posts q (send bs id) s e = rw e refl
scheduled-initiate posts q (recv bs id) s e = rw e refl
scheduled-initiate posts q (read bs ra id) s e = rw e refl
scheduled-initiate posts q (write bs ra id) s e = rw e refl

scheduled-initiate_all :
    (posts : Posts) (q : QpObject) (is : List Initiation) (s : Sinks)
    → q.io_ctx ≡ none
    → (initiate_all posts q is s).scheduled ≡ s.scheduled
unfolding initiate_all
scheduled-initiate_all posts q [] s e = refl
scheduled-initiate_all posts q (i ∷ is) s e =
    scheduled-initiate_all posts q is (initiate posts q i s) e ∙ scheduled-initiate posts q i s e

count-ids-append :
    (a : ℕ) (xs ys : List VerbsOp) → count a (ids (xs ++ ys)) ≡ count a (ids xs) + count a (ids ys)
count-ids-append a [] ys = omega arith
count-ids-append a (x ∷ xs) ys = omega (arith, count-ids-append a xs ys)

id-stamp : (wc : Wc) (op : VerbsOp) → (stamp wc op).id ≡ op.id
unfolding stamp
id-stamp wc op = ground arith

-- The operations that completions resolve to are those at their addresses.
ids-resolve_all :
    (ops : ℕ → VerbsOp) (wcs : List Wc)
    → ((x : ℕ) → (ops x).id ≡ x)
    → All (λ wc. (wc.wr_id == 0) ≡ false) wcs
    → ids (resolve_all ops wcs) ≡ map (λ wc. wc.wr_id) wcs
unfolding resolve_all resolve_verbs_op
ids-resolve_all ops [] h n = refl
ids-resolve_all ops (wc ∷ wcs) h n =
    ground (arith, n.0, id-stamp wc (ops wc.wr_id), h wc.wr_id, ids-resolve_all ops wcs h n.1)

-- What a poll completes, where the device completes what it has taken.
pub count-completed :
    (env : PostEnv) (posts : Posts) (q : QpObject) (is : List Initiation) (a : ℕ)
    (completed resolved : List VerbsOp) (taken : List ℕ)
    → Routes env posts
    → q.io_ctx ≡ none
    → completed ≡ (initiate_all posts q is no_sinks).ready ++ resolved
    → ids resolved ≡ taken
    → count a taken ≡ count a (outstanding env (initiate_all posts q is no_sinks).calls)
    → count a (ids completed) ≡ count a (map address is)
unfolding outstanding
count-completed env posts q is a completed resolved taken routes mode c r once =
    let s = initiate_all posts q is no_sinks in
    omega (
      arith,
      ap (λ (l : List VerbsOp). count a (ids l)) c,
      count-ids-append a s.ready resolved,
      ap (λ (l : List ℕ). count a l) r,
      once,
      held-initiate_all env posts routes q a is no_sinks,
      ap (λ (l : List VerbsOp). count a (ids l)) (scheduled-initiate_all posts q is no_sinks mode),
    )

-- In poll mode every operation that a program initiates is completed, once and by the next poll: where the
-- device completes each request that it has taken once and then runs dry or fails, the poll ends on more
-- fuel than there are completions; those that needed no request complete first, then the others in the
-- order of the device's completions, and the operations completed are those initiated.
pub poll-initiate_all :
    (env : PostEnv) (q : QpObject) (is : List Initiation) (pushes : VerbsOp → List VerbsOp)
    (device : Device) (ops : ℕ → VerbsOp) (batch fuel n a : ℕ) (wcs : List Wc) (ec : ErrorCode)
    → q.io_ctx ≡ none
    → ((x : ℕ) → (ops x).id ≡ x)
    → All (λ wc. (wc.wr_id == 0) ≡ false) wcs
    → Returns device batch n wcs ec
    → count a (map (λ wc. wc.wr_id) wcs)
      ≡ count a (outstanding env (initiate_all (ibv_posts env) q is no_sinks).calls)
    → length wcs < fuel
    → let ready = (initiate_all (ibv_posts env) q is no_sinks).ready in
      (done : Queue) × (poll pushes fuel device ops batch
          (record { ready = ready; completed = []; polls = n })
        ≡ some (length ready + length wcs, ec, done))
      × (done.completed ≡ ready ++ resolve_all ops wcs)
      × (count a (ids done.completed) ≡ count a (map address is))
poll-initiate_all env q is pushes device ops batch fuel n a wcs ec mode stored real r once h =
    let s = initiate_all (ibv_posts env) q is no_sinks in
    let (done, e, c) =
      poll_lem pushes fuel device ops batch (record { ready = s.ready; completed = []; polls = n })
        wcs ec r h in
    (
      done,
      e,
      c,
      count-completed env (ibv_posts env) q is a done.completed (resolve_all ops wcs) _
          (ibv_posts-Routes env) mode c (ids-resolve_all ops wcs stored real) once,
    )
