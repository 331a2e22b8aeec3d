-- ===== src/Nd/QueuePair/Completed.antt =====
-- From the initiation of operations on a queue pair of nd/nd_queue_pair.hpp in poll mode to the poll of
-- nd/impl/nd_completion_queue.ipp that completes them.
use rdma_on_asio.Base.{
  ◌∙◌, ap, ℕ, ◌+◌, ◌<◌, ◌≡◌, refl, false, none, some, List, [], ◌∷◌, ◌++◌, map, arith, ◌==◌, length,
  All,
}
use rdma_on_asio.Verbs.{PostEnv, VerbsOp}
use rdma_on_asio.Completion.{Queue}
use rdma_on_asio.Nd.Verbs.{NdWc, Results, stamp, resolve_wc, resolve_batch}
use rdma_on_asio.Nd.Queue.{RunsDry, poll, poll-RunsDry}
use rdma_on_asio.QueuePair.{Sinks}
use rdma_on_asio.QueuePair.Conservation.{Initiation, address, count, ids, outstanding}
use rdma_on_asio.QueuePair.Completed.{no_sinks, count-completed}
use rdma_on_asio.Nd.QueuePair.{NdQueuePair, nd_posts, object_of}
use rdma_on_asio.Nd.QueuePair.Routed.{nd_posts-Routes, initiate_all_nd, initiate_all_nd_lem}

id-stamp : (wc : NdWc) (op : VerbsOp) → (stamp wc op).id ≡ op.id
unfolding stamp
id-stamp wc op = ground arith

ids-resolve_batch :
    (ops : ℕ → VerbsOp) (wcs : List NdWc)
    → ((x : ℕ) → (ops x).id ≡ x)
    → All (λ wc. (wc.request_context == 0) ≡ false) wcs
    → ids (resolve_batch ops wcs) ≡ map (λ wc. wc.request_context) wcs
unfolding resolve_batch resolve_wc
ids-resolve_batch ops [] h n = refl
ids-resolve_batch ops (wc ∷ wcs) h n = ground (
  arith,
  n.0,
  id-stamp wc (ops wc.request_context),
  h wc.request_context,
  ids-resolve_batch ops wcs h n.1,
)

-- In poll mode every operation that a program initiates on a queue pair of this backend is completed, once
-- and by the next poll: where the device completes each request that it has taken once and then runs dry,
-- the poll ends on more fuel than there are results; those that needed no request complete first, then the
-- others in the order of the device's results, and the operations completed are those initiated.
pub poll-initiate_all_nd :
    (env : PostEnv) (q : NdQueuePair) (is : List Initiation) (pushes : VerbsOp → List VerbsOp)
    (results : Results) (ops : ℕ → VerbsOp) (batch fuel n a : ℕ) (wcs : List NdWc)
    → q.io_ctx ≡ none
    → ((x : ℕ) → (ops x).id ≡ x)
    → All (λ wc. (wc.request_context == 0) ≡ false) wcs
    → RunsDry results batch n wcs
    → count a (map (λ wc. wc.request_context) wcs)
      ≡ count a (outstanding env (initiate_all_nd env q is no_sinks).calls)
    → length wcs < fuel
    → let ready = (initiate_all_nd env q is no_sinks).ready in
      (done : Queue) × (poll pushes fuel results ops batch
          (record { ready = ready; completed = []; polls = n })
        ≡ some (length ready + length wcs, done))
      × (done.completed ≡ ready ++ resolve_batch ops wcs)
      × (count a (ids done.completed) ≡ count a (map address is))
poll-initiate_all_nd env q is pushes results ops batch fuel n a wcs mode stored real r once h =
    let s = initiate_all_nd env q is no_sinks in
    let p = initiate_all_nd_lem env q is no_sinks in
    let (done, e, c) =
      poll-RunsDry pushes fuel results ops batch
        (record { ready = s.ready; completed = []; polls = n }) wcs r h in
    (
      done,
      e,
      c,
      count-completed env (nd_posts env) (object_of q) is a done.completed (resolve_batch ops wcs) _
          (nd_posts-Routes env) mode (c ∙ ap (λ (t : Sinks). t.ready ++ resolve_batch ops wcs) p)
          (ids-resolve_batch ops wcs stored real)
          (once ∙ ap (λ (t : Sinks). count a (outstanding env t.calls)) p),
    )
