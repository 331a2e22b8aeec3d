-- ===== src/Nd/QueuePair/Routed.antt =====
-- The posts of nd/detail/nd_service_verbs.hpp route operations as those of the other backend, so that what
-- QueuePair.Conservation states holds of both.
use rdma_on_asio.Base.{ℕ, ◌+◌, map, refl, [], ◌≡◌, ◌∙◌, ap, List, ◌∷◌}
use rdma_on_asio.Memory.{RemoteAddr}
use rdma_on_asio.Verbs.{PostEnv, VerbsOp, WorkRequest, Posted}
use rdma_on_asio.Nd.Verbs.Agreement.{Agree, posts-Agree}
use rdma_on_asio.QueuePair.{QpObject, Sinks, ibv_posts}
use rdma_on_asio.QueuePair.Conservation.{
  Initiation, send, recv, read, write, initiate, address, count, held, initiate_all,
  held-initiate_all, Routes, Routed, ibv_posts-Routes,
}
use rdma_on_asio.Nd.QueuePair.{
  NdQueuePair, nd_posts, object_of, async_send, async_recv, async_read, async_write,
}

Agree-Routed :
    (env : PostEnv) (op : VerbsOp) (calls : List WorkRequest) (r s : Posted)
    → Agree r s
    → Routed env op calls s
    → Routed env op calls r
Agree-Routed env op calls r s a (i, o) = (a.same_id ∙ i, rw (a.same_calls, a.same_immediate) o)

abbrev nowhere : RemoteAddr
nowhere = record { addr = 0; token = 0 }

pub nd_posts-Routes : (env : PostEnv) → Routes env (nd_posts env)
nd_posts-Routes env = record {
  send = λ c bs op calls.
      Agree-Routed env op calls _ _ (posts-Agree env c bs op calls nowhere).0
        ((ibv_posts-Routes env).send c bs op calls);
  recv = λ c bs op calls.
      Agree-Routed env op calls _ _ (posts-Agree env c bs op calls nowhere).1
        ((ibv_posts-Routes env).recv c bs op calls);
  read = λ c ra bs op calls.
      Agree-Routed env op calls _ _ (posts-Agree env c bs op calls ra).2
        ((ibv_posts-Routes env).read c ra bs op calls);
  write = λ c ra bs op calls.
      Agree-Routed env op calls _ _ (posts-Agree env c bs op calls ra).3
        ((ibv_posts-Routes env).write c ra bs op calls);
}

-- A program on a queue pair of this backend.
abbrev initiate_nd : PostEnv → NdQueuePair → Initiation → Sinks → Sinks
initiate_nd env q (send bs id) s = async_send env q bs id s
initiate_nd env q (recv bs id) s = async_recv env q bs id s
initiate_nd env q (read bs ra id) s = async_read env q bs ra id s
initiate_nd env q (write bs ra id) s = async_write env q bs ra id s

initiate_nd_lem :
    (env : PostEnv) (q : NdQueuePair) (i : Initiation) (s : Sinks)
    → initiate_nd env q i s ≡ initiate (nd_posts env) (object_of q) i s
unfolding async_send async_recv async_read async_write
initiate_nd_lem env q (send bs id) s = refl
initiate_nd_lem env q (recv bs id) s = refl
initiate_nd_lem env q (read bs ra id) s = refl
initiate_nd_lem env q (write bs ra id) s = refl

unfoldable pub initiate_all_nd : PostEnv → NdQueuePair → List Initiation → Sinks → Sinks
initiate_all_nd env q [] s = s
initiate_all_nd env q (i ∷ is) s = initiate_all_nd env q is (initiate_nd env q i s)

pub initiate_all_nd_lem :
    (env : PostEnv) (q : NdQueuePair) (is : List Initiation) (s : Sinks)
    → initiate_all_nd env q is s ≡ initiate_all (nd_posts env) (object_of q) is s
unfolding initiate_all_nd initiate_all
initiate_all_nd_lem env q [] s = refl
initiate_all_nd_lem env q (i ∷ is) s =
    initiate_all_nd_lem env q is (initiate_nd env q i s)
    ∙ ap (λ (t : Sinks). initiate_all (nd_posts env) (object_of q) is t) (initiate_nd_lem env q i s)

-- Every operation that a program initiates on a queue pair of either backend, in either mode, is in
-- exactly one place: the ready queue, the scheduler's, or the device, which has taken its request.
pub held-backends :
    (env : PostEnv) (q : QpObject) (q' : NdQueuePair) (is : List Initiation) (s : Sinks) (a : ℕ)
    → (held env a (initiate_all (ibv_posts env) q is s) ≡ count a (map address is) + held env a s)
      × (held env a (initiate_all_nd env q' is s) ≡ count a (map address is) + held env a s)
held-backends env q q' is s a = (
  held-initiate_all env (ibv_posts env) (ibv_posts-Routes env) q a is s,
  ap (λ (t : Sinks). held env a t) (initiate_all_nd_lem env q' is s)
      ∙ held-initiate_all env (nd_posts env) (nd_posts-Routes env) (object_of q') a is s,
)
