-- ===== src/QueuePair/Conservation.antt =====
-- No operation of a queue pair is lost or doubled (ibv/ibv_queue_pair.hpp, ibv/detail/ibv_service_verbs.hpp):
-- it goes to one sink, and in poll mode a poll completes it.
use rdma_on_asio.Base.{
  ℕ, ◌+◌, ◌≡◌, refl, Bool, true, false, List, [], ◌∷◌, ◌++◌, map, arith, if◌then◌else◌, is_some,
  ◌==◌,
}
use rdma_on_asio.Base.Int.{is_nonzero}
use rdma_on_asio.Memory.{RemoteAddr}
use rdma_on_asio.Config.{Config}
use rdma_on_asio.Sglist.{new}
use rdma_on_asio.Sglist.Builder.{Sge, zero_sge, build_native_sglist, fill_native_sge}
use rdma_on_asio.Verbs.{
  WorkRequest, PostEnv, VerbsOp, Buffers, single, sequence, Posted, do_post, post, do_post_send,
  do_post_recv, do_post_read, do_post_write, entries, posted_bytes, send_request, recv_request,
  rdma_request, rdma_read_wr, rdma_write_wr,
}
use rdma_on_asio.QueuePair.{
  Posts, ibv_posts, Sinks, new_op, QpObject, async_send, async_recv, async_read, async_write,
  finish_poll, finish_event,
}

-- The requests that the device has taken, by the addresses of their operations.
unfoldable pub outstanding : PostEnv → List WorkRequest → List ℕ
outstanding env [] = []
outstanding env (wr ∷ calls) =
    if is_nonzero (env calls wr) then outstanding env calls else wr.wr_id ∷ outstanding env calls

abbrev pub ids : List VerbsOp → List ℕ
ids [] = []
ids (op ∷ ops) = op.id ∷ ids ops

abbrev pub count : ℕ → List ℕ → ℕ
count a [] = 0
count a (x ∷ xs) = (if x == a then 1 else 0) + count a xs

-- What a backend's post leaves: the request with the device, or the operation for a sink.
abbrev pub Routed : PostEnv → VerbsOp → List WorkRequest → Posted → Type 0
Routed env op calls r =
    (r.op.id ≡ op.id)
    × (outstanding env r.calls
        ≡ (if r.immediate then outstanding env calls else op.id ∷ outstanding env calls))

-- The laws that the posts of a backend keep.
pub record Routes (env : PostEnv) (posts : Posts) : Type 0 where
  pub send :
      (c : Config) (bs : Buffers) (op : VerbsOp) (calls : List WorkRequest)
      → Routed env op calls (posts.post_send c bs op calls)
  pub recv :
      (c : Config) (bs : Buffers) (op : VerbsOp) (calls : List WorkRequest)
      → Routed env op calls (posts.post_recv c bs op calls)
  pub read :
      (c : Config) (ra : RemoteAddr) (bs : Buffers) (op : VerbsOp) (calls : List WorkRequest)
      → Routed env op calls (posts.post_read c ra bs op calls)
  pub write :
      (c : Config) (ra : RemoteAddr) (bs : Buffers) (op : VerbsOp) (calls : List WorkRequest)
      → Routed env op calls (posts.post_write c ra bs op calls)

post-Routed :
    (env : PostEnv) (wr : WorkRequest) (op : VerbsOp) (calls : List WorkRequest)
    → wr.wr_id ≡ op.id
    → Routed env op calls (post env wr op calls)
unfolding post outstanding
post-Routed env wr op calls e = ground (arith, e)

do_post-Routed :
    (env : PostEnv) (limit : ℕ) (sets : Bool) (request : List Sge → WorkRequest) (bs : Buffers)
    (op : VerbsOp) (calls : List WorkRequest)
    → ((l : List Sge) → (request l).wr_id ≡ op.id)
    → Routed env op calls (do_post env limit sets request bs op calls)
unfolding do_post outstanding
do_post-Routed env limit sets request (single b) op calls h = ground (
  arith,
  post-Routed env (request (fill_native_sge b ∷ [])) (posted_bytes sets b.length op) calls,
  h (fill_native_sge b ∷ []),
)
do_post-Routed env limit sets request (sequence bs) op calls h =
    let built = build_native_sglist bs (new zero_sge) limit in
    ground (
      arith,
      post-Routed env (request (entries built)) (posted_bytes sets built.0.total_bytes op) calls,
      h (entries built),
    )

pub ibv_posts-Routes : (env : PostEnv) → Routes env (ibv_posts env)
unfolding do_post_send do_post_recv do_post_read do_post_write
ibv_posts-Routes env = record {
  send = λ c bs op calls.
      do_post-Routed env c.max_send_sge true (send_request op) bs op calls (λ l. refl);
  recv = λ c bs op calls.
      do_post-Routed env c.max_recv_sge false (recv_request op) bs op calls (λ l. refl);
  read = λ c ra bs op calls.
      do_post-Routed env c.max_send_sge false (rdma_request rdma_read_wr ra op) bs op calls
        (λ l. refl);
  write = λ c ra bs op calls.
      do_post-Routed env c.max_send_sge true (rdma_request rdma_write_wr ra op) bs op calls
        (λ l. refl);
}

-- An operation that a program initiates, at its address.
pub data Initiation : Type 0 where
  send recv : Buffers → ℕ → Initiation
  read write : Buffers → RemoteAddr → ℕ → Initiation

abbrev pub address : Initiation → ℕ
address (send bs id) = id
address (recv bs id) = id
address (read bs ra id) = id
address (write bs ra id) = id

abbrev pub initiate : Posts → QpObject → Initiation → Sinks → Sinks
initiate posts q (send bs id) s = async_send posts q bs id s
initiate posts q (recv bs id) s = async_recv posts q bs id s
initiate posts q (read bs ra id) s = async_read posts q bs ra id s
initiate posts q (write bs ra id) s = async_write posts q bs ra id s

unfoldable pub initiate_all : Posts → QpObject → List Initiation → Sinks → Sinks
initiate_all posts q [] s = s
initiate_all posts q (i ∷ is) s = initiate_all posts q is (initiate posts q i s)

-- Where an address stands: in the ready queue, with the scheduler, or with the device.
abbrev pub held : PostEnv → ℕ → Sinks → ℕ
held env a s = count a (ids s.ready) + count a (ids s.scheduled) + count a (outstanding env s.calls)

count-ids-snoc :
    (a : ℕ) (ops : List VerbsOp) (op : VerbsOp)
    → count a (ids (ops ++ op ∷ [])) ≡ (if op.id == a then 1 else 0) + count a (ids ops)
count-ids-snoc a [] op = refl
count-ids-snoc a (x ∷ ops) op = omega (arith, count-ids-snoc a ops op)

module _ (env : PostEnv) where
  held-finish_poll :
      (a : ℕ) (op : VerbsOp) (s : Sinks) (r : Posted)
      → Routed env op s.calls r
      → held env a (finish_poll r s) ≡ (if op.id == a then 1 else 0) + held env a s
  unfolding finish_poll
  held-finish_poll a op s r (e, o) = ground (arith, e, o, count-ids-snoc a s.ready r.op)

  held-finish_event :
      (a : ℕ) (op : VerbsOp) (s : Sinks) (r : Posted)
      → Routed env op s.calls r
      → held env a (finish_event r s) ≡ (if op.id == a then 1 else 0) + held env a s
  unfolding finish_event
  held-finish_event a op s r (e, o) = ground (arith, e, o, count-ids-snoc a s.scheduled r.op)

  held-mode :
      (a : ℕ) (event : Bool) (op : VerbsOp) (s : Sinks) (r : Posted)
      → Routed env op s.calls r
      → held env a (if event then finish_event r s else finish_poll r s)
        ≡ (if op.id == a then 1 else 0) + held env a s
  held-mode a true op s r h = held-finish_event a op s r h
  held-mode a false op s r h = held-finish_poll a op s r h

  module _ (posts : Posts) (routes : Routes env posts) (q : QpObject) (a : ℕ) where
    held-initiate :
        (i : Initiation) (s : Sinks)
        → held env a (initiate posts q i s) ≡ (if address i == a then 1 else 0) + held env a s
    unfolding async_send async_recv async_read async_write
    held-initiate (send bs id) s =
        held-mode a (is_some q.io_ctx) (new_op id) s _
          (routes.send q.impl.config bs (new_op id) s.calls)
    held-initiate (recv bs id) s =
        held-mode a (is_some q.io_ctx) (new_op id) s _
          (routes.recv q.impl.config bs (new_op id) s.calls)
    held-initiate (read bs ra id) s =
        held-mode a (is_some q.io_ctx) (new_op id) s _
          (routes.read q.impl.config ra bs (new_op id) s.calls)
    held-initiate (write bs ra id) s =
        held-mode a (is_some q.io_ctx) (new_op id) s _
          (routes.write q.impl.config ra bs (new_op id) s.calls)

    -- Every operation that a program initiates on a queue pair, in either mode, is in exactly one place: the
    -- ready queue, the scheduler's, or the device, which has taken its request.
    pub held-initiate_all :
        (is : List Initiation) (s : Sinks)
        → held env a (initiate_all posts q is s) ≡ count a (map address is) + held env a s
    unfolding initiate_all
    held-initiate_all [] s = omega arith
    held-initiate_all (i ∷ is) s =
        omega (arith, held-initiate i s, held-initiate_all is (initiate posts q i s))
