-- ===== src/Nd/Verbs/Agreement.antt =====
-- nd/detail/nd_service_verbs.hpp against ibv/detail/ibv_service_verbs.hpp: the two backends' posts.
use rdma_on_asio.Base.{ℕ, ◌≡◌, refl, Bool, true, false, List, arith, ◌==◌, if◌then◌else◌}
use rdma_on_asio.Memory.{RemoteAddr}
use rdma_on_asio.Config.{Config}
use rdma_on_asio.Sglist.Builder.{Sge, zero_sge, build_native_sglist}
use rdma_on_asio.Sglist.{new}
use rdma_on_asio.Verbs
use rdma_on_asio.Verbs.{
  WorkRequest, PostEnv, VerbsOp, Buffers, single, sequence, Posted, send_request, recv_request,
  rdma_request, rdma_read_wr, rdma_write_wr, exceeds_sge_limit, exceeds_buffer_limit, posted_bytes,
}
use rdma_on_asio.Nd.Verbs.{post, do_post, do_post_send, do_post_recv, do_post_read, do_post_write}

-- The same requests, the same bytes known at the post, and the same need of an immediate completion.
pub record Agree (r s : Posted) : Type 0 where
  pub same_calls : r.calls ≡ s.calls
  pub same_immediate : r.immediate ≡ s.immediate
  pub same_bytes : r.op.bytes_transferred ≡ s.op.bytes_transferred
  pub same_id : r.op.id ≡ s.op.id

refl_Agree : {r : Posted} → Agree r r
refl_Agree = record { same_calls = refl; same_immediate = refl; same_bytes = refl; same_id = refl }

post-Agree :
    (env : PostEnv) (wr : WorkRequest) (op : VerbsOp) (calls : List WorkRequest)
    → Agree (post env wr op calls) (Verbs.post env wr op calls)
unfolding post Verbs.post
post-Agree env wr op calls = record {
  same_calls = refl;
  same_immediate = ground arith;
  same_bytes = refl;
  same_id = refl;
}

-- Two conditionals on one test agree where their branches do.
if_Agree :
    (b : Bool) {r s r' s' : Posted}
    → Agree r r'
    → Agree s s'
    → Agree (if b then r else s) (if b then r' else s')
if_Agree true h k = h
if_Agree false h k = k

do_post-Agree :
    (env : PostEnv) (limit : ℕ) (sets : Bool) (request : List Sge → WorkRequest) (bs : Buffers)
    (op : VerbsOp) (calls : List WorkRequest)
    → Agree
        (do_post env limit sets request bs op calls)
        (Verbs.do_post env limit sets request bs op calls)
unfolding do_post Verbs.do_post
do_post-Agree env limit sets request (single b) op calls = if_Agree (b.length == 0) refl_Agree (
    if_Agree (exceeds_sge_limit 1 limit) refl_Agree (
      if_Agree (exceeds_buffer_limit b.length) refl_Agree
        (post-Agree env _ (posted_bytes sets b.length op) calls)))
do_post-Agree env limit sets request (sequence bs) op calls =
    let built = (build_native_sglist bs (new zero_sge) limit).0 in
    if_Agree built.too_many_sge refl_Agree (
      if_Agree built.buffer_too_large refl_Agree (
        if_Agree built.all_empty refl_Agree
          (post-Agree env _ (posted_bytes sets built.total_bytes op) calls)))

-- Where the two devices answer alike, the four posts of the two backends hand over the same requests,
-- complete at once in the same cases, and set the same bytes.
pub posts-Agree :
    (env : PostEnv) (config : Config) (bs : Buffers) (op : VerbsOp) (calls : List WorkRequest)
    (ra : RemoteAddr)
    → Agree (do_post_send env config bs op calls) (Verbs.do_post_send env config bs op calls)
      × Agree (do_post_recv env config bs op calls) (Verbs.do_post_recv env config bs op calls)
      × Agree
          (do_post_read env config ra bs op calls)
          (Verbs.do_post_read env config ra bs op calls)
      × Agree
          (do_post_write env config ra bs op calls)
          (Verbs.do_post_write env config ra bs op calls)
unfolding do_post_send do_post_recv do_post_read do_post_write Verbs.do_post_send Verbs.do_post_recv
    Verbs.do_post_read Verbs.do_post_write
posts-Agree env config bs op calls ra = (
  do_post-Agree env config.max_send_sge true (send_request op) bs op calls,
  do_post-Agree env config.max_recv_sge false (recv_request op) bs op calls,
  do_post-Agree env config.max_send_sge false (rdma_request rdma_read_wr ra op) bs op calls,
  do_post-Agree env config.max_send_sge true (rdma_request rdma_write_wr ra op) bs op calls,
)
