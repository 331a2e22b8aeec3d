-- ===== src/Nd/Verbs.antt =====
-- nd/detail/nd_service_verbs.hpp, nd/detail/nd_ops_verbs.hpp, and the dispatch of completions in
-- nd/detail/impl/nd_service_io_completion.ipp and nd/impl/nd_completion_queue.ipp. Buffers, requests and
-- the builder of nd/nd_buffer.hpp, which reads as that of ibv/ibv_buffer.hpp, are those of Verbs and
-- Sglist.Builder. An `HRESULT` is what `PostEnv` answers.
pub mod Agreement
use rdma_on_asio.Base.{
  ℕ, zero, suc, Bool, true, false, not, ◌&&◌, Option, none, some, List, [], ◌∷◌, ◌++◌,
  if◌then◌else◌, ◌==◌, length,
}
use rdma_on_asio.Base.Int.{ℤ}
use rdma_on_asio.Error.{ErrorCode, rdma, nd, cleared, is_error, too_many_sge, buffer_too_large}
use rdma_on_asio.Memory.{RemoteAddr}
use rdma_on_asio.Config.{Config}
use rdma_on_asio.Sglist.{new}
use rdma_on_asio.Sglist.Builder.{Sge, zero_sge, fill_native_sge, build_native_sglist}
use rdma_on_asio.Verbs.{
  WorkRequest, PostEnv, VerbsOp, Buffers, single, sequence, Posted, reject, exceeds_sge_limit,
  exceeds_buffer_limit, posted_bytes, entries, send_request, recv_request, rdma_request,
  rdma_read_wr, rdma_write_wr,
}
use rdma_on_asio.Nd.{completion_status_to_error}

-- `post_send`, `post_recv`, `post_read` and `post_write`, and the test of the code behind them.
unfoldable pub post : PostEnv → WorkRequest → VerbsOp → List WorkRequest → Posted
post env wr op calls =
    let e = nd (env calls wr) in
    record { op = record op { ec = e }; calls = wr ∷ calls; immediate = is_error e }

-- The common body of the four `do_post_*`.
unfoldable pub do_post :
    PostEnv → ℕ → Bool → (List Sge → WorkRequest) → Buffers → VerbsOp → List WorkRequest → Posted
unfolding exceeds_sge_limit exceeds_buffer_limit post build_native_sglist new
do_post env limit sets_bytes request (single b) op calls =
    if b.length == 0
    then record { op = op; calls = calls; immediate = true }
    else if exceeds_sge_limit 1 limit
    then reject op (rdma too_many_sge) calls
    else if exceeds_buffer_limit b.length
    then reject op (rdma buffer_too_large) calls
    else post env (request (fill_native_sge b ∷ [])) (posted_bytes sets_bytes b.length op) calls
do_post env limit sets_bytes request (sequence bs) op calls =
    let built = build_native_sglist bs (new zero_sge) limit in
    if built.0.too_many_sge
    then reject op (rdma too_many_sge) calls
    else if built.0.buffer_too_large
    then reject op (rdma buffer_too_large) calls
    else if built.0.all_empty
    then record { op = op; calls = calls; immediate = true }
    else post env (request (entries built)) (posted_bytes sets_bytes built.0.total_bytes op) calls

unfoldable pub do_post_send : PostEnv → Config → Buffers → VerbsOp → List WorkRequest → Posted
unfolding do_post
do_post_send env config bs op = do_post env config.max_send_sge true (send_request op) bs op

unfoldable pub do_post_recv : PostEnv → Config → Buffers → VerbsOp → List WorkRequest → Posted
unfolding do_post
do_post_recv env config bs op = do_post env config.max_recv_sge false (recv_request op) bs op

unfoldable pub do_post_read :
    PostEnv → Config → RemoteAddr → Buffers → VerbsOp → List WorkRequest → Posted
unfolding do_post
do_post_read env config ra bs op =
    do_post env config.max_send_sge false (rdma_request rdma_read_wr ra op) bs op

unfoldable pub do_post_write :
    PostEnv → Config → RemoteAddr → Buffers → VerbsOp → List WorkRequest → Posted
unfolding do_post
do_post_write env config ra bs op =
    do_post env config.max_send_sge true (rdma_request rdma_write_wr ra op) bs op

-- `ND2_REQUEST_TYPE`: those that are told apart, and the others.
pub data RequestType : Type 0 where
  type_send type_write type_read type_receive : RequestType
  type_other : ℕ → RequestType

-- `ND2_RESULT`: the fields that are read.
pub record NdWc : Type 0 where
  pub request_context : ℕ
  pub status : ℤ
  pub request_type : RequestType
  pub bytes_transferred : ℕ

-- `RequestType != Nd2RequestTypeSend && RequestType != Nd2RequestTypeWrite`
abbrev pub reports_bytes : RequestType → Bool
reports_bytes type_send = false
reports_bytes type_write = false
reports_bytes type_read = true
reports_bytes type_receive = true
reports_bytes (type_other n) = true

-- The code and the bytes that a result stamps on its operation.
unfoldable pub stamp : NdWc → VerbsOp → VerbsOp
unfolding completion_status_to_error
stamp wc op =
    let e = completion_status_to_error wc.status in
    if is_error e
    then record op { ec = e; bytes_transferred = 0 }
    else if reports_bytes wc.request_type
    then record op { ec = e; bytes_transferred = wc.bytes_transferred }
    else record op { ec = e }

-- The operation at the address of the request's context, or null.
unfoldable pub resolve_wc : (ℕ → VerbsOp) → NdWc → Option VerbsOp
unfolding stamp
resolve_wc ops wc =
    if wc.request_context == 0 then none else some (stamp wc (ops wc.request_context))

unfoldable pub resolve_batch : (ℕ → VerbsOp) → List NdWc → List VerbsOp
unfolding resolve_wc
resolve_batch ops [] = []
resolve_batch ops (wc ∷ wcs) = elim (resolve_wc ops wc) [
  | none ↦ resolve_batch ops wcs
  | some op ↦ op ∷ resolve_batch ops wcs
]

-- `GetResults` at its n-th call, for at most so many results; it does not fail.
abbrev pub Results : Type 0
Results = ℕ → ℕ → List NdWc

-- The loop of `poll_and_dispatch`, at most so many batches from the n-th call on: what it completes.
unfoldable pub poll_and_dispatch : ℕ → Results → (ℕ → VerbsOp) → ℕ → ℕ → List VerbsOp × ℕ
unfolding resolve_batch
poll_and_dispatch zero results ops batch polls = ([], polls)
poll_and_dispatch (suc batches) results ops batch polls =
    let (rest, polls') = poll_and_dispatch batches results ops batch (suc polls) in
    if length (results polls batch) == batch
    then (resolve_batch ops (results polls batch) ++ rest, polls')
    else (resolve_batch ops (results polls batch), suc polls)
