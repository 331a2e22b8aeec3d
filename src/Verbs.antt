-- ===== src/Verbs.antt =====
-- The data plane: detail/rdma_verbs_op.hpp, ibv/detail/ibv_ops_verbs.hpp (the post wrappers),
-- ibv/detail/ibv_service_verbs.hpp and impl/ibv_op_complete.ipp. The verbs library is a parameter.
pub mod Post
pub mod Single
use rdma_on_asio.Base.{
  ℕ, zero, suc, ◌%◌, ◌^◌, Bool, true, false, not, ◌&&◌, List, [], ◌∷◌, Option, none, some,
  if◌then◌else◌, ◌==◌, ltb, take,
}
use rdma_on_asio.Base.Int.{ℤ, pos, is_nonzero}
use rdma_on_asio.Error.{
  ErrorCode, system, rdma, asio, cleared, is_error, too_many_sge, buffer_too_large,
  operation_aborted, connection_reset, invalid_device,
}
use rdma_on_asio.Memory.{Buffer, RemoteAddr, word_max}
use rdma_on_asio.Config.{Config}
use rdma_on_asio.Sglist.{Sglist, cells_at, new}
use rdma_on_asio.Sglist.Builder.{Sge, zero_sge, fill_native_sge, Built, build_native_sglist}

-- `ibv_wr_opcode`, and a receive.
pub data WrOpcode : Type 0 where
  recv_wr send_wr rdma_read_wr rdma_write_wr : WrOpcode

-- What a post hands to the device; the entries are read during the call. A send is always signaled.
pub record WorkRequest : Type 0 where
  pub opcode : WrOpcode
  pub wr_id : ℕ
  pub sg_list : List Sge
  pub remote_addr : ℕ
  pub rkey : ℕ

-- `ibv_post_send` and `ibv_post_recv`: the return code after the calls made so far, newest first.
abbrev pub PostEnv : Type 0
PostEnv = List WorkRequest → WorkRequest → ℤ

-- `rdma_verbs_op_base`: its address is `id`.
pub record VerbsOp : Type 0 where
  pub id : ℕ
  pub ec : ErrorCode
  pub bytes_transferred : ℕ

-- A buffer sequence: one buffer, taken by the short path, or a range of them.
pub data Buffers : Type 0 where
  single : Buffer → Buffers
  sequence : List Buffer → Buffers

abbrev pub as_list : Buffers → List Buffer
as_list (single b) = b ∷ []
as_list (sequence bs) = bs

-- The operation, the calls made, and whether it needs the immediate-completion sink.
pub record Posted : Type 0 where
  pub op : VerbsOp
  pub calls : List WorkRequest
  pub immediate : Bool

abbrev pub reject : VerbsOp → ErrorCode → List WorkRequest → Posted
reject op e calls = record { op = record op { ec = e }; calls = calls; immediate = true }

-- `int rc = ibv_post_...; if (rc) ec = make_system_error_code(rc); else ec.clear();`, and the
-- `return static_cast<bool>(op->ec_)` behind it.
unfoldable pub post : PostEnv → WorkRequest → VerbsOp → List WorkRequest → Posted
post env wr op calls =
    let rc = env calls wr in
    let e = if is_nonzero rc then system rc else cleared in
    record { op = record op { ec = e }; calls = wr ∷ calls; immediate = is_error e }

-- `exceeds_sge_limit`
unfoldable pub exceeds_sge_limit : ℕ → ℕ → Bool
exceeds_sge_limit sge_count sge_max = not (sge_max == 0) && ltb sge_max sge_count

-- `exceeds_buffer_limit`
unfoldable pub exceeds_buffer_limit : ℕ → Bool
exceeds_buffer_limit length = ltb 4294967295 length

-- `op->set_posted_bytes(bytes)`, which receives and reads leave to the completion.
abbrev pub posted_bytes : Bool → ℕ → VerbsOp → VerbsOp
posted_bytes true bytes op = record op { bytes_transferred = bytes }
posted_bytes false bytes op = op

-- The entries that a device reads at `built.data`, `built.count` of them.
abbrev pub entries : Built × Sglist Sge → List Sge
entries (b, s) = take b.count (cells_at s b.data_ptr)

-- The common body of the four `do_post_*`: the limit on entries, whether the bytes are known at the
-- post, and the request for a list of entries.
unfoldable pub do_post :
    PostEnv → ℕ → Bool → (List Sge → WorkRequest) → Buffers → VerbsOp → List WorkRequest → Posted
unfolding exceeds_sge_limit exceeds_buffer_limit post build_native_sglist new
do_post env limit sets_bytes request (single b) op calls =
    if b.length == 0
    then record { op = op; calls = calls; immediate = true }
    else if exceeds_sge_limit 1 limit
    then reject op (rdma too_many_sge) calls
    else if exceeds_buffer_limit b.length
    then reject op (rdma buffer_too_large) calls
    else post env (request (fill_native_sge b ∷ [])) (posted_bytes sets_bytes b.length op) calls
do_post env limit sets_bytes request (sequence bs) op calls =
    let built = build_native_sglist bs (new zero_sge) limit in
    if built.0.too_many_sge
    then reject op (rdma too_many_sge) calls
    else if built.0.buffer_too_large
    then reject op (rdma buffer_too_large) calls
    else if built.0.all_empty
    then record { op = op; calls = calls; immediate = true }
    else post env (request (entries built)) (posted_bytes sets_bytes built.0.total_bytes op) calls

-- `post_send`
abbrev pub send_request : VerbsOp → List Sge → WorkRequest
send_request op l = record {
  opcode = send_wr;
  wr_id = op.id;
  sg_list = l;
  remote_addr = 0;
  rkey = 0;
}

-- `post_recv`
abbrev pub recv_request : VerbsOp → List Sge → WorkRequest
recv_request op l = record {
  opcode = recv_wr;
  wr_id = op.id;
  sg_list = l;
  remote_addr = 0;
  rkey = 0;
}

-- `post_rdma`
abbrev pub rdma_request : WrOpcode → RemoteAddr → VerbsOp → List Sge → WorkRequest
rdma_request opcode ra op l = record {
  opcode = opcode;
  wr_id = op.id;
  sg_list = l;
  remote_addr = ra.addr;
  rkey = ra.token;
}

unfoldable pub do_post_send : PostEnv → Config → Buffers → VerbsOp → List WorkRequest → Posted
unfolding do_post
do_post_send env config bs op = do_post env config.max_send_sge true (send_request op) bs op

unfoldable pub do_post_recv : PostEnv → Config → Buffers → VerbsOp → List WorkRequest → Posted
unfolding do_post
do_post_recv env config bs op = do_post env config.max_recv_sge false (recv_request op) bs op

unfoldable pub do_post_read :
    PostEnv → Config → RemoteAddr → Buffers → VerbsOp → List WorkRequest → Posted
unfolding do_post
do_post_read env config ra bs op =
    do_post env config.max_send_sge false (rdma_request rdma_read_wr ra op) bs op

unfoldable pub do_post_write :
    PostEnv → Config → RemoteAddr → Buffers → VerbsOp → List WorkRequest → Posted
unfolding do_post
do_post_write env config ra bs op =
    do_post env config.max_send_sge true (rdma_request rdma_write_wr ra op) bs op
