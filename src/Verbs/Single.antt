-- ===== src/Verbs/Single.antt =====
-- The short path of the posts of ibv/detail/ibv_service_verbs.hpp, for one buffer, against the general
-- path.
use rdma_on_asio.Base.{ℕ, ◌≡◌, Bool, List, [], ◌∷◌, arith}
use rdma_on_asio.Memory.{Buffer}
use rdma_on_asio.Sglist.{new, clear, append, append_uninitialized, uses_heap}
use rdma_on_asio.Sglist.Builder.{Sge, build_native_sglist, build_loop}
use rdma_on_asio.Verbs.{
  WorkRequest, PostEnv, VerbsOp, single, sequence, do_post, exceeds_sge_limit, exceeds_buffer_limit,
}

-- The short path for one buffer posts, and completes, exactly as the general path does for the sequence
-- of that buffer alone, whatever the limits and the buffer are.
pub do_post-single_sequence :
    (env : PostEnv) (limit : ℕ) (sets : Bool) (request : List Sge → WorkRequest) (b : Buffer)
    (op : VerbsOp) (calls : List WorkRequest)
    → do_post env limit sets request (single b) op calls
      ≡ do_post env limit sets request (sequence (b ∷ [])) op calls
unfolding do_post exceeds_sge_limit exceeds_buffer_limit build_native_sglist build_loop new clear
    append append_uninitialized uses_heap
do_post-single_sequence env limit sets request b op calls = ground arith
