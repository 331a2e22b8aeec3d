-- ===== src/Verbs/Post.antt =====
-- What the four posts of ibv/detail/ibv_service_verbs.hpp hand to the device, and when they do.
use rdma_on_asio.Base.{
  ℕ, ◌≡◌, ◌⊎◌, inl, inr, refl, sym, ap, ◌∙◌, Bool, true, false, subst, if◌then◌else◌, List, [], ◌∷◌,
  map, arith, length, take, replicate, zero, suc, ltb, Bool-cases, ◌==◌,
}
use rdma_on_asio.Base.Int.{is_nonzero}
use rdma_on_asio.Error.{system, cleared, rdma, too_many_sge, buffer_too_large}
use rdma_on_asio.Memory.{Buffer, RemoteAddr}
use rdma_on_asio.Config.{Config}
use rdma_on_asio.Sglist.{Sglist, to_list, cells_at, new, inline_sge_count}
use rdma_on_asio.Sglist.Builder.{Sge, zero_sge, Built, build_native_sglist}
use rdma_on_asio.Sglist.Built.{
  Fits, exact_sge, total_length, all_zero, build_native_sglist-IsAccepted_iff,
  build_native_sglist-Fits,
}
use rdma_on_asio.Verbs.{
  WrOpcode, send_wr, recv_wr, WorkRequest, PostEnv, VerbsOp, Buffers, single, sequence, as_list,
  Posted, post, do_post, entries, do_post_send, do_post_recv, do_post_read, do_post_write,
  send_request, recv_request, rdma_request, rdma_read_wr, rdma_write_wr, posted_bytes,
  exceeds_sge_limit, exceeds_buffer_limit,
}

-- The verdict on a post: the request goes out whole, exactly once, or not at all.
pub data Verdict (env : PostEnv) (limit : ℕ) (sets_bytes : Bool) (request : WorkRequest)
    (bs : List Buffer) (op : VerbsOp) (calls : List WorkRequest) (r : Posted) : Type 0 where
  -- Over a limit: nothing is posted, and the operation completes at once with the error.
  refused :
      (Fits limit bs → ⊥)
      → r.calls ≡ calls
      → r.immediate ≡ true
      → (r.op.ec ≡ rdma too_many_sge) ⊎ (r.op.ec ≡ rdma buffer_too_large)
      → Verdict env limit sets_bytes request bs op calls r
  -- Nothing to transfer: nothing is posted, and the operation completes at once as it was made.
  empty :
      Fits limit bs
      → all_zero bs ≡ true
      → r ≡ record { op = op; calls = calls; immediate = true }
      → Verdict env limit sets_bytes request bs op calls r
  -- The device is called once, with the request; the operation completes at once only if the device
  -- refused it, with the code it gave.
  posted :
      Fits limit bs
      → all_zero bs ≡ false
      → r.calls ≡ request ∷ calls
      → r.immediate ≡ is_nonzero (env calls request)
      → r.op.id ≡ op.id
      → r.op.ec ≡ (if is_nonzero (env calls request) then system (env calls request) else cleared)
      → r.op.bytes_transferred ≡ (if sets_bytes then total_length bs else op.bytes_transferred)
      → Verdict env limit sets_bytes request bs op calls r

module _ {ℓ} {A : Type ℓ} where
  -- Reading as many cells as there are in a prefix gives the prefix.
  take-length-take : (n : ℕ) (xs : List A) → take (length (take n xs)) xs ≡ take n xs
  take-length-take zero xs = refl
  take-length-take (suc n) [] = refl
  take-length-take (suc n) (x ∷ xs) = ap (◌∷◌ x) (take-length-take n xs)

length-map : {A B : Type 0} (f : A → B) (xs : List A) → length (map f xs) ≡ length xs
length-map f [] = refl
length-map f (x ∷ xs) = ap suc (length-map f xs)

-- A list of one entry for each buffer is read whole.
entries-whole :
    (b : Built) (t : Sglist Sge) (l : List Sge)
    → to_list t ≡ l
    → b.data_ptr ≡ t.data_ptr
    → b.count ≡ length l
    → entries (b, t) ≡ l
entries-whole b t l h p n = rw (p, n, sym h) (take-length-take t.size (cells_at t t.data_ptr))

-- What a sequence within the limits is built into, from a fresh list.
built-Fits :
    (bs : List Buffer) (limit : ℕ)
    → Fits limit bs
    → let r = build_native_sglist bs (new zero_sge) limit in
      (entries r ≡ map exact_sge bs)
      × (r.0.total_bytes ≡ total_length bs)
      × (r.0.all_empty ≡ all_zero bs)
unfolding new
built-Fits bs limit h =
    let (whole, p, n, t, z) =
      build_native_sglist-Fits bs (replicate inline_sge_count zero_sge) limit refl h in
    (
      entries-whole (build_native_sglist bs (new zero_sge) limit).0
          (build_native_sglist bs (new zero_sge) limit).1 (map exact_sge bs) whole p
          (n ∙ sym (length-map exact_sge bs)),
      t,
      z,
    )

-- What `post` makes of an operation that is given its bytes, or not.
post-Verdict :
    (env : PostEnv) (limit : ℕ) (sets : Bool) (request : WorkRequest) (bs : List Buffer)
    (op : VerbsOp) (calls : List WorkRequest)
    → Fits limit bs
    → all_zero bs ≡ false
    → Verdict env limit sets request bs op calls
        (post env request (posted_bytes sets (total_length bs) op) calls)
unfolding post
post-Verdict env limit true request bs op calls f z =
    posted f z (ground arith) (ground arith) refl refl refl
post-Verdict env limit false request bs op calls f z =
    posted f z (ground arith) (ground arith) refl refl refl

do_post-single :
    (env : PostEnv) (limit : ℕ) (sets : Bool) (request : List Sge → WorkRequest) (b : Buffer)
    (op : VerbsOp) (calls : List WorkRequest)
    → Verdict env limit sets
        (request (exact_sge b ∷ []))
        (b ∷ [])
        op
        calls
        (do_post env limit sets request (single b) op calls)
unfolding do_post exceeds_sge_limit exceeds_buffer_limit
do_post-single env limit sets request b op calls = elim (Bool-cases (b.length == 0)) [
  | inl z ↦ empty (ground arith) (ground arith) (rw z refl)
  | inr z ↦ elim (Bool-cases (ltb 4294967295 b.length)) [
    | inl l ↦ refused (ground arith) (ground arith) (ground arith) (ground arith)
    | inr l ↦ elim (Bool-cases (exceeds_sge_limit 1 limit)) [
      | inl x ↦ refused (ground arith) (ground arith) (ground arith) (ground arith)
      | inr x ↦
          subst (Verdict env limit sets (request (exact_sge b ∷ [])) (b ∷ []) op calls)
            (ground arith)
            (post-Verdict env limit sets (request (exact_sge b ∷ [])) (b ∷ []) op calls
              (ground arith) (ground arith))
    ]
  ]
]

do_post-sequence :
    (env : PostEnv) (limit : ℕ) (sets : Bool) (request : List Sge → WorkRequest) (bs : List Buffer)
    (op : VerbsOp) (calls : List WorkRequest)
    → Verdict env limit sets
        (request (map exact_sge bs))
        bs
        op
        calls
        (do_post env limit sets request (sequence bs) op calls)
unfolding do_post
do_post-sequence env limit sets request bs op calls =
    let built = build_native_sglist bs (new zero_sge) limit in
    let (to, from) = build_native_sglist-IsAccepted_iff bs (new zero_sge) limit in
    elim (Bool-cases built.0.too_many_sge) [
      | inl t ↦ refused (λ f. ground (arith, from f)) (rw t refl) (rw t refl) (inl (rw t refl))
      | inr t ↦ elim (Bool-cases built.0.buffer_too_large) [
        | inl l ↦
            refused (λ f. ground (arith, from f)) (rw (t, l) refl) (rw (t, l) refl)
              (inr (rw (t, l) refl))
        | inr l ↦
            let fits = to (t, l) in
            let (whole, bytes, zeros) = built-Fits bs limit fits in
            elim (Bool-cases built.0.all_empty) [
              | inl z ↦ empty fits (sym zeros ∙ z) (rw (t, l, z) refl)
              | inr z ↦
                  rw (t, l, z, whole, bytes)
                    (post-Verdict env limit sets (request (map exact_sge bs)) bs op calls fits
                      (sym zeros ∙ z))
            ]
      ]
    ]

pub do_post-Verdict :
    (env : PostEnv) (limit : ℕ) (sets : Bool) (request : List Sge → WorkRequest) (bs : Buffers)
    (op : VerbsOp) (calls : List WorkRequest)
    → Verdict env limit sets
        (request (map exact_sge (as_list bs)))
        (as_list bs)
        op
        calls
        (do_post env limit sets request bs op calls)
do_post-Verdict env limit sets request (single b) op calls =
    do_post-single env limit sets request b op calls
do_post-Verdict env limit sets request (sequence bs) op calls =
    do_post-sequence env limit sets request bs op calls

-- The request that the device is to be called with: the operation's address, one entry for each buffer in
-- order, with its address, its length and its key, and the remote memory that it names.
abbrev pub wanted : WrOpcode → RemoteAddr → VerbsOp → Buffers → WorkRequest
wanted opcode ra op bs = record {
  opcode = opcode;
  wr_id = op.id;
  sg_list = map exact_sge (as_list bs);
  remote_addr = ra.addr;
  rkey = ra.token;
}

-- No remote memory.
abbrev pub local : RemoteAddr
local = record { addr = 0; token = 0 }

module _ (env : PostEnv) (config : Config) (bs : Buffers) (op : VerbsOp)
    (calls : List WorkRequest) where
  -- A send puts all its buffers, untruncated and in order, into one request, or is refused for a limit
  -- of the configuration with nothing posted, or transfers nothing; the bytes are those of the buffers.
  pub do_post_send-Verdict :
      Verdict env config.max_send_sge true
        (wanted send_wr local op bs)
        (as_list bs)
        op
        calls
        (do_post_send env config bs op calls)
  unfolding do_post_send
  do_post_send-Verdict = do_post-Verdict env config.max_send_sge true (send_request op) bs op calls

  -- A receive does the same under the limit on entries of a receive; its bytes are left to the
  -- completion.
  pub do_post_recv-Verdict :
      Verdict env config.max_recv_sge false
        (wanted recv_wr local op bs)
        (as_list bs)
        op
        calls
        (do_post_recv env config bs op calls)
  unfolding do_post_recv
  do_post_recv-Verdict = do_post-Verdict env config.max_recv_sge false (recv_request op) bs op calls

  -- A read does the same with the remote address and its key in the request; its bytes are left to the
  -- completion.
  pub do_post_read-Verdict :
      (ra : RemoteAddr)
      → Verdict env config.max_send_sge false
          (wanted rdma_read_wr ra op bs)
          (as_list bs)
          op
          calls
          (do_post_read env config ra bs op calls)
  unfolding do_post_read
  do_post_read-Verdict ra =
      do_post-Verdict env config.max_send_sge false (rdma_request rdma_read_wr ra op) bs op calls

  -- A write does the same with the remote address and its key in the request; the bytes are those of
  -- the buffers.
  pub do_post_write-Verdict :
      (ra : RemoteAddr)
      → Verdict env config.max_send_sge true
          (wanted rdma_write_wr ra op bs)
          (as_list bs)
          op
          calls
          (do_post_write env config ra bs op calls)
  unfolding do_post_write
  do_post_write-Verdict ra =
      do_post-Verdict env config.max_send_sge true (rdma_request rdma_write_wr ra op) bs op calls

  -- Each post ends in one of three ways: refused before the device is called, over the limit on
  -- entries of its direction or on a buffer's size; completed at once, its bytes all zero; or
  -- handed to the device once, under its own address and with one exact entry for each of its
  -- buffers in order; the code is then the device's, and only a refused request completes at once.
  -- A send is under the limit on entries of a send, a receive under that of a receive; a read and a
  -- write carry the remote address and its key; the operation of a send or a write is given the
  -- bytes of its buffers, that of a receive or a read is left to the completion.
  pub posts-Verdict :
      (ra : RemoteAddr)
      → Verdict env config.max_send_sge true
          (wanted send_wr local op bs)
          (as_list bs)
          op
          calls
          (do_post_send env config bs op calls)
        × Verdict env config.max_recv_sge false
            (wanted recv_wr local op bs)
            (as_list bs)
            op
            calls
            (do_post_recv env config bs op calls)
        × Verdict env config.max_send_sge false
            (wanted rdma_read_wr ra op bs)
            (as_list bs)
            op
            calls
            (do_post_read env config ra bs op calls)
        × Verdict env config.max_send_sge true
            (wanted rdma_write_wr ra op bs)
            (as_list bs)
            op
            calls
            (do_post_write env config ra bs op calls)
  posts-Verdict ra = (
    do_post_send-Verdict,
    do_post_recv-Verdict,
    do_post_read-Verdict ra,
    do_post_write-Verdict ra,
  )
