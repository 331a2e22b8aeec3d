-- ===== src/Completion/Bytes.antt =====
-- From a post of ibv/detail/ibv_service_verbs.hpp to the completion that
-- ibv/detail/impl/ibv_op_complete.ipp stamps: what the handler is told.
use rdma_on_asio.Base.{ℕ, ◌≡◌, ◌≢◌, ◌⊎◌, inl, inr, refl, Bool, true, false, List, arith}
use rdma_on_asio.Error.{asio, cleared, operation_aborted, is_error}
use rdma_on_asio.Memory.{RemoteAddr}
use rdma_on_asio.Config.{Config}
use rdma_on_asio.Sglist.Built.{total_length}
use rdma_on_asio.Memory.{Buffer}
use rdma_on_asio.Verbs.{
  send_wr, recv_wr, WorkRequest, PostEnv, VerbsOp, Buffers, as_list, Posted, post, do_post_send,
  do_post_recv, do_post_read, do_post_write, rdma_read_wr, rdma_write_wr,
}
use rdma_on_asio.Verbs.Post.{
  wanted, local, Verdict, refused, empty, posted, do_post_send-Verdict, do_post_recv-Verdict,
  do_post_read-Verdict, do_post_write-Verdict,
}
use rdma_on_asio.Completion.{
  Wc, success, wr_flush_error, wc_send, wc_recv, wc_rdma_read, wc_rdma_write, stamp,
  wc_status_to_ec,
}

-- The handler is told no error and the bytes `n` where the completion succeeded, and an error and no
-- bytes where it did not: operation_aborted for a request that was flushed.
abbrev pub Told : Wc → VerbsOp → ℕ → Type 0
Told wc op n =
    ((wc.status ≡ success) × ((stamp wc op).ec ≡ cleared) × ((stamp wc op).bytes_transferred ≡ n))
    ⊎ ((wc.status ≢ success)
        × (is_error (stamp wc op).ec ≡ true)
        × ((stamp wc op).bytes_transferred ≡ 0)
        × ((wc.status ≢ wr_flush_error) ⊎ ((stamp wc op).ec ≡ asio operation_aborted)))

module _ (env : PostEnv) (limit : ℕ) (request : WorkRequest) (bs : List Buffer) (op : VerbsOp)
    (calls : List WorkRequest) (r : Posted) (wc : Wc) where
  Told-set :
      Verdict env limit true request bs op calls r
      → r.immediate ≡ false
      → (wc.opcode ≡ wc_send) ⊎ (wc.opcode ≡ wc_rdma_write)
      → Told wc r.op (total_length bs)
  unfolding stamp wc_status_to_ec post
  Told-set (refused f c i e) h o = ground arith
  Told-set (empty f z e) h o = ground arith
  Told-set (posted f z e i a c b) h o = ground arith

  Told-left :
      Verdict env limit false request bs op calls r
      → r.immediate ≡ false
      → (wc.opcode ≡ wc_recv) ⊎ (wc.opcode ≡ wc_rdma_read)
      → Told wc r.op wc.byte_len
  unfolding stamp wc_status_to_ec post
  Told-left (refused f c i e) h o = ground arith
  Told-left (empty f z e) h o = ground arith
  Told-left (posted f z e i a c b) h o = ground arith

module _ (env : PostEnv) (config : Config) (bs : Buffers) (op : VerbsOp) (calls : List WorkRequest)
    (wc : Wc) where
  -- A send that went out is completed with the bytes of all its buffers where the completion succeeded,
  -- and with an error and no bytes where it failed.
  pub do_post_send-Told :
      (do_post_send env config bs op calls).immediate ≡ false
      → wc.opcode ≡ wc_send
      → Told wc (do_post_send env config bs op calls).op (total_length (as_list bs))
  do_post_send-Told h o =
      Told-set env config.max_send_sge (wanted send_wr local op bs) (as_list bs) op calls
        (do_post_send env config bs op calls) wc (do_post_send-Verdict env config bs op calls) h
        (inl o)

  -- A write that went out is completed with the bytes of all its buffers where the completion succeeded,
  -- and with an error and no bytes where it failed.
  pub do_post_write-Told :
      (ra : RemoteAddr)
      → (do_post_write env config ra bs op calls).immediate ≡ false
      → wc.opcode ≡ wc_rdma_write
      → Told wc (do_post_write env config ra bs op calls).op (total_length (as_list bs))
  do_post_write-Told ra h o =
      Told-set env config.max_send_sge (wanted rdma_write_wr ra op bs) (as_list bs) op calls
        (do_post_write env config ra bs op calls) wc
        (do_post_write-Verdict env config bs op calls ra) h (inr o)

  -- A receive that went out is completed with the bytes that the device reports where the completion
  -- succeeded, and with an error and no bytes where it failed.
  pub do_post_recv-Told :
      (do_post_recv env config bs op calls).immediate ≡ false
      → wc.opcode ≡ wc_recv
      → Told wc (do_post_recv env config bs op calls).op wc.byte_len
  do_post_recv-Told h o =
      Told-left env config.max_recv_sge (wanted recv_wr local op bs) (as_list bs) op calls
        (do_post_recv env config bs op calls) wc (do_post_recv-Verdict env config bs op calls) h
        (inl o)

  -- A read that went out is completed with the bytes that the device reports where the completion
  -- succeeded, and with an error and no bytes where it failed.
  pub do_post_read-Told :
      (ra : RemoteAddr)
      → (do_post_read env config ra bs op calls).immediate ≡ false
      → wc.opcode ≡ wc_rdma_read
      → Told wc (do_post_read env config ra bs op calls).op wc.byte_len
  do_post_read-Told ra h o =
      Told-left env config.max_send_sge (wanted rdma_read_wr ra op bs) (as_list bs) op calls
        (do_post_read env config ra bs op calls) wc (do_post_read-Verdict env config bs op calls ra)
        h (inr o)

unless : {P : Type 0} (b : Bool) → (b ≡ false → P) → (b ≡ true) ⊎ P
unless true f = inl refl
unless false f = inr (f refl)

module _ (env : PostEnv) (config : Config) (bs : Buffers) (op : VerbsOp) (calls : List WorkRequest)
    (wc : Wc) where
  -- A completion's handler is told the bytes of all buffers where a send or a write succeeded, the bytes that
  -- the device reports where a receive or a read did, and an error and no bytes where any of them failed;
  -- unless the post itself ended at once.
  pub posts-Told :
      (ra : RemoteAddr)
      → let sent = do_post_send env config bs op calls in
        let written = do_post_write env config ra bs op calls in
        let received = do_post_recv env config bs op calls in
        let got = do_post_read env config ra bs op calls in
        ((sent.immediate ≡ true)
          ⊎ Told (record wc { opcode = wc_send }) sent.op (total_length (as_list bs)))
        × ((written.immediate ≡ true)
            ⊎ Told (record wc { opcode = wc_rdma_write }) written.op (total_length (as_list bs)))
        × ((received.immediate ≡ true)
            ⊎ Told (record wc { opcode = wc_recv }) received.op wc.byte_len)
        × ((got.immediate ≡ true) ⊎ Told (record wc { opcode = wc_rdma_read }) got.op wc.byte_len)
  posts-Told ra = (
    unless _
        (λ h. do_post_send-Told env config bs op calls (record wc { opcode = wc_send }) h refl),
    unless _ (λ h.
        do_post_write-Told env config bs op calls (record wc { opcode = wc_rdma_write }) ra h refl),
    unless _
        (λ h. do_post_recv-Told env config bs op calls (record wc { opcode = wc_recv }) h refl),
    unless _ (λ h.
        do_post_read-Told env config bs op calls (record wc { opcode = wc_rdma_read }) ra h refl),
  )
