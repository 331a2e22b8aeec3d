-- ===== src/Tests/Data.antt =====
-- The theorems on the data plane, memory and configuration, on concrete buffers.
use rdma_on_asio.Base.{
  ◌⊎◌, zero, suc, ◌≡◌, ◌↔◌, inr, refl, true, false, some, List, [], ◌∷◌, map, arith, length,
  replicate,
}
use rdma_on_asio.Error.{cleared}
use rdma_on_asio.Memory.{Buffer}
use rdma_on_asio.Sglist.{to_list, new}
use rdma_on_asio.Sglist.Storage.{blank}
use rdma_on_asio.Sglist.Builder.{zero_sge, build_native_sglist}
use rdma_on_asio.Sglist.Built.{
  Fits, IsAccepted, exact_sge, total_length, all_zero, build_native_sglist-IsAccepted_iff,
  build_native_sglist-Fits,
}
use rdma_on_asio.Verbs.{
  send_wr, recv_wr, do_post, do_post_send, do_post_recv, do_post_read, do_post_write, send_request,
  rdma_read_wr, rdma_write_wr, as_list, single, sequence,
}
use rdma_on_asio.Verbs.Post.{wanted, local, Verdict, posts-Verdict}
use rdma_on_asio.Verbs.Single.{do_post-single_sequence}
use rdma_on_asio.Completion.{Wc, success, wc_send, wc_recv, wc_rdma_read, wc_rdma_write, Device}
use rdma_on_asio.Completion.Polling
use rdma_on_asio.Completion.Polling.{dry, more, poll_lem}
use rdma_on_asio.Completion.Bytes.{Told, posts-Told}
use rdma_on_asio.Tests.{config, buffer, two, verbs_op, accepting, remote}

abbrev ten : List Buffer
ten = replicate 10 (buffer 1000)

ten-Fits : Fits 16 ten
ten-Fits = (inr (omega arith), omega arith)

build_native_sglist-Fits_example :
    let (b, t) = build_native_sglist ten (blank (replicate 8 zero_sge)) 16 in
    (to_list t ≡ map exact_sge ten)
    × (b.data_ptr ≡ t.data_ptr)
    × (b.count ≡ length ten)
    × (b.total_bytes ≡ total_length ten)
    × (b.all_empty ≡ all_zero ten)
build_native_sglist-Fits_example =
    build_native_sglist-Fits ten (replicate 8 zero_sge) 16 refl ten-Fits

build_native_sglist-IsAccepted_iff_example :
    IsAccepted (build_native_sglist ten (new zero_sge) 9).0 ↔ Fits 9 ten
build_native_sglist-IsAccepted_iff_example = build_native_sglist-IsAccepted_iff ten (new zero_sge) 9

do_post-single_sequence_example :
    do_post accepting 4 true (send_request verbs_op) (single (buffer 1000)) verbs_op []
    ≡ do_post accepting 4 true (send_request verbs_op) (sequence (buffer 1000 ∷ [])) verbs_op []
do_post-single_sequence_example =
    do_post-single_sequence accepting 4 true (send_request verbs_op) (buffer 1000) verbs_op []

abbrev sent : Wc
sent = record { wr_id = 77; status = success; opcode = wc_send; byte_len = 0 }

abbrev received : Wc
received = record sent { opcode = wc_recv; byte_len = 150 }

-- Two completions, then nothing.
abbrev device : Device
device zero batch = some (sent ∷ received ∷ [])
device (suc n) batch = some []

device-Returns : Polling.Returns device 16 0 (sent ∷ received ∷ []) cleared
device-Returns = more 0 sent (received ∷ []) [] cleared refl (dry 1 refl)

posts-Verdict_example :
    Verdict accepting 4 true
      (wanted send_wr local verbs_op two)
      (as_list two)
      verbs_op
      []
      (do_post_send accepting config two verbs_op [])
    × Verdict accepting 4 false
        (wanted recv_wr local verbs_op two)
        (as_list two)
        verbs_op
        []
        (do_post_recv accepting config two verbs_op [])
    × Verdict accepting 4 false
        (wanted rdma_read_wr remote verbs_op two)
        (as_list two)
        verbs_op
        []
        (do_post_read accepting config remote two verbs_op [])
    × Verdict accepting 4 true
        (wanted rdma_write_wr remote verbs_op two)
        (as_list two)
        verbs_op
        []
        (do_post_write accepting config remote two verbs_op [])
posts-Verdict_example = posts-Verdict accepting config two verbs_op [] remote

posts-Told_example :
    (((do_post_send accepting config two verbs_op []).immediate ≡ true)
      ⊎ Told
          (record received { opcode = wc_send })
          (do_post_send accepting config two verbs_op []).op
          200)
    × (((do_post_write accepting config remote two verbs_op []).immediate ≡ true)
        ⊎ Told
            (record received { opcode = wc_rdma_write })
            (do_post_write accepting config remote two verbs_op []).op
            200)
    × (((do_post_recv accepting config two verbs_op []).immediate ≡ true)
        ⊎ Told received (do_post_recv accepting config two verbs_op []).op 150)
    × (((do_post_read accepting config remote two verbs_op []).immediate ≡ true)
        ⊎ Told
            (record received { opcode = wc_rdma_read })
            (do_post_read accepting config remote two verbs_op []).op
            150)
posts-Told_example = posts-Told accepting config two verbs_op [] received remote
