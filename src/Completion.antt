-- ===== src/Completion.antt =====
-- ibv/detail/impl/ibv_op_complete.ipp, ibv/impl/ibv_completion_queue.ipp and `poll_into` of
-- ibv/detail/impl/ibv_service_io_completion.ipp: from work completions to completed operations.
pub mod Polling
pub mod Bytes
pub mod Poller
use rdma_on_asio.Base.{
  ℕ, zero, suc, ◌+◌, Bool, true, false, not, ◌&&◌, ◌||◌, Option, none, some, List, [], ◌∷◌, ◌++◌,
  if◌then◌else◌, ◌==◌, ltb, length,
}
use rdma_on_asio.Base.Int.{ℤ, pos}
use rdma_on_asio.Error.{ErrorCode, system, asio, cleared, operation_aborted, connection_reset, eio}
use rdma_on_asio.Verbs.{VerbsOp}

-- `ibv_wc_status`: the two that are told apart, and the others.
pub data WcStatus : Type 0 where
  success wr_flush_error : WcStatus
  other_error : ℕ → WcStatus

-- `ibv_wc_opcode`: those that are told apart, and the others.
pub data WcOpcode : Type 0 where
  wc_send wc_rdma_write wc_rdma_read wc_recv : WcOpcode
  wc_other : ℕ → WcOpcode

pub record Wc : Type 0 where
  pub wr_id : ℕ
  pub status : WcStatus
  pub opcode : WcOpcode
  pub byte_len : ℕ

unfoldable pub wc_status_to_ec : WcStatus → ErrorCode
wc_status_to_ec success = cleared
wc_status_to_ec wr_flush_error = asio operation_aborted
wc_status_to_ec (other_error n) = asio connection_reset

-- `opcode != IBV_WC_SEND && opcode != IBV_WC_RDMA_WRITE`
abbrev pub reports_bytes : WcOpcode → Bool
reports_bytes wc_send = false
reports_bytes wc_rdma_write = false
reports_bytes wc_rdma_read = true
reports_bytes wc_recv = true
reports_bytes (wc_other n) = true

-- What the completion stamps on its operation.
unfoldable pub stamp : Wc → VerbsOp → VerbsOp
unfolding wc_status_to_ec
stamp wc op = elim wc.status [
  | success ↦ if reports_bytes wc.opcode then record op { bytes_transferred = wc.byte_len } else op
  | wr_flush_error ↦ record op { bytes_transferred = 0; ec = wc_status_to_ec wc.status }
  | other_error n ↦ record op { bytes_transferred = 0; ec = wc_status_to_ec wc.status }
]

-- The operation at the address `wr_id`, or null. `ops` is what stands at an address.
unfoldable pub resolve_verbs_op : (ℕ → VerbsOp) → Wc → Option VerbsOp
unfolding stamp
resolve_verbs_op ops wc = if wc.wr_id == 0 then none else some (stamp wc (ops wc.wr_id))

-- The operations that a batch resolves to.
unfoldable pub resolve_all : (ℕ → VerbsOp) → List Wc → List VerbsOp
unfolding resolve_verbs_op
resolve_all ops [] = []
resolve_all ops (wc ∷ wcs) = elim (resolve_verbs_op ops wc) [
  | none ↦ resolve_all ops wcs
  | some op ↦ op ∷ resolve_all ops wcs
]

-- `ibv_poll_cq` for at most so many completions, at its n-th call: none is a negative return.
abbrev pub Device : Type 0
Device = ℕ → ℕ → Option (List Wc)

-- A completion queue in poll mode. `pushes` are the operations that a handler pushes to `ready` while
-- it runs; `completed` are those completed so far, in order; `polls` counts the calls of `ibv_poll_cq`.
pub record Queue : Type 0 where
  pub ready : List VerbsOp
  pub completed : List VerbsOp
  pub polls : ℕ

module _ (pushes : VerbsOp → List VerbsOp) where
  -- `op->complete(this)`
  abbrev pub complete : VerbsOp → Queue → Queue
  complete op q = record q { ready = q.ready ++ pushes op; completed = q.completed ++ op ∷ [] }

  unfoldable pub complete_all : List VerbsOp → Queue → Queue
  complete_all [] q = q
  complete_all (op ∷ local) q = complete_all local (complete op q)

  -- The queue is moved out first.
  unfoldable pub drain_ready : Queue → ℕ × Queue
  unfolding complete_all
  drain_ready q = (length q.ready, complete_all q.ready (record q { ready = [] }))

  -- The loop of `poll` on fuel, from the total so far: the total, the code and the queue. `none` means
  -- that the fuel ran out.
  unfoldable pub poll_loop :
      ℕ → Device → (ℕ → VerbsOp) → ℕ → ℕ → Queue → Option (ℕ × ErrorCode × Queue)
  unfolding complete_all resolve_all
  poll_loop zero device ops batch total q = none
  poll_loop (suc fuel) device ops batch total q =
      let q' = record q { polls = suc q.polls } in
      elim (device q.polls batch) [
        | none ↦ some (total, system (pos eio), q')
        | some [] ↦ some (total, cleared, q')
        | some (wc ∷ wcs) ↦
            poll_loop fuel device ops batch (total + length (wc ∷ wcs))
              (complete_all (resolve_all ops (wc ∷ wcs)) q')
      ]

  unfoldable pub poll : ℕ → Device → (ℕ → VerbsOp) → ℕ → Queue → Option (ℕ × ErrorCode × Queue)
  unfolding drain_ready poll_loop
  poll fuel device ops batch q =
      let (total, q') = drain_ready q in poll_loop fuel device ops batch total q'

  -- The number completed, the code and the queue.
  unfoldable pub poll_one : Device → (ℕ → VerbsOp) → Queue → ℕ × ErrorCode × Queue
  unfolding complete_all resolve_all
  poll_one device ops q =
      let q' = record q { polls = suc q.polls } in
      elim q.ready [
        | op ∷ rest ↦ (1, cleared, complete op (record q { ready = rest }))
        | [] ↦ elim (device q.polls 1) [
          | none ↦ (0, system (pos eio), q')
          | some [] ↦ (0, cleared, q')
          | some (wc ∷ wcs) ↦ (1, cleared, complete_all (resolve_all ops (wc ∷ [])) q')
        ]
      ]

-- Event mode: `poll_into`, at most so many batches from the n-th call on.
unfoldable pub poll_into : ℕ → Device → (ℕ → VerbsOp) → ℕ → ℕ → List VerbsOp × ℕ
unfolding resolve_all
poll_into zero device ops batch polls = ([], polls)
poll_into (suc batches) device ops batch polls =
    let (rest, polls') = poll_into batches device ops batch (suc polls) in
    elim (device polls batch) [
      | none ↦ ([], suc polls)
      | some wcs ↦
          if length wcs == batch
          then (resolve_all ops wcs ++ rest, polls')
          else (resolve_all ops wcs, suc polls)
    ]

abbrev pub max_batches_per_turn : ℕ
max_batches_per_turn = 4

-- `ready_.push(op)`
unfoldable pub push_ready : VerbsOp → Queue → Queue
push_ready op q = record q { ready = q.ready ++ op ∷ [] }
