-- ===== src/Completion/Poller.antt =====
-- ibv/detail/impl/ibv_service_io_completion.ipp: the poller of event mode, which the reactor or the
-- scheduler runs one turn at a time. `device` answers `ibv_poll_cq` by the number of the call, `event`
-- whether a completion event is queued.
pub mod Backlog
pub mod Draining
use rdma_on_asio.Base.{
  ℕ, zero, suc, Bool, true, false, Option, none, some, List, [], ◌∷◌, ◌++◌, if◌then◌else◌, ◌==◌,
}
use rdma_on_asio.Verbs.{VerbsOp}
use rdma_on_asio.Completion.{Wc, Device, poll_into, max_batches_per_turn}

-- Where the poller's operation is: nowhere, queued for completion, or on the channel's descriptor.
pub data Waiting : Type 0 where
  stopped posted on_descriptor : Waiting

-- The poller with the calls of `ibv_poll_cq` and `ibv_req_notify_cq` so far; `completed` is drained and not
-- dispatched yet, `dispatched` and `destroyed` are what became of the others.
pub record Poller : Type 0 where
  pub poller_started : Bool
  pub waiting : Waiting
  pub polls : ℕ
  pub notifies : ℕ
  pub completed : List VerbsOp
  pub dispatched : List VerbsOp
  pub destroyed : List VerbsOp

abbrev pub is_empty : List VerbsOp → Bool
is_empty [] = true
is_empty (op ∷ ops) = false

module _ (device : Device) (ops : ℕ → VerbsOp) (batch : ℕ) where
  -- `poll_into(completed_)`
  unfoldable pub fill : Poller → Poller
  fill p =
      let (drained, polls') = poll_into max_batches_per_turn device ops batch p.polls in
      record p { polls = polls'; completed = p.completed ++ drained }

  -- Notification is asked for before the queue is polled.
  unfoldable pub arm_poller : Poller → Poller
  unfolding fill
  arm_poller p =
      let p' = fill (record p { notifies = suc p.notifies }) in
      record p' { waiting = if is_empty p'.completed then on_descriptor else posted }

  unfoldable pub ensure_poller_started : Poller → Poller
  unfolding arm_poller
  ensure_poller_started p =
      if p.poller_started then p else arm_poller (record p { poller_started = true })

  -- `owner` is false at shutdown.
  unfoldable pub on_poll_complete : Bool → Poller → Poller
  unfolding arm_poller
  on_poll_complete owner p =
      if owner
      then arm_poller (record p { completed = []; dispatched = p.dispatched ++ p.completed })
      else record p { waiting = stopped; completed = []; destroyed = p.destroyed ++ p.completed }

  -- Whether the operation is done.
  unfoldable pub do_perform : Bool → Poller → Poller × Bool
  unfolding fill
  do_perform event p =
      let p' = fill (if event then record p { notifies = suc p.notifies } else p) in
      (p', if is_empty p'.completed then false else true)

  -- One turn: a queued completion runs; a ready descriptor performs, and completes where that is done.
  unfoldable pub turn : Bool → Poller → Poller
  unfolding on_poll_complete do_perform
  turn event p =
      let (p', is_done) = do_perform event p in
      elim p.waiting [
        | stopped ↦ p
        | posted ↦ on_poll_complete true p
        | on_descriptor ↦ if is_done then on_poll_complete true p' else p'
      ]

  unfoldable pub turns : ℕ → Poller → Poller
  unfolding turn
  turns zero p = p
  turns (suc n) p = turns n (turn false p)
