-- ===== src/Completion/Poller/Draining.antt =====
-- ibv/detail/impl/ibv_service_io_completion.ipp: the poller drains its queue.
use mathlib.Core.List.{append_assoc, append-nil}
use rdma_on_asio.Base.{
  ℕ, zero, suc, ◌≤◌, ◌<◌, ◌≡◌, ◌⊎◌, inl, inr, refl, sym, ap, ◌∙◌, subst, true, false, List, [],
  ◌++◌, arith, length, length-append,
}
use rdma_on_asio.Verbs.{VerbsOp}
use rdma_on_asio.Completion.{Wc, Device, resolve_all, poll_into, max_batches_per_turn}
use rdma_on_asio.Completion.Poller.{
  Poller, posted, on_descriptor, fill, arm_poller, on_poll_complete, do_perform, turn, turns,
  ensure_poller_started,
}
use rdma_on_asio.Completion.Poller.Backlog.{
  Feeds, left, Drains, resolve_all_nil, append_nil_left, append_nil_right, is_empty-cases,
  poll_into-left, poll_into_none,
}

module _ (device : Device) (ops : ℕ → VerbsOp) (batch : ℕ) (backlog : ℕ → List Wc)
    (feeds : Feeds device batch backlog) where
  abbrev left_at : ℕ → List VerbsOp
  left_at n = left device ops batch backlog feeds n

  -- The poller waits on the descriptor with nothing left, `total` dispatched.
  abbrev pub Idle : List VerbsOp → Poller → Type 0
  Idle total p =
      (p.waiting ≡ on_descriptor)
      × (p.completed ≡ [])
      × (backlog p.polls ≡ [])
      × (p.dispatched ≡ total)

  -- The poller is queued with operations to dispatch, at most so many with those left.
  abbrev Busy : List VerbsOp → ℕ → Poller → Type 0
  Busy total n p =
      (p.waiting ≡ posted)
      × (0 < length p.completed)
      × (length (p.completed ++ left_at p.polls) ≤ n)
      × (p.dispatched ++ (p.completed ++ left_at p.polls) ≡ total)

  arm_poller-Idle_or_Busy :
      (p : Poller) (total : List VerbsOp)
      → 0 < batch
      → p.completed ≡ []
      → p.dispatched ++ left_at p.polls ≡ total
      → Idle total (arm_poller device ops batch p)
        ⊎ Busy total (length (left_at p.polls)) (arm_poller device ops batch p)
  unfolding arm_poller fill left
  arm_poller-Idle_or_Busy p total b c d =
      elim (is_empty-cases (poll_into max_batches_per_turn device ops batch p.polls).0) [
        | inl (t, e) ↦ inl (
            rw c (
              rw t refl,
              e,
              none_left (
                  append_nil_right _ _
                    (sym split ∙ poll_into_none device ops batch backlog feeds 3 p.polls b e)),
              sym (append-nil p.dispatched)
                  ∙ ap (λ l. p.dispatched ++ l)
                      (sym (poll_into_none device ops batch backlog feeds 3 p.polls b e))
                  ∙ d,
            ))
        | inr (f, l) ↦ inr (
            rw c (
              rw f refl,
              l,
              omega (arith, ap length split),
              ap (λ l. p.dispatched ++ l) (sym split) ∙ d,
            ))
      ]
    where
      n' : ℕ
      n' = (poll_into max_batches_per_turn device ops batch p.polls).1

      split :
          Drains device ops batch backlog feeds p.polls
            (poll_into max_batches_per_turn device ops batch p.polls)
      split = poll_into-left device ops batch backlog feeds max_batches_per_turn p.polls

      none_left : left_at n' ≡ [] → backlog n' ≡ []
      none_left = resolve_all_nil ops (backlog n') (feeds.named n')

  -- One turn of an idle poller, and of a queued one.
  turn_waiting :
      (p : Poller)
      → p.waiting ≡ on_descriptor
      → (fill device ops batch p).completed ≡ []
      → turn device ops batch false p ≡ fill device ops batch p
  unfolding turn do_perform
  turn_waiting p w c = ground (arith, w, c)

  turn-Idle :
      (p : Poller) (total : List VerbsOp)
      → 0 < batch
      → Idle total p
      → Idle total (turn device ops batch false p)
  unfolding fill left resolve_all
  turn-Idle p total b (w, c, e, d) =
      subst (Idle total) (sym (turn_waiting p w emptied)) (w, emptied, still, d)
    where
      n' : ℕ
      n' = (poll_into max_batches_per_turn device ops batch p.polls).1

      split :
          Drains device ops batch backlog feeds p.polls
            (poll_into max_batches_per_turn device ops batch p.polls)
      split = poll_into-left device ops batch backlog feeds max_batches_per_turn p.polls

      nothing : left_at p.polls ≡ []
      nothing = ap (resolve_all ops) e

      drained : (poll_into max_batches_per_turn device ops batch p.polls).0 ≡ []
      drained =
          append_nil_left (poll_into max_batches_per_turn device ops batch p.polls).0 (left_at n')
            (sym split ∙ nothing)

      emptied : p.completed ++ (poll_into max_batches_per_turn device ops batch p.polls).0 ≡ []
      emptied = rw (c, drained) refl

      still : backlog n' ≡ []
      still = resolve_all_nil ops (backlog n') (feeds.named n') (
          append_nil_right (poll_into max_batches_per_turn device ops batch p.polls).0 (left_at n')
            (sym split ∙ nothing))

  turns-Idle :
      (k : ℕ) (p : Poller) (total : List VerbsOp)
      → 0 < batch
      → Idle total p
      → Idle total (turns device ops batch k p)
  unfolding turns
  turns-Idle zero p total b h = h
  turns-Idle (suc k) p total b h = turns-Idle k _ total b (turn-Idle p total b h)

  turn_posted :
      (p : Poller)
      → p.waiting ≡ posted
      → turn device ops batch false p
        ≡ arm_poller device ops batch
            (record p { completed = []; dispatched = p.dispatched ++ p.completed })
  unfolding turn on_poll_complete
  turn_posted p w = rw (turn, w) refl

  turns-Busy :
      (k : ℕ) (p : Poller) (total : List VerbsOp) (n : ℕ)
      → 0 < batch
      → n ≤ k
      → Busy total n p
      → Idle total (turns device ops batch k p)
  unfolding turns
  turns-Busy zero p total n b h (w, c, l, d) =
      absurd (omega (arith, length-append p.completed (left_at p.polls), c, l, h))
  turns-Busy (suc k) p total n b h (w, c, l, d) =
      subst (λ q. Idle total (turns device ops batch k q)) (sym (turn_posted p w))
        (elim (arm_poller-Idle_or_Busy q total b refl
          (append_assoc p.dispatched p.completed _ ∙ d)) [
            | inl i ↦ turns-Idle k _ total b i
            | inr y ↦
                turns-Busy k _ total (length (left_at p.polls)) b
                  (omega (arith, length-append p.completed (left_at p.polls), c, l, h)) y
          ])
    where
      q : Poller
      q = record p { completed = []; dispatched = p.dispatched ++ p.completed }

  -- A poller that is started on a queue to which nothing is added dispatches everything in it, in order,
  -- in no more turns than it has operations, and then waits on the descriptor with the queue empty.
  pub turns-ensure_poller_started :
      (k : ℕ) (p : Poller)
      → 0 < batch
      → p.poller_started ≡ false
      → p.completed ≡ []
      → length (resolve_all ops (backlog p.polls)) ≤ k
      → Idle
          (p.dispatched ++ resolve_all ops (backlog p.polls))
          (turns device ops batch k (ensure_poller_started device ops batch p))
  unfolding ensure_poller_started left
  turns-ensure_poller_started k p b s c h =
      rw s (elim (arm_poller-Idle_or_Busy (record p { poller_started = true }) _ b c refl) [
        | inl i ↦ turns-Idle k _ _ b i
        | inr y ↦ turns-Busy k _ _ _ b h y
      ])
