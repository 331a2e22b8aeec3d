-- ===== src/Nd/Registration/Poller.antt =====
-- The poller of nd/detail/impl/nd_service_io_completion.ipp: one operation that arms itself again.
use mathlib.Core.List.{append_assoc, append-nil}
use rdma_on_asio.Base.{
  map, All, All-append, ℕ, zero, suc, ◌+◌, ◌≡◌, refl, Bool, true, false, not, ◌&&◌, Option, none,
  some, List, [], ◌∷◌, ◌++◌, if◌then◌else◌, is_some, arith, sym, ap, ◌∙◌, length, ◌==◌, Bool-cases,
  inl, inr,
}
use rdma_on_asio.Error.{ErrorCode, is_error}
use rdma_on_asio.Verbs.{VerbsOp}
use rdma_on_asio.Completion.{max_batches_per_turn}
use rdma_on_asio.Nd.{
  completion_status_to_error, Env, Log, overlapped, completion_queue_notify, work_started,
  on_pending, on_completion, is_pending,
}
use rdma_on_asio.Nd.Connector.Work.{starts, hand_overs}
use rdma_on_asio.Nd.Verbs.{
  type_send, type_write, resolve_wc, stamp, NdWc, Results, poll_and_dispatch, resolve_batch,
}
use rdma_on_asio.Nd.Queue.{resolve_batch-append}

-- Where the poller is once it is armed: with the device, or posted to the scheduler with a code.
pub data InFlight : Type 0 where
  with_device : InFlight
  posted : ErrorCode → InFlight

-- `polls` counts the calls of `GetResults`, `runs` the completions of the poller; `dispatched` are the
-- operations completed so far, in order.
pub record Poller : Type 0 where
  pub started : Bool
  pub in_flight : Option InFlight
  pub polls : ℕ
  pub runs : ℕ
  pub dispatched : List VerbsOp
  pub log : Log

-- What happens to the poller: a queue pair is bound, or the scheduler runs it, where it is in flight.
pub data Event : Type 0 where
  bound run : Event

module _ (env : Env) (cq : ℕ) where
  -- A notification that does not wait is posted with its code.
  unfoldable pub arm_poller : Poller → Poller
  unfolding overlapped
  arm_poller p =
      let (o, log') = overlapped env (completion_queue_notify cq) p.log in
      if not (is_error o.ec) && is_pending o.hr
      then record p { in_flight = some with_device; log = on_pending ∷ work_started ∷ log' }
      else record p {
        in_flight = some (posted o.ec);
        log = on_completion o.ec ∷ work_started ∷ log';
      }

  unfoldable pub ensure_poller_started : Poller → Poller
  unfolding arm_poller
  ensure_poller_started p = if p.started then p else arm_poller (record p { started = true })

  module _ (results : Results) (ops : ℕ → VerbsOp) (wc_buf : ℕ) where
    -- `do_complete` of the poller, which ignores its code; `owner` is false at shutdown.
    unfoldable pub poll_complete : Bool → Poller → Poller
    unfolding arm_poller
    poll_complete owner p =
        let (done, polls') = poll_and_dispatch max_batches_per_turn results ops wc_buf p.polls in
        let taken = record p { in_flight = none; runs = suc p.runs } in
        if owner
        then arm_poller (record taken { polls = polls'; dispatched = p.dispatched ++ done })
        else taken

    unfoldable pub on_event : Event → Poller → Poller
    unfolding ensure_poller_started poll_complete
    on_event bound p = ensure_poller_started p
    on_event run p = if is_some p.in_flight then poll_complete true p else p

    unfoldable pub on_events : List Event → Poller → Poller
    unfolding on_event
    on_events [] p = p
    on_events (e ∷ events) p = on_events events (on_event e p)

-- All that the first `n` calls of `GetResults` gave.
abbrev pub taken : Results → ℕ → ℕ → List NdWc
taken results wc_buf zero = []
taken results wc_buf (suc n) = taken results wc_buf n ++ results n wc_buf

resolve_batch-taken :
    (batches : ℕ) (results : Results) (ops : ℕ → VerbsOp) (wc_buf polls : ℕ)
    → let (done, polls') = poll_and_dispatch batches results ops wc_buf polls in
      resolve_batch ops (taken results wc_buf polls')
      ≡ resolve_batch ops (taken results wc_buf polls) ++ done
unfolding poll_and_dispatch
resolve_batch-taken zero results ops wc_buf polls = sym (append-nil _)
resolve_batch-taken (suc batches) results ops wc_buf polls =
    elim (Bool-cases (length (results polls wc_buf) == wc_buf)) [
      | inl e ↦ rw e (
          resolve_batch-taken batches results ops wc_buf (suc polls)
          ∙ ap
              (λ (l : List VerbsOp).
                l ++ (poll_and_dispatch batches results ops wc_buf (suc polls)).0)
              (resolve_batch-append ops (taken results wc_buf polls) (results polls wc_buf))
          ∙ append_assoc _ (resolve_batch ops (results polls wc_buf)) _)
      | inr e ↦ rw e (resolve_batch-append ops (taken results wc_buf polls) (results polls wc_buf))
    ]

-- What the handler of an operation is told of a result: the code of its status, and no bytes with an
-- error, the bytes of the result for a read or a receive, and else those known since the post.
abbrev pub told : (ℕ → VerbsOp) → NdWc → VerbsOp
told ops wc =
    let op = ops wc.request_context in
    let ec = completion_status_to_error wc.status in
    record {
      id = op.id;
      ec = ec;
      bytes_transferred = if is_error ec then 0 else elim wc.request_type [
        | type_send ↦ op.bytes_transferred
        | type_write ↦ op.bytes_transferred
        | _ ↦ wc.bytes_transferred
      ];
    }

-- Each result names an operation.
abbrev pub IsNamed : List NdWc → Type 0
IsNamed wcs = All (λ wc. (wc.request_context == 0) ≡ false) wcs

resolve_wc-told :
    (ops : ℕ → VerbsOp) (wc : NdWc)
    → (wc.request_context == 0) ≡ false
    → resolve_wc ops wc ≡ some (told ops wc)
unfolding resolve_wc stamp
resolve_wc-told ops wc h = ground (arith, h)

resolve_batch-told :
    (ops : ℕ → VerbsOp) (wcs : List NdWc) → IsNamed wcs → resolve_batch ops wcs ≡ map (told ops) wcs
unfolding resolve_batch
resolve_batch-told ops [] h = refl
resolve_batch-told ops (wc ∷ wcs) h =
    rw (resolve_batch, resolve_wc-told ops wc h.0, resolve_batch-told ops wcs h.1) refl

taken-IsNamed :
    (results : Results) (wc_buf n : ℕ)
    → ((k : ℕ) → IsNamed (results k wc_buf))
    → IsNamed (taken results wc_buf n)
taken-IsNamed results wc_buf zero h = tt
taken-IsNamed results wc_buf (suc n) h =
    All-append _ (taken results wc_buf n) (results n wc_buf) (taken-IsNamed results wc_buf n h)
      (h n)

-- One operation is in flight from the start on, and what it took is dispatched.
record Keeps (results : Results) (ops : ℕ → VerbsOp) (wc_buf : ℕ) (p : Poller) : Type 0 where
  pub in_flight : is_some p.in_flight ≡ p.started
  pub started : starts p.log ≡ p.runs + (if p.started then 1 else 0)
  pub handed_over : hand_overs p.log ≡ starts p.log
  pub dispatched : p.dispatched ≡ resolve_batch ops (taken results wc_buf p.polls)

module _ (env : Env) (cq : ℕ) (results : Results) (ops : ℕ → VerbsOp) (wc_buf : ℕ) where
  on_event-Keeps :
      (e : Event) (p : Poller)
      → Keeps results ops wc_buf p
      → Keeps results ops wc_buf (on_event env cq results ops wc_buf e p)
  unfolding on_event ensure_poller_started arm_poller poll_complete overlapped
  on_event-Keeps bound p v = ground (arith, v.in_flight, v.started, v.handed_over, v.dispatched)
  on_event-Keeps run p v = ground (
    arith,
    v.in_flight,
    v.started,
    v.handed_over,
    v.dispatched,
    resolve_batch-taken max_batches_per_turn results ops wc_buf p.polls,
  )

  on_events-Keeps :
      (events : List Event) (p : Poller)
      → Keeps results ops wc_buf p
      → Keeps results ops wc_buf (on_events env cq results ops wc_buf events p)
  unfolding on_events
  on_events-Keeps [] p v = v
  on_events-Keeps (e ∷ events) p v = on_events-Keeps events _ (on_event-Keeps e p v)

-- The poller of a new service.
abbrev pub created : Poller
created = record {
  started = false;
  in_flight = none;
  polls = 0;
  runs = 0;
  dispatched = [];
  log = [];
}

-- One operation is in flight from the start on, every start of work is handed over and is one more than the
-- completions of the poller, and the handlers are told of each result taken.
pub record IsOne (results : Results) (ops : ℕ → VerbsOp) (wc_buf : ℕ) (p : Poller) : Type 0 where
  pub in_flight : is_some p.in_flight ≡ p.started
  pub started : starts p.log ≡ p.runs + (if p.started then 1 else 0)
  pub handed_over : hand_overs p.log ≡ starts p.log
  pub dispatched : p.dispatched ≡ map (told ops) (taken results wc_buf p.polls)

-- Whatever queue pairs are bound, whenever the scheduler runs it and whatever Notify answers, a new
-- service's poller keeps exactly one operation in flight from the first bind on, and none before; every
-- start of work is handed over, and is one more than the poller's completions; and where every result of
-- GetResults names an operation, the operation of each result taken is dispatched, all of them and in
-- order, with the code and the bytes of its result.
pub on_events-created :
    (env : Env) (cq : ℕ) (results : Results) (ops : ℕ → VerbsOp) (wc_buf : ℕ) (events : List Event)
    → ((k : ℕ) → IsNamed (results k wc_buf))
    → IsOne results ops wc_buf (on_events env cq results ops wc_buf events created)
unfolding resolve_batch
on_events-created env cq results ops wc_buf events named =
    let p = on_events env cq results ops wc_buf events created in
    let k =
      on_events-Keeps env cq results ops wc_buf events created
        (record { in_flight = refl; started = refl; handed_over = refl; dispatched = refl }) in
    record {
      in_flight = k.in_flight;
      started = k.started;
      handed_over = k.handed_over;
      dispatched =
          k.dispatched
          ∙ resolve_batch-told ops (taken results wc_buf p.polls)
              (taken-IsNamed results wc_buf p.polls named);
    }
