-- ===== src/Cm/Drain.antt =====
-- Draining a CM event channel (`drain_cm_events` of ibv/detail/impl/ibv_ops_cm.ipp).
use mathlib.Core.Path.{subst}
use rdma_on_asio.Base.{
  ℕ, zero, suc, ◌+◌, ◌≤◌, ◌<◌, ◌≡◌, inl, inr, sym, ◌∙◌, true, false, Option, some, [], ◌∷◌,
  if◌then◌else◌, arith, Bool-cases, some_inj,
}
use rdma_on_asio.Base.Int.{is_nonzero}
use rdma_on_asio.Cm.{
  Env, Log, Call, rdma_get_cm_event, rdma_ack_cm_event, rdma_disconnect, EventType, CmEvent,
  is_established, drain_event, drain_loop, drain_cm_events,
}

-- How much a call adds to each of the counts below.
abbrev is_report : Env → Log → Call → ℕ
is_report env log (rdma_get_cm_event ch) =
    if is_nonzero (env.answer log (rdma_get_cm_event ch)).value then 0 else 1
is_report env log _ = 0

abbrev is_ack : Call → ℕ
is_ack (rdma_ack_cm_event e) = 1
is_ack _ = 0

abbrev is_established_ack : Call → ℕ
is_established_ack (rdma_ack_cm_event e) = if is_established e then 1 else 0
is_established_ack _ = 0

abbrev is_disconnect : Call → ℕ
is_disconnect (rdma_disconnect id) = 1
is_disconnect _ = 0

-- Events that `rdma_get_cm_event` has reported.
unfoldable pub reports : Env → Log → ℕ
reports env [] = 0
reports env (c ∷ log) = is_report env log c + reports env log

-- Events that were acknowledged, and those of them that said ESTABLISHED.
unfoldable pub acks : Log → ℕ
acks [] = 0
acks (c ∷ log) = is_ack c + acks log

unfoldable pub established_acks : Log → ℕ
established_acks [] = 0
established_acks (c ∷ log) = is_established_ack c + established_acks log

-- Calls of `rdma_disconnect`.
unfoldable pub disconnects : Log → ℕ
disconnects [] = 0
disconnects (c ∷ log) = is_disconnect c + disconnects log

-- What draining owes: each reported event acknowledged, each ESTABLISHED disconnected.
pub record Balanced (env : Env) (before after : Log) : Type 0 where
  pub all_acked : reports env after + acks before ≡ acks after + reports env before
  pub all_disconnected :
      disconnects after + established_acks before ≡ established_acks after + disconnects before

module _ (env : Env) (channel id : ℕ) where
  drain_step :
      (log : Log)
      → is_nonzero (env.answer log (rdma_get_cm_event channel)).value ≡ false
      → Balanced env log
          (drain_event env (some id) (env.next_event log) (rdma_get_cm_event channel ∷ log))
  unfolding reports acks established_acks disconnects drain_event
  drain_step log h = ground arith

  drain_loop_last :
      (fuel : ℕ) (g : Option ℕ) (log : Log)
      → is_nonzero (env.answer log (rdma_get_cm_event channel)).value ≡ true
      → drain_loop (suc fuel) env channel g log ≡ some (rdma_get_cm_event channel ∷ log)
  unfolding drain_loop
  drain_loop_last fuel g log h = rw (h, drain_loop)

  drain_loop_more :
      (fuel : ℕ) (g : Option ℕ) (log : Log)
      → is_nonzero (env.answer log (rdma_get_cm_event channel)).value ≡ false
      → drain_loop (suc fuel) env channel g log
        ≡ drain_loop fuel env channel g
            (drain_event env g (env.next_event log) (rdma_get_cm_event channel ∷ log))
  unfolding drain_loop
  drain_loop_more fuel g log h = rw (h, drain_loop)

  Balanced-last :
      (log : Log)
      → is_nonzero (env.answer log (rdma_get_cm_event channel)).value ≡ true
      → Balanced env log (rdma_get_cm_event channel ∷ log)
  unfolding reports acks established_acks disconnects
  Balanced-last log h = ground arith

  Balanced-trans : (a b c : Log) → Balanced env a b → Balanced env b c → Balanced env a c
  Balanced-trans a b c p q = record { all_acked = omega arith; all_disconnected = omega arith }

  drain_loop-Balanced :
      (fuel : ℕ) (log log' : Log)
      → drain_loop fuel env channel (some id) log ≡ some log'
      → Balanced env log log'
  unfolding drain_loop
  drain_loop-Balanced zero log log' h = cc
  drain_loop-Balanced (suc fuel) log log' h =
      elim (Bool-cases (is_nonzero (env.answer log (rdma_get_cm_event channel)).value)) [
        | inl last ↦
            subst (Balanced env log) (some_inj (sym (drain_loop_last fuel (some id) log last) ∙ h))
              (Balanced-last log last)
        | inr more ↦
            Balanced-trans log _ log' (drain_step log more)
              (drain_loop-Balanced fuel _ log' (sym (drain_loop_more fuel (some id) log more) ∙ h))
      ]

-- A channel that reports finitely many events while nothing but draining goes on: each report leaves
-- fewer pending, and no other call adds one.
pub record IsFinite (env : Env) (channel : ℕ) (pending : Log → ℕ) : Type 0 where
  pub falls :
      (log : Log)
      → is_nonzero (env.answer log (rdma_get_cm_event channel)).value ≡ false
      → pending (rdma_get_cm_event channel ∷ log) < pending log
  pub acking : (log : Log) (e : EventType) → pending (rdma_ack_cm_event e ∷ log) ≤ pending log
  pub disconnecting : (log : Log) (id : ℕ) → pending (rdma_disconnect id ∷ log) ≤ pending log

module _ (env : Env) (channel id : ℕ) (pending : Log → ℕ) (f : IsFinite env channel pending) where
  pending-drain_event :
      (log : Log) (e : CmEvent) → pending (drain_event env (some id) e log) ≤ pending log
  unfolding drain_event
  pending-drain_event log e = elim (Bool-cases (is_established e.event)) [
    | inl y ↦
        rw y (omega (arith, f.acking (rdma_disconnect id ∷ log) e.event, f.disconnecting log id))
    | inr n ↦ rw n (f.acking log e.event)
  ]

  drain_loop-total :
      (fuel : ℕ) (log : Log)
      → pending log < fuel
      → (log' : Log) × (drain_loop fuel env channel (some id) log ≡ some log')
  drain_loop-total zero log h = absurd (omega arith)
  drain_loop-total (suc fuel) log h =
      elim (Bool-cases (is_nonzero (env.answer log (rdma_get_cm_event channel)).value)) [
        | inl last ↦ (_, drain_loop_last env channel id fuel (some id) log last)
        | inr more ↦
            let get = rdma_get_cm_event channel ∷ log in
            let (log', e) =
              drain_loop-total fuel (drain_event env (some id) (env.next_event log) get)
                (omega (arith, f.falls log more, pending-drain_event get (env.next_event log))) in
            (log', drain_loop_more env channel id fuel (some id) log more ∙ e)
      ]

  -- Given a channel that runs dry, enough fuel lets the drain end; then every event that was reported
  -- during it has been acknowledged, and `rdma_disconnect` was called once for each that said
  -- ESTABLISHED and for nothing else.
  pub drain_cm_events_lem :
      (fuel : ℕ) (log : Log)
      → pending log < fuel
      → (log' : Log) × (drain_cm_events fuel env (some channel) (some id) log ≡ some log')
        × Balanced env log log'
  unfolding drain_cm_events
  drain_cm_events_lem fuel log h =
      let (log', e) = drain_loop-total fuel log h in
      (log', e, drain_loop-Balanced env channel id fuel log log' e)
