-- ===== src/Listener/Taking.antt =====
-- ibv/detail/ibv_op_get_connection_request.hpp: what an attempt takes from the listener's channel, and what
-- is kept of the client's bytes.
use rdma_on_asio.Base.{
  ℕ, zero, suc, ◌≡◌, ◌⊎◌, inl, inr, refl, ap, ◌∙◌, sym, true, false, Option, none, some, List, [],
  ◌∷◌, arith, Option-cases, Bool-cases, take_all, take, min, length,
}
use rdma_on_asio.Base.Int.{is_nonzero}
use rdma_on_asio.Error.{is_error}
use rdma_on_asio.Cm
use rdma_on_asio.Cm.{
  rdma_destroy_event_channel, Env, Log, Call, CmEvent, create_event_channel, set_nonblocking,
  EventType, addr_resolved, addr_error, route_resolved, route_error, connect_response,
  connect_error, unreachable, rejected, established, disconnected, device_removal, multicast_join,
  multicast_error, addr_change, timewait_exit, migrate_id, get_cm_event, connect_request,
  rdma_ack_cm_event, rdma_migrate_id, rdma_destroy_id, rdma_bind_addr, register_descriptor,
  move_descriptor, to_pointer, is_minus_one, rdma_create_event_channel, fcntl_getfl,
  fcntl_set_nonblock,
}
use rdma_on_asio.Connect.{done}
use rdma_on_asio.Listener.{RequestRun, take_request, request_perform, is_connect_request, copied}

-- A call that fails sets `errno`.
abbrev pub SetsErrno : Env → Type 0
SetsErrno env =
    ((log : Log)
      → to_pointer (env.answer log rdma_create_event_channel).value ≡ none
      → is_nonzero (env.answer log rdma_create_event_channel).errno ≡ true)
    × ((log : Log) (c : Call)
        → is_minus_one (env.answer log c).value ≡ true
        → is_nonzero (env.answer log c).errno ≡ true)

set_nonblocking-ec :
    (env : Env) (fd : ℕ) (log : Log)
    → SetsErrno env
    → is_error (set_nonblocking env fd log).0.1 ≡ false
    → (set_nonblocking env fd log).0.0 ≡ true
unfolding set_nonblocking
set_nonblocking-ec env fd log s h =
    ground (arith, s.1 log (fcntl_getfl fd), s.1 (fcntl_getfl fd ∷ log) (fcntl_set_nonblock fd))

-- A channel without an error is not null.
create_event_channel-some :
    (env : Env) (log : Log)
    → SetsErrno env
    → is_error (create_event_channel env log).0.1 ≡ false
    → (channel : ℕ) × ((create_event_channel env log).0.0 ≡ some channel)
unfolding create_event_channel
create_event_channel-some env log s h =
    elim (Option-cases (to_pointer (env.answer log rdma_create_event_channel).value)) [
      | inl e ↦ absurd (ground (arith, e, s.0 log e, h))
      | inr (channel, e) ↦ (
        channel,
        ground (arith, e, h, set_nonblocking-ec env channel (rdma_create_event_channel ∷ log) s),
      )
    ]

is_connect_request_lem : (t : EventType) → is_connect_request t ≡ true → t ≡ connect_request
is_connect_request_lem addr_resolved h = absurd (ground (arith, h))
is_connect_request_lem addr_error h = absurd (ground (arith, h))
is_connect_request_lem route_resolved h = absurd (ground (arith, h))
is_connect_request_lem route_error h = absurd (ground (arith, h))
is_connect_request_lem connect_request h = refl
is_connect_request_lem connect_response h = absurd (ground (arith, h))
is_connect_request_lem connect_error h = absurd (ground (arith, h))
is_connect_request_lem unreachable h = absurd (ground (arith, h))
is_connect_request_lem rejected h = absurd (ground (arith, h))
is_connect_request_lem established h = absurd (ground (arith, h))
is_connect_request_lem disconnected h = absurd (ground (arith, h))
is_connect_request_lem device_removal h = absurd (ground (arith, h))
is_connect_request_lem multicast_join h = absurd (ground (arith, h))
is_connect_request_lem multicast_error h = absurd (ground (arith, h))
is_connect_request_lem addr_change h = absurd (ground (arith, h))
is_connect_request_lem timewait_exit h = absurd (ground (arith, h))

take_of_eq : (m n : ℕ) (xs : List ℕ) → m ≡ n → take m xs ≡ take n xs
take_of_eq m n xs h = ap (λ k. take k xs) h

take-min-length : (n : ℕ) (xs : List ℕ) → take (min (length xs) n) xs ≡ take n xs
take-min-length zero xs = take_of_eq (min (length xs) 0) 0 xs (omega arith)
take-min-length (suc n) [] = take_of_eq (min 0 (suc n)) 0 [] (omega arith)
take-min-length (suc n) (x ∷ xs) =
    take_of_eq (min (suc (length xs)) (suc n)) (suc (min (length xs) n)) (x ∷ xs) (omega arith)
    ∙ ap (◌∷◌ x) (take-min-length n xs)

take-take-min : (m n : ℕ) (xs : List ℕ) → take m (take n xs) ≡ take (min n m) xs
take-take-min zero n xs = take_of_eq 0 (min n 0) xs (omega arith)
take-take-min (suc m) zero xs = take_of_eq 0 (min 0 (suc m)) xs (omega arith)
take-take-min (suc m) (suc n) [] = take_of_eq (suc (min n m)) (min (suc n) (suc m)) [] (omega arith)
take-take-min (suc m) (suc n) (x ∷ xs) =
    ap (◌∷◌ x) (take-take-min m n xs)
    ∙ take_of_eq (suc (min n m)) (min (suc n) (suc m)) (x ∷ xs) (omega arith)

-- The bytes of a client that reach a buffer of size `cap`: the operation keeps at most 256 of them.
abbrev pub delivered : ℕ → Option (List ℕ) → List ℕ
delivered cap none = []
delivered cap (some bytes) = take (min 256 cap) bytes

copied-take :
    (e : CmEvent) (bytes : List ℕ) → e.private_data ≡ some bytes → copied e [] ≡ take 256 bytes
copied-take e [] h = ground (arith, h)
copied-take e (x ∷ xs) h =
    let found : copied e [] ≡ take (min (length (x ∷ xs)) 256) (x ∷ xs) = ground (arith, h) in
    found ∙ take-min-length 256 (x ∷ xs)

pub copied-delivered :
    (cap : ℕ) (e : CmEvent) (kept : List ℕ)
    → kept ≡ copied e []
    → take (min (length kept) cap) kept ≡ delivered cap e.private_data
copied-delivered cap e kept k =
    take-min-length cap kept ∙ ap (take cap) k ∙ elim (Option-cases e.private_data) [
      | inl n ↦
          let nothing : copied e [] ≡ [] = ground (arith, n) in
          ap (take cap) nothing ∙ take_all cap [] (omega arith) ∙ sym (ap (delivered cap) n)
      | inr (bytes, b) ↦
          ap (take cap) (copied-take e bytes b)
          ∙ take-take-min cap 256 bytes
          ∙ sym (ap (delivered cap) b)
    ]

-- A request with its child's id and channel, and the client's bytes.
abbrev pub Taken : CmEvent → RequestRun → RequestRun → Type 0
Taken e r r' =
    (channel : ℕ) × (e.event ≡ connect_request)
    × (r'.handle ≡ (some channel, some e.id))
    × (r'.private_data ≡ copied e r.private_data)
    × ((before : Log) × (r'.log
          ≡ rdma_ack_cm_event e.event ∷ rdma_migrate_id e.id channel ∷ before))

take_request_lem :
    (env : Env) (e : CmEvent) (r : RequestRun)
    → SetsErrno env
    → (is_error (take_request env e r).ec ≡ true) ⊎ Taken e r (take_request env e r)
unfolding take_request migrate_id Cm.call
take_request_lem env e r s = elim (Bool-cases (is_connect_request e.event)) [
  | inl c ↦ elim (Bool-cases (is_error (create_event_channel env r.log).0.1)) [
    | inl f ↦ inl (ground (arith, c, f))
    | inr f ↦
        let (channel, some_channel) = create_event_channel-some env r.log s f in
        inr (
          channel,
          is_connect_request_lem e.event c,
          ground (arith, c, f, some_channel),
          ground (arith, c, f, some_channel),
          ((create_event_channel env r.log).1, ground (arith, c, f, some_channel)),
        )
  ]
  | inr c ↦ inl (ground (arith, c))
]

-- An attempt that completes without an error took the request that the channel handed over.
pub request_perform-Taken :
    (env : Env) (r : RequestRun)
    → SetsErrno env
    → (request_perform env r).1 ≡ done
    → is_error (request_perform env r).0.ec ≡ false
    → Taken (env.next_event r.log) r (request_perform env r).0
unfolding request_perform get_cm_event
request_perform-Taken env r s d f =
    elim (Bool-cases (is_error (get_cm_event env r.channel r.log).0.2)) [
      | inl e ↦ absurd (ground (arith, e, f))
      | inr e ↦ elim (Option-cases (get_cm_event env r.channel r.log).0.1) [
        | inl n ↦ absurd (ground (arith, e, n, d))
        | inr (event, n) ↦ taken (ground (arith, e, n))
      ]
    ]
  where
    attempt : RequestRun
    attempt = record r {
      ec = (get_cm_event env r.channel r.log).0.2;
      log = (get_cm_event env r.channel r.log).1;
    }

    taken :
        request_perform env r ≡ (take_request env (env.next_event r.log) attempt, done)
        → Taken (env.next_event r.log) r (request_perform env r).0
    taken eq = elim (take_request_lem env (env.next_event r.log) attempt s) [
      | inl h ↦ absurd (ground (arith, ap (λ x. is_error x.0.ec) eq, h, f))
      | inr (channel, c, h, p, (before, l)) ↦ (
        channel,
        c,
        ap (λ x. x.0.handle) eq ∙ h,
        ap (λ x. x.0.private_data) eq ∙ p,
        (before, ap (λ x. x.0.log) eq ∙ l),
      )
    ]
