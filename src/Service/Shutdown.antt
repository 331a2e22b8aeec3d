-- ===== src/Service/Shutdown.antt =====
-- ibv/detail/ibv_service_base.hpp: what a service's owners construct, move and destroy, and what is left to
-- base_shutdown.
use rdma_on_asio.Base.{ℕ, ◌<◌, ◌≡◌, refl, true, some, none, List, [], ◌∷◌, length}
use rdma_on_asio.Service.{
  Node, Service, created, base_construct, base_move_construct, base_destroy, base_shutdown,
}
use rdma_on_asio.Service.Listed.{
  Absent, Holds, member, delete, do_insert-Holds, shutdown_loop-Chain,
}
use rdma_on_asio.Service.Removal.{do_remove-Holds}

-- What happens to a service: an implementation is constructed, move-constructed from another, or destroyed.
pub data Change : Type 0 where
  constructed : ℕ → Change
  moved : ℕ → ℕ → Change
  destroyed : ℕ → Change

abbrev pub change : Change → Service → Service
change (constructed impl) s = base_construct impl s
change (moved impl other_impl) s = base_move_construct impl other_impl s
change (destroyed impl) s = base_destroy impl s

abbrev pub run_changes : List Change → Service → Service
run_changes [] s = s
run_changes (c ∷ cs) s = run_changes cs (change c s)

-- The same on the list of the live implementations, the newest first.
abbrev pub list_change : Change → List ℕ → List ℕ
list_change (constructed impl) xs = impl ∷ xs
list_change (moved impl other_impl) xs = impl ∷ xs
list_change (destroyed impl) xs = delete impl xs

abbrev pub list_changes : List Change → List ℕ → List ℕ
list_changes [] xs = xs
list_changes (c ∷ cs) xs = list_changes cs (list_change c xs)

-- An object is constructed where none lives, and destroyed while it lives.
abbrev pub IsLegal : Change → List ℕ → Type 0
IsLegal (constructed impl) xs = Absent impl xs
IsLegal (moved impl other_impl) xs = Absent impl xs
IsLegal (destroyed impl) xs = member impl xs ≡ true

abbrev pub AreLegal : List Change → List ℕ → Type 0
AreLegal [] xs = Unit
AreLegal (c ∷ cs) xs = IsLegal c xs × AreLegal cs (list_change c xs)

change-Holds :
    (c : Change) (s : Service) (xs : List ℕ)
    → IsLegal c xs
    → Holds s xs
    → Holds (change c s) (list_change c xs)
unfolding base_construct base_move_construct base_destroy
change-Holds (constructed impl) s xs l h = do_insert-Holds impl s xs l h
change-Holds (moved impl other_impl) s xs l h = do_insert-Holds impl s xs l h
change-Holds (destroyed impl) s xs l h = do_remove-Holds impl s xs l h

run_changes-Holds :
    (cs : List Change) (s : Service) (xs : List ℕ)
    → AreLegal cs xs
    → Holds s xs
    → Holds (run_changes cs s) (list_changes cs xs)
run_changes-Holds [] s xs l h = h
run_changes-Holds (c ∷ cs) s xs l h =
    run_changes-Holds cs (change c s) (list_change c xs) l.1 (change-Holds c s xs l.0 h)

-- After any legal sequence of constructions, moves and destructions on a new service, and with more fuel
-- than implementations live, base_shutdown ends and visits exactly those that live, the newest first.
pub base_shutdown-run_changes :
    (nodes : ℕ → Node) (cs : List Change) (fuel : ℕ)
    → AreLegal cs []
    → length (list_changes cs []) < fuel
    → base_shutdown fuel (run_changes cs (created nodes)) ≡ some (list_changes cs [])
unfolding base_shutdown
base_shutdown-run_changes nodes cs fuel l h =
    let s = run_changes cs (created nodes) in
    shutdown_loop-Chain fuel s.nodes none s.impl_list (list_changes cs []) h
      (run_changes-Holds cs (created nodes) [] l (refl, tt)).0
