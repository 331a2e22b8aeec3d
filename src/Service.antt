-- ===== src/Service.antt =====
-- ibv/detail/ibv_service_base.hpp and ibv/detail/impl/ibv_service_base.ipp the
-- list of a service's live implementations, linked through pointers in them. Addresses are numbers.
pub mod Listed
pub mod Removal
pub mod Shutdown
use rdma_on_asio.Base.{
  ℕ, zero, suc, Bool, true, false, Option, none, some, List, [], ◌∷◌, if◌then◌else◌, ◌==◌,
}

-- `base_implementation_type`
pub record Node : Type 0 where
  pub next : Option ℕ
  pub prev : Option ℕ

-- What stands at an address, and `impl_list_`.
pub record Service : Type 0 where
  pub nodes : ℕ → Node
  pub impl_list : Option ℕ

-- `p->field = ...` for a pointer that may be null, behind its test.
abbrev pub update : Option ℕ → (Node → Node) → (ℕ → Node) → ℕ → Node
update none f nodes a = nodes a
update (some p) f nodes a = if a == p then f (nodes a) else nodes a

abbrev pub points_at : Option ℕ → ℕ → Bool
points_at none a = false
points_at (some p) a = p == a

unfoldable pub do_insert : ℕ → Service → Service
do_insert impl s =
    let linked = update (some impl) (λ n. record { next = s.impl_list; prev = none }) s.nodes in
    record {
      nodes = update s.impl_list (λ n. record n { prev = some impl }) linked;
      impl_list = some impl;
    }

unfoldable pub do_remove : ℕ → Service → Service
do_remove impl s =
    let next = (s.nodes impl).next in
    let prev = (s.nodes impl).prev in
    let unlinked = update prev (λ n. record n { next = next }) s.nodes in
    let relinked = update next (λ n. record n { prev = prev }) unlinked in
    record {
      nodes = update (some impl) (λ n. record { next = none; prev = none }) relinked;
      impl_list = if points_at s.impl_list impl then next else s.impl_list;
    }

-- The constructor's empty list, in memory that holds anything.
abbrev pub created : (ℕ → Node) → Service
created nodes = record { nodes = nodes; impl_list = none }

unfoldable pub base_construct : ℕ → Service → Service
unfolding do_insert
base_construct impl s = do_insert impl s

unfoldable pub base_move_construct : ℕ → ℕ → Service → Service
unfolding do_insert
base_move_construct impl other_impl s = do_insert impl s

unfoldable pub base_destroy : ℕ → Service → Service
unfolding do_remove
base_destroy impl s = do_remove impl s

-- The loop of `base_shutdown` on fuel: the implementations destroyed, in order; `none` means that the fuel
-- ran out. The destroyer leaves the list as it is.
unfoldable pub shutdown_loop : ℕ → (ℕ → Node) → Option ℕ → Option (List ℕ)
shutdown_loop zero nodes impl = none
shutdown_loop (suc fuel) nodes none = some []
shutdown_loop (suc fuel) nodes (some a) = elim (shutdown_loop fuel nodes (nodes a).next) [
  | none ↦ none
  | some rest ↦ some (a ∷ rest)
]

unfoldable pub base_shutdown : ℕ → Service → Option (List ℕ)
unfolding shutdown_loop
base_shutdown fuel s = shutdown_loop fuel s.nodes s.impl_list
