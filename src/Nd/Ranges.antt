-- ===== src/Nd/Ranges.antt =====
-- nd/detail/nd_device_impl.hpp: the range adaptors of discovery.
pub mod Laws
use rdma_on_asio.Base.{ℕ, Bool, true, false, Option, none, some, List, [], ◌∷◌, ◌++◌}

module _ {ℓ} {A : Type ℓ} where
  -- `std::views::filter`
  unfoldable pub filter : (A → Bool) → List A → List A
  filter p [] = []
  filter p (x ∷ xs) = elim (p x) [ true ↦ x ∷ filter p xs | false ↦ filter p xs ]

  unfoldable pub filter_map {κ} : {B : Type κ} → (A → Option B) → List A → List B
  filter_map f [] = []
  filter_map f (x ∷ xs) = elim (f x) [ none ↦ filter_map f xs | some y ↦ y ∷ filter_map f xs ]

  -- The loop of `chunk_by`: the chunk that grows, the element before, and the rest.
  unfoldable pub chunk_loop : (A → A → Bool) → List A → A → List A → List (List A)
  chunk_loop pred current previous [] = current ∷ []
  chunk_loop pred current previous (x ∷ xs) = elim (pred previous x) [
    | true ↦ chunk_loop pred (current ++ x ∷ []) x xs
    | false ↦ current ∷ chunk_loop pred (x ∷ []) x xs
  ]

  unfoldable pub chunk_by : (A → A → Bool) → List A → List (List A)
  unfolding chunk_loop
  chunk_by pred [] = []
  chunk_by pred (x ∷ xs) = chunk_loop pred (x ∷ []) x xs
