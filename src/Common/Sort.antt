-- ===== src/Common/Sort.antt =====
-- `Array.prototype.sort(comparator)`: a stable sort, as the language requires since ES2019. For a
-- comparator that is consistent its result is unique, so an insertion sort models it. The
-- comparator's negative, zero and positive answers are `lt`, `eq` and `gt`.
pub mod Order
pub mod Laws
pub mod Unique
use Prim.Native.Nat.{Ordering}
use mathlib.Core.List.{List, [], ◌∷◌}

module _ {ℓ} {A : Type ℓ} (cmp : A → A → Ordering) where
  -- `x` goes before the first item that is not less; among equals the one that came first stays first.
  unfoldable pub insert : A → List A → List A
  insert x [] = x ∷ []
  insert x (y ∷ ys) = elim (cmp x y) [ Ordering.gt ↦ y ∷ insert x ys | _ ↦ x ∷ y ∷ ys ]

  unfoldable pub sort : List A → List A
  unfolding insert
  sort [] = []
  sort (x ∷ xs) = insert x (sort xs)
