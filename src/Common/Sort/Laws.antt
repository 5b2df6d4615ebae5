-- ===== src/Common/Sort/Laws.antt =====
-- The stable sort: its result is a permutation in order, and depends on the order of its input only
-- where the comparator answers zero.
use Prim.Native.Nat.{Ordering}
use mathlib.Core.Path.{◌≡◌}
use mathlib.Core.Logic.{◌≢◌}
use mathlib.Core.List.{List, [], ◌∷◌, Perm}
use mathlib.Core.List.Perm
use native.Mathlib.Omega.{arith}
use drishtiscope_oss.Common.Lists.{All}
use drishtiscope_oss.Common.Sort.{insert, sort}
use drishtiscope_oss.Common.Sort.Order.{IsOrder}

-- No item is greater than one that stands behind it.
abbrev pub IsSorted {ℓ} : {A : Type ℓ} → (A → A → Ordering) → List A → Type 0
IsSorted cmp [] = Unit
IsSorted cmp (x ∷ xs) = All (λ y. cmp x y ≢ Ordering.gt) xs × IsSorted cmp xs

module _ {ℓ} {A : Type ℓ} (cmp : A → A → Ordering) where
  insert-perm : (x : A) (ys : List A) → Perm (insert cmp x ys) (x ∷ ys)
  unfolding insert
  insert-perm x [] = Perm.refl _
  insert-perm x (y ∷ ys) = go (insert-perm x ys) (cmp x y)
    where
      go :
          Perm (insert cmp x ys) (x ∷ ys)
          → (o : Ordering)
          → Perm (elim o [ Ordering.gt ↦ y ∷ insert cmp x ys | _ ↦ x ∷ y ∷ ys ]) (x ∷ y ∷ ys)
      go ih Ordering.gt = Perm.trans (Perm.cons y ih) (Perm.swap x y ys)
      go ih Ordering.lt = Perm.refl _
      go ih Ordering.eq = Perm.refl _

  pub sort-perm : (xs : List A) → Perm (sort cmp xs) xs
  unfolding sort
  sort-perm [] = Perm.refl _
  sort-perm (x ∷ xs) = Perm.trans (insert-perm x (sort cmp xs)) (Perm.cons x (sort-perm xs))

module _ {ℓ} {A : Type ℓ} {cmp : A → A → Ordering} (o : IsOrder cmp) where
  All-trans :
      (x y : A) (ys : List A)
      → cmp x y ≢ Ordering.gt
      → All (λ z. cmp y z ≢ Ordering.gt) ys
      → All (λ z. cmp x z ≢ Ordering.gt) ys
  All-trans x y [] h k = tt
  All-trans x y (z ∷ ys) h (k, ks) = (o.trans x y z h k, All-trans x y ys h ks)

  All-insert :
      (y x : A) (ys : List A)
      → cmp y x ≢ Ordering.gt
      → All (λ z. cmp y z ≢ Ordering.gt) ys
      → All (λ z. cmp y z ≢ Ordering.gt) (insert cmp x ys)
  unfolding insert
  All-insert y x [] h k = (h, tt)
  All-insert y x (z ∷ ys) h (k, ks) = ground (arith, All-insert y x ys h ks)

  insert-IsSorted : (x : A) (ys : List A) → IsSorted cmp ys → IsSorted cmp (insert cmp x ys)
  unfolding insert
  insert-IsSorted x [] h = (tt, tt)
  insert-IsSorted x (y ∷ ys) (h, hs) =
      ground (arith, o.swap x y, All-insert y x ys, insert-IsSorted x ys hs, All-trans x y ys)

  pub sort-IsSorted : (xs : List A) → IsSorted cmp (sort cmp xs)
  unfolding sort
  sort-IsSorted [] = tt
  sort-IsSorted (x ∷ xs) = insert-IsSorted x (sort cmp xs) (sort-IsSorted xs)

  pub insert_comm :
      (x y : A) (zs : List A)
      → cmp x y ≢ Ordering.eq
      → insert cmp x (insert cmp y zs) ≡ insert cmp y (insert cmp x zs)
  unfolding insert
  insert_comm x y [] h = ground (arith, o.swap x y)
  insert_comm x y (z ∷ zs) h = ground (
    arith,
    insert_comm x y zs h,
    o.swap x y,
    o.swap x z,
    o.swap y z,
    o.trans x z y,
    o.trans y z x,
  )
