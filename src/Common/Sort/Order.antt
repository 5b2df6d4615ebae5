-- ===== src/Common/Sort/Order.antt =====
-- When a comparator is consistent, and the comparators that the program builds: by a number, the
-- other way round, and by one key and then another.
use Prim.Native.Nat.{ℕ, compare, Ordering}
use mathlib.Core.Path.{◌≡◌}
use mathlib.Core.Logic.{◌≢◌}
use native.Mathlib.Omega.{arith}

abbrev pub flip : Ordering → Ordering
flip Ordering.lt = Ordering.gt
flip Ordering.eq = Ordering.eq
flip Ordering.gt = Ordering.lt

-- The first answer that is not zero.
abbrev pub then : Ordering → Ordering → Ordering
then Ordering.lt _ = Ordering.lt
then Ordering.eq o = o
then Ordering.gt _ = Ordering.gt

pub record IsOrder {ℓ} {A : Type ℓ} (cmp : A → A → Ordering) : Type ℓ where
  pub swap : (x y : A) → cmp y x ≡ flip (cmp x y)
  pub trans : (x y z : A) → cmp x y ≢ Ordering.gt → cmp y z ≢ Ordering.gt → cmp x z ≢ Ordering.gt

module _ {ℓ} {A : Type ℓ} (f : A → ℕ) where
  -- `(a, b) => f(a) - f(b)`
  abbrev pub ascending : A → A → Ordering
  ascending x y = compare (f x) (f y)

  -- `(a, b) => f(b) - f(a)`
  abbrev pub descending : A → A → Ordering
  descending x y = compare (f y) (f x)

  pub ascending-IsOrder : IsOrder ascending
  ascending-IsOrder = record { swap = λ x y. ground arith; trans = λ x y z p q. ground arith }

  pub descending-IsOrder : IsOrder descending
  descending-IsOrder = record { swap = λ x y. ground arith; trans = λ x y z p q. ground arith }

module _ {ℓ} {A : Type ℓ} {c d : A → A → Ordering} (p : IsOrder c) (q : IsOrder d) where
  pub then-IsOrder : IsOrder (λ x y. then (c x y) (d x y))
  then-IsOrder = record {
    swap = λ x y. ground (arith, p.swap x y, q.swap x y);
    trans = λ x y z h k. ground (
      arith,
      p.swap x y,
      p.swap y z,
      p.swap x z,
      p.trans x y z,
      p.trans z x y,
      p.trans y z x,
      q.trans x y z,
    );
  }
