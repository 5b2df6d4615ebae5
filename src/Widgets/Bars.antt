-- ===== src/Widgets/Bars.antt =====
-- The bars and lines that are drawn stay inside of their boxes.
use Prim.Native.Nat.{max, min}
use drishtiscope_oss.Common.{
  ℕ, suc, ◌+◌, ◌-◌, ◌*◌, ◌≤◌, ◌<◌, ◌≡◌, refl, some, List, [], ◌∷◌, length, length-map_from, map,
  map_from, All, arith, Bool-cases, inl, inr, leb,
}
use drishtiscope_oss.Common.Int.{ℤ, pos, negsuc, difference}
use drishtiscope_oss.Common.Fallback.{or_number}
use drishtiscope_oss.Protocol.{SyscallStat, FileStat}
use drishtiscope_oss.Widgets.{
  Fraction, Point, max_of, min_of, syscall_widths, file_widths, spark_point, sparkline,
}

-- A percentage.
abbrev pub IsPercent : Fraction → Type 0
IsPercent q = (0 < q.den) × (q.num ≤ 100 * q.den)

max_of-least : (least : ℕ) (xs : List ℕ) → least ≤ max_of least xs
max_of-least least [] = omega arith
max_of-least least (x ∷ xs) = omega (arith, max_of-least least xs)

module _ {ℓ} {A : Type ℓ} (f : A → ℕ) where
  widths-IsPercent :
      (most : ℕ) (xs : List A) (least : ℕ)
      → 0 < most
      → max_of least (map f xs) ≤ most
      → All IsPercent (map (λ x. record { num = f x * 100; den = most }) xs)
  widths-IsPercent most [] least p h = tt
  widths-IsPercent most (x ∷ xs) least p h =
      ((p, omega arith), widths-IsPercent most xs least p (omega arith))

  bars-IsPercent :
      (xs : List A)
      → let most = max_of 1_000 (map f xs) in
        All IsPercent (map (λ x. record { num = f x * 100; den = most }) xs)
  bars-IsPercent xs =
      widths-IsPercent (max_of 1_000 (map f xs)) xs 1_000
        (omega (arith, max_of-least 1_000 (map f xs))) (omega arith)

-- The widths of the bars are percentages, whatever the rates: none is above 100, and no division is
-- by 0.
pub widths-bounded :
    (syscalls : List SyscallStat) (files : List FileStat)
    → All IsPercent (syscall_widths syscalls) × All IsPercent (file_widths files)
unfolding syscall_widths file_widths
widths-bounded syscalls files = (
  bars-IsPercent (λ (s : SyscallStat). s.count_s) syscalls,
  bars-IsPercent (λ (f : FileStat). f.ops_s) files,
)

-- Between 0 and n.
abbrev pub IsBetween : ℕ → ℤ → Type 0
IsBetween n (pos k) = k ≤ n
IsBetween n (negsuc k) = ⊥

abbrev pub IsInBox : ℕ → ℕ → Point → Type 0
IsInBox width height p =
    (0 < p.x.den)
    × (0 < p.y.den)
    × (p.x.num ≤ width * p.x.den)
    × IsBetween (height * p.y.den) p.y.num

-- The least and the greatest of a list bound its items.
min_of-bounds : (x : ℕ) (xs : List ℕ) → (min_of x xs ≤ x) × All (λ y. min_of x xs ≤ y) xs
min_of-bounds x [] = (omega arith, tt)
min_of-bounds x (y ∷ ys) =
    let (h, hs) = min_of-bounds y ys in
    (omega arith, (omega arith, All-le (min_of y ys) (min x (min_of y ys)) ys (omega arith) hs))
  where
    All-le : (a b : ℕ) (zs : List ℕ) → b ≤ a → All (λ z. a ≤ z) zs → All (λ z. b ≤ z) zs
    All-le a b [] p h = tt
    All-le a b (z ∷ zs) p (h, hs) = (omega arith, All-le a b zs p hs)

difference-IsBetween : (n a b : ℕ) → b ≤ a → a ≤ n + b → IsBetween n (difference a b)
difference-IsBetween n a b h k = elim (Bool-cases (leb b a)) [
  | inl e ↦ rw e (omega (arith, k))
  | inr e ↦ absurd (ground (arith, e, h))
]

mul_mono : (a b c : ℕ) → a ≤ b → a * c ≤ b * c
mul_mono a b c h = grind (arith, h)

-- The place of d above the least value, where that is at most the range.
height-IsBetween :
    (height low range d : ℕ)
    → low ≤ d
    → d ≤ range + low
    → IsBetween (height * range) (difference (height * range + low * height) (d * height))
height-IsBetween height low range d l m =
    difference-IsBetween (height * range) (height * range + low * height) (d * height)
      (grind (arith, mul_mono d (range + low) height m)) (grind (arith, mul_mono low d height l))

range_lem : (low high d : ℕ) → low ≤ d → d ≤ high → d ≤ or_number (high - low) 1 + low
range_lem low high d l m = ground arith

point-IsInBox :
    (width height n low high d i : ℕ)
    → i < n
    → 2 ≤ n
    → low ≤ d
    → d ≤ high
    → IsInBox width height (spark_point width height n low (or_number (high - low) 1) d i)
unfolding spark_point
point-IsInBox width height n low high d i h k l m = (
  omega arith,
  ground arith,
  grind arith,
  height-IsBetween height low (or_number (high - low) 1) d l (range_lem low high d l m),
)

points-IsInBox :
    (width height n low high : ℕ) (ds : List ℕ) (i : ℕ)
    → i + length ds ≤ n
    → 2 ≤ n
    → All (λ d. low ≤ d) ds
    → All (λ d. d ≤ high) ds
    → All
        (IsInBox width height)
        (map_from (spark_point width height n low (or_number (high - low) 1)) i ds)
points-IsInBox width height n low high [] i h k l m = tt
points-IsInBox width height n low high (d ∷ ds) i h k (l, ls) (m, ms) = (
  point-IsInBox width height n low high d i (omega arith) k l m,
  points-IsInBox width height n low high ds (suc i) (omega arith) k ls ms,
)

max_of-bounds : (x : ℕ) (xs : List ℕ) → (x ≤ max_of x xs) × All (λ y. y ≤ max_of x xs) xs
max_of-bounds x xs = (max_of-least x xs, go xs)
  where
    All-le : (a b : ℕ) (zs : List ℕ) → a ≤ b → All (λ z. z ≤ a) zs → All (λ z. z ≤ b) zs
    All-le a b [] p h = tt
    All-le a b (z ∷ zs) p (h, hs) = (omega arith, All-le a b zs p hs)

    go : (ys : List ℕ) → All (λ y. y ≤ max_of x ys) ys
    go [] = tt
    go (y ∷ ys) = (omega arith, All-le (max_of x ys) (max y (max_of x ys)) ys (omega arith) (go ys))

-- A sparkline of two values or more has a point for each, and all points are in its box. One value
-- alone gives a point whose place across the box is a division of 0 by 0.
pub sparkline-IsInBox :
    (width height d : ℕ) (ds : List ℕ)
    → (0 < length ds
        → (pts : List Point) × (sparkline width height (d ∷ ds) ≡ some pts)
          × (length pts ≡ suc (length ds))
          × All (IsInBox width height) pts)
      × ((pts : List Point) × (sparkline width height (d ∷ []) ≡ some pts)
          × All (λ (p : Point). (p.x.num ≡ 0) × (p.x.den ≡ 0)) pts)
unfolding sparkline spark_point
sparkline-IsInBox width height d ds =
    let low = min_of d ds in
    let high = max_of d ds in
    let (l, ls) = min_of-bounds d ds in
    let (m, ms) = max_of-bounds d ds in
    (
      λ h. (
        _,
        refl,
        length-map_from _ 0 (d ∷ ds),
        points-IsInBox width height (suc (length ds)) low high (d ∷ ds) 0 (omega arith)
            (omega arith) (l, ls) (m, ms),
      ),
      (_, refl, ((omega arith, omega arith), tt)),
    )
