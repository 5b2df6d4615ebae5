-- ===== src/Common/Windows.antt =====
-- `xs.slice(-n)` as a window on a growing list: the last n items of what was appended so far.
use drishtiscope_oss.Common.Lists.{length, drop, slice_last, length-append, length-drop}
use Prim.Native.Nat.{ℕ, zero, suc, ◌+◌, ◌-◌, ◌≤◌, min}
use mathlib.Core.Path.{◌≡◌, refl, ap, ◌∙◌, sym}
use mathlib.Core.List.{List, [], ◌∷◌, ◌++◌}
use native.Mathlib.Omega.{arith}

module _ {ℓ} {A : Type ℓ} where
  pub drop-append : (k : ℕ) (xs ys : List A) → k ≤ length xs → drop k (xs ++ ys) ≡ drop k xs ++ ys
  drop-append zero xs ys h = refl
  drop-append (suc k) [] ys h = elim h [ ]
  drop-append (suc k) (x ∷ xs) ys h = drop-append k xs ys (omega arith)

  drop-eq : (i j : ℕ) (xs : List A) → i ≡ j → drop i xs ≡ drop j xs
  drop-eq i j xs e = ap (λ n. drop n xs) e

  drop-nil : (n : ℕ) → drop {A = A} n [] ≡ []
  drop-nil zero = refl
  drop-nil (suc n) = refl

  pub drop-drop : (j k : ℕ) (xs : List A) → drop j (drop k xs) ≡ drop (k + j) xs
  drop-drop j zero xs = drop-eq j (0 + j) xs (omega arith)
  drop-drop j (suc k) [] = drop-nil j ∙ sym (drop-nil (suc k + j))
  drop-drop j (suc k) (x ∷ xs) =
      drop-drop j k xs ∙ drop-eq (suc (k + j)) (suc k + j) (x ∷ xs) (omega arith)

  pub length-slice_last : (n : ℕ) (xs : List A) → length (slice_last n xs) ≡ min n (length xs)
  length-slice_last n xs = omega (arith, length-drop (length xs - n) xs)

  -- A window on a window, after more was appended, is the window on the whole.
  pub slice_last-append :
      (n : ℕ) (xs ys : List A) → slice_last n (slice_last n xs ++ ys) ≡ slice_last n (xs ++ ys)
  slice_last-append n xs ys =
      let k = length xs - n in
      let m = length (drop k xs ++ ys) - n in
      ap (drop m) (sym (drop-append k xs ys (omega arith)))
      ∙ drop-drop m k (xs ++ ys)
      ∙ drop-eq (k + m) (length (xs ++ ys) - n) (xs ++ ys)
          (omega (arith, length-append (drop k xs) ys, length-append xs ys, length-drop k xs))

  -- Nothing is cut off while the list is short.
  pub slice_last_of_le : (n : ℕ) (xs : List A) → length xs ≤ n → slice_last n xs ≡ xs
  slice_last_of_le n xs h = drop-eq (length xs - n) 0 xs (omega arith)
