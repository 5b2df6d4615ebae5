-- ===== src/Common/Decimal.antt =====
-- `String(n)` and `n.toString()` for a natural number: its decimal digits.
use Prim.Native.Nat.{ℕ, zero, suc, ◌+◌, ◌*◌, ◌/◌, ◌%◌, ◌≤◌}
use Prim.Native.String.{String, ◌++◌}
use mathlib.Core.Path.{◌≡◌, ap, ◌∙◌}
use mathlib.Core.Bool.{Bool, true, false}
use mathlib.Core.List.{List, [], ◌∷◌}
use native.Mathlib.Omega.{arith}
use drishtiscope_oss.Common.Tests.{ltb}

-- The digits of n in front of `rest`; the fuel n itself is enough, since each digit divides by ten.
unfoldable pub digits_onto : ℕ → ℕ → List ℕ → List ℕ
digits_onto zero n rest = n ∷ rest
digits_onto (suc fuel) n rest = elim (ltb n 10) [
  | true ↦ n ∷ rest
  | false ↦ digits_onto fuel (n / 10) (n % 10 ∷ rest)
]

unfoldable pub digits : ℕ → List ℕ
unfolding digits_onto
digits n = digits_onto n n []

abbrev names : List String
names = "0" ∷ "1" ∷ "2" ∷ "3" ∷ "4" ∷ "5" ∷ "6" ∷ "7" ∷ "8" ∷ []

abbrev name_at : List String → ℕ → String
name_at [] d = "9"
name_at (t ∷ ts) zero = t
name_at (t ∷ ts) (suc d) = name_at ts d

abbrev pub digits_text : List ℕ → String
digits_text [] = ""
digits_text (d ∷ ds) = name_at names d ++ digits_text ds

unfoldable pub decimal : ℕ → String
unfolding digits
decimal n = digits_text (digits n)

-- The number that digits stand for, after digits that stand for `acc`.
unfoldable pub value_from : ℕ → List ℕ → ℕ
value_from acc [] = acc
value_from acc (d ∷ ds) = value_from (acc * 10 + d) ds

value-digits_onto :
    (fuel n : ℕ) (rest : List ℕ)
    → n ≤ fuel
    → value_from 0 (digits_onto fuel n rest) ≡ value_from n rest
unfolding digits_onto value_from
value-digits_onto zero n rest h = ap (λ a. value_from a rest) (omega arith)
value-digits_onto (suc fuel) n rest h =
    go
      (value-digits_onto fuel (n / 10) (n % 10 ∷ rest) (omega arith)
        ∙ ap (λ a. value_from a rest) (omega arith))
      (ltb n 10)
  where
    go :
        value_from 0 (digits_onto fuel (n / 10) (n % 10 ∷ rest)) ≡ value_from n rest
        → (b : Bool)
        → value_from 0
            (elim b [ true ↦ n ∷ rest | false ↦ digits_onto fuel (n / 10) (n % 10 ∷ rest) ])
          ≡ value_from n rest
    go ih true = ap (λ a. value_from a rest) (omega arith)
    go ih false = ih

-- Reading the digits back gives the number.
pub value-digits : (n : ℕ) → value_from 0 (digits n) ≡ n
unfolding digits value_from
value-digits n = value-digits_onto n n [] (omega arith)
