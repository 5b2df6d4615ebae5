-- ===== src/Common/Fixed.antt =====
-- `Math.round` and `toFixed` on a non-negative quotient: both take the nearest multiple, the upper
-- one of two that are equally near. Figures are kept as tenths or hundredths and printed as digits.
use Prim.Native.Nat.{ℕ, zero, suc, ◌+◌, ◌-◌, ◌*◌, ◌/◌, ◌%◌}
use mathlib.Core.Bool.{true, false}
use mathlib.Core.List.{List, ◌∷◌, ◌++◌, map}
use drishtiscope_oss.Common.Decimal.{digits}
use drishtiscope_oss.Common.Lists.{length}
use drishtiscope_oss.Common.Tests.{ltb, nat_eq, if◌then◌else◌}

-- `Math.round(a / b)`, and the last place of `(a / b).toFixed`, for a positive b.
unfoldable pub round_div : ℕ → ℕ → ℕ
round_div a b = (2 * a + b) / (2 * b)

-- The digits of n as characters.
unfoldable pub digit_codes : ℕ → List ℕ
unfolding digits
digit_codes n = map (λ d. d + b'0') (digits n)

-- `toFixed(1)`, of a number of tenths.
unfoldable pub fixed_one : ℕ → List ℕ
unfolding digit_codes
fixed_one tenths = digit_codes (tenths / 10) ++ (b'.' ∷ digit_codes (tenths % 10))

-- `toFixed(2)`, of a number of hundredths.
unfoldable pub fixed_two : ℕ → List ℕ
unfolding digit_codes
fixed_two hundredths =
    digit_codes (hundredths / 100)
    ++ (b'.' ∷ (digit_codes (hundredths / 10 % 10) ++ digit_codes (hundredths % 10)))

-- `toFixed(3)`, of a number of thousandths.
unfoldable pub fixed_three : ℕ → List ℕ
unfolding digit_codes
fixed_three thousandths =
    digit_codes (thousandths / 1000)
    ++ (b'.'
        ∷ (digit_codes (thousandths / 100 % 10)
            ++ (digit_codes (thousandths / 10 % 10) ++ digit_codes (thousandths % 10))))

-- `parseFloat(x.toFixed(2))` printed again: the zeros at the end of the fraction are left out.
unfoldable pub short_hundredths : ℕ → List ℕ
unfolding digit_codes fixed_one fixed_two
short_hundredths h =
    if nat_eq (h % 100) 0
    then digit_codes (h / 100)
    else if nat_eq (h % 10) 0
    then fixed_one (h / 10)
    else fixed_two h

abbrev pub copies : ℕ → ℕ → List ℕ → List ℕ
copies zero c s = s
copies (suc k) c s = c ∷ copies k c s

-- `s.padStart(n, c)`
unfoldable pub pad_start : ℕ → ℕ → List ℕ → List ℕ
pad_start n c s = copies (n - length s) c s

-- The greatest i up to m with k ^ i at most n: the floor of the quotient of the logarithms, cut off
-- at m, and 0 for n below 1.
unfoldable pub unit_index : ℕ → ℕ → ℕ → ℕ
unit_index k zero n = 0
unit_index k (suc m) n = elim (ltb n k) [ true ↦ 0 | false ↦ suc (unit_index k m (n / k)) ]
