-- ===== src/App/Number.antt =====
-- `parseInt(text, 10)`: leading whitespace, an optional sign, and the digits up to the first other
-- character; `none` is NaN.
use drishtiscope_oss.Common.{
  ℕ, ◌-◌, String, Option, none, some, List, [], ◌∷◌, nat_eq, if◌then◌else◌,
}
use drishtiscope_oss.Common.Text.{codes, drop_space, is_digit}
use drishtiscope_oss.Common.Decimal.{value_from}
use drishtiscope_oss.Common.Int.{ℤ, pos, negsuc}

-- The digits in front of a text.
unfoldable pub leading_digits : List ℕ → List ℕ
leading_digits [] = []
leading_digits (c ∷ s) = if is_digit c then (c - b'0') ∷ leading_digits s else []

abbrev pub digits_value : List ℕ → Option ℕ
digits_value [] = none
digits_value (d ∷ ds) = some (value_from 0 (d ∷ ds))

abbrev pub negated : Option ℕ → Option ℤ
negated none = none
negated (some ℕ.zero) = some (pos 0)
negated (some (ℕ.suc n)) = some (negsuc n)

abbrev pub positive : Option ℕ → Option ℤ
positive none = none
positive (some n) = some (pos n)

abbrev pub signed : List ℕ → Option ℤ
signed [] = none
signed (c ∷ s) =
    if nat_eq c b'-'
    then negated (digits_value (leading_digits s))
    else if nat_eq c b'+'
    then positive (digits_value (leading_digits s))
    else positive (digits_value (leading_digits (c ∷ s)))

unfoldable pub parse_int : String → Option ℤ
unfolding drop_space leading_digits value_from
parse_int text = signed (drop_space (codes text))
