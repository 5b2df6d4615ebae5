-- ===== src/Format/Reading.antt =====
-- Reading back what the formats print.
use drishtiscope_oss.Common.{
  ℕ, zero, suc, ◌+◌, ◌-◌, ◌/◌, ◌%◌, ◌≤◌, ◌<◌, ◌≡◌, refl, ap, ◌∙◌, List, [], ◌∷◌, map, length, All,
  some, arith,
}
use drishtiscope_oss.App.Number.{leading_digits, digits_value, positive, signed}
use drishtiscope_oss.Common.Decimal.{digits, digits_onto, value_from, value-digits}
use drishtiscope_oss.Common.Fixed.{digit_codes, pad_start, copies}
use drishtiscope_oss.Common.Int.{pos}
use drishtiscope_oss.Common.Text.{drop_space}
use drishtiscope_oss.Format.{pad_pid}

abbrev pub IsDigit : ℕ → Type 0
IsDigit d = d < 10

digits_onto-IsDigit :
    (fuel n : ℕ) (rest : List ℕ)
    → n ≤ fuel
    → All IsDigit rest
    → All IsDigit (digits_onto fuel n rest)
unfolding digits_onto
digits_onto-IsDigit zero n rest p h = (omega arith, h)
digits_onto-IsDigit (suc fuel) n rest p h =
    ground (arith, digits_onto-IsDigit fuel (n / 10) (n % 10 ∷ rest))

digits-IsDigit : (n : ℕ) → All IsDigit (digits n)
unfolding digits
digits-IsDigit n = digits_onto-IsDigit n n [] (omega arith) tt

leading_digits-map : (ds : List ℕ) → All IsDigit ds → leading_digits (map (λ d. d + b'0') ds) ≡ ds
unfolding leading_digits
leading_digits-map [] h = refl
leading_digits-map (d ∷ ds) h = ground (arith, leading_digits-map ds)

signed-digit :
    (d : ℕ) (s : List ℕ)
    → d < 10
    → signed ((d + b'0') ∷ s) ≡ positive (digits_value (leading_digits ((d + b'0') ∷ s)))
signed-digit d s h = ground arith

-- `parseInt` of digits is the number that they stand for.
signed-map :
    (ds : List ℕ)
    → All IsDigit ds
    → 0 < length ds
    → signed (map (λ d. d + b'0') ds) ≡ some (pos (value_from 0 ds))
signed-map [] h p = ground arith
signed-map (d ∷ ds) h p =
    signed-digit d (map (λ d. d + b'0') ds) h.0
    ∙ ap (λ s. positive (digits_value s)) (leading_digits-map (d ∷ ds) h)

digits_onto-length : (fuel n : ℕ) (rest : List ℕ) → length rest < length (digits_onto fuel n rest)
unfolding digits_onto
digits_onto-length zero n rest = omega arith
digits_onto-length (suc fuel) n rest =
    ground (arith, digits_onto-length fuel (n / 10) (n % 10 ∷ rest))

drop_space-copies :
    (k : ℕ) (ds : List ℕ)
    → All IsDigit ds
    → drop_space (copies k b' ' (map (λ d. d + b'0') ds)) ≡ map (λ d. d + b'0') ds
unfolding drop_space
drop_space-copies zero [] h = refl
drop_space-copies zero (d ∷ ds) h = ground arith
drop_space-copies (suc k) ds h = drop_space-copies k ds h

length-copies : (k c : ℕ) (s : List ℕ) → length (copies k c s) ≡ k + length s
length-copies zero c s = omega arith
length-copies (suc k) c s = omega (arith, length-copies k c s)

-- The padded process id is at least six characters long, and `parseInt` reads the id back from it.
pub pad_pid-read :
    (pid : ℕ) → (6 ≤ length (pad_pid pid)) × (signed (drop_space (pad_pid pid)) ≡ some (pos pid))
unfolding pad_pid pad_start digit_codes digits
pad_pid-read pid =
    let ds = digits pid in
    let h = digits-IsDigit pid in
    (
      omega (arith, length-copies (6 - length (digit_codes pid)) b' ' (digit_codes pid)),
      rw
          (
            drop_space-copies (6 - length (digit_codes pid)) ds h,
            signed-map ds h (digits_onto-length pid pid []),
            value-digits pid,
          )
          refl,
    )
