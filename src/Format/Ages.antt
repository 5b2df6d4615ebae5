-- ===== src/Format/Ages.antt =====
-- The unit that fmtRelTime chooses and the amount that it prints.
use drishtiscope_oss.Common.{
  ℕ, suc, ◌*◌, ◌/◌, ◌≤◌, ◌<◌, ◌≡◌, String, ◌++◌, arith, ltb, Bool, true, ◌&&◌, Bool-cases, inl, inr,
}
use drishtiscope_oss.Common.Fixed.{digit_codes}
use drishtiscope_oss.Common.Int.{pos}
use drishtiscope_oss.Common.Text.{codes}
use drishtiscope_oss.Format.{fmt_rel_time}

pub data Age : Type 0 where
  seconds minutes hours days : Age

abbrev pub age_suffix : Age → String
age_suffix seconds = "s ago"
age_suffix minutes = "m ago"
age_suffix hours = "h ago"
age_suffix days = "d ago"

abbrev pub milliseconds : Age → ℕ
milliseconds seconds = 1_000
milliseconds minutes = 60_000
milliseconds hours = 3_600_000
milliseconds days = 86_400_000

-- The amounts that a unit is used for.
abbrev pub is_amount : Age → ℕ → Bool
is_amount seconds a = ltb a 60
is_amount minutes a = ltb 0 a && ltb a 60
is_amount hours a = ltb 0 a && ltb a 24
is_amount days a = ltb 0 a

-- The text names a whole units, which is what the time comes to in that unit, and an amount that the
-- unit is used for.
abbrev pub IsAge : ℕ → Age → ℕ → Type 0
IsAge diff u a =
    (fmt_rel_time (pos diff) ≡ digit_codes a ++ codes (age_suffix u))
    × (a * milliseconds u ≤ diff)
    × (diff < suc a * milliseconds u)
    × (is_amount u a ≡ true)

-- A time that is not to come is printed as the number of whole units that have passed, in the
-- largest of minutes, hours and days of which one at least has passed, else in seconds.
pub age-IsFloor : (diff : ℕ) → (u : Age) × (a : ℕ) × IsAge diff u a
unfolding fmt_rel_time
age-IsFloor diff = elim (Bool-cases (ltb (diff / 1000) 60)) [
  | inl s ↦ (seconds, diff / 1000, ground arith)
  | inr s ↦ elim (Bool-cases (ltb (diff / 1000 / 60) 60)) [
    | inl m ↦ (minutes, diff / 1000 / 60, ground arith)
    | inr m ↦ elim (Bool-cases (ltb (diff / 1000 / 60 / 60) 24)) [
      | inl h ↦ (hours, diff / 1000 / 60 / 60, ground arith)
      | inr h ↦ (days, diff / 1000 / 60 / 60 / 24, ground arith)
    ]
  ]
]
