-- ===== src/Format/Sizes.antt =====
-- The unit and the figure that fmtBytes and fmtBps choose.
use drishtiscope_oss.Common.{ℕ, ◌+◌, ◌*◌, ◌^◌, ◌≤◌, ◌<◌, ◌≡◌, ◌⊎◌, inl, inr, arith}
use drishtiscope_oss.Common.Fixed.{round_div, unit_index}
use drishtiscope_oss.Format.{byte_unit, byte_figure}

byte_unit-cases :
    (n : ℕ)
    → ((byte_unit n ≡ 0) × (n < 1024))
      ⊎ ((byte_unit n ≡ 1) × (1024 ≤ n) × (n < 1_048_576))
      ⊎ ((byte_unit n ≡ 2) × (1_048_576 ≤ n) × (n < 1_073_741_824))
      ⊎ ((byte_unit n ≡ 3) × (1_073_741_824 ≤ n) × (n < 1_099_511_627_776))
      ⊎ ((byte_unit n ≡ 4) × (1_099_511_627_776 ≤ n))
unfolding byte_unit unit_index
byte_unit-cases n = ground arith

-- For a positive number of bytes, the figure that is printed is the number of hundredths of the
-- printed unit that is nearest to the size, the upper one of two; it is at least one unit, and at
-- most 1024 units unless the unit is the largest.
pub byte_figure-IsNear :
    (n : ℕ)
    → 0 < n
    → let i = byte_unit n in
      let h = byte_figure n in
      (2 * (h * 1024 ^ i) ≤ 200 * n + 1024 ^ i)
      × (200 * n < 2 * (h * 1024 ^ i) + 1024 ^ i)
      × (100 ≤ h)
      × ((h ≤ 102_400) ⊎ (i ≡ 4))
unfolding byte_figure round_div
byte_figure-IsNear n p = elim (byte_unit-cases n) [
  | inl (e, h) ↦ rw (e) ground arith
  | inr (inl (e, h, h1)) ↦ rw (e) ground arith
  | inr (inr (inl (e, h, h1))) ↦ rw (e) ground arith
  | inr (inr (inr (inl (e, h, h1)))) ↦ rw (e) ground arith
  | inr (inr (inr (inr (e, h)))) ↦ rw (e) ground arith
]
