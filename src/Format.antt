-- ===== src/Format.antt =====
-- frontend/src/utils/format.ts: figures as text, for figures that are not negative. Byte sizes are
-- numbers of bytes; rates, shares and latencies are given in thousandths. The arithmetic is exact
-- where the program's is in floating point. A text is the list of its code points.
pub mod Sizes
pub mod Ages
pub mod Reading
use drishtiscope_oss.Common.{
  ℕ, zero, suc, ◌+◌, ◌*◌, ◌/◌, ◌^◌, String, List, [], ◌∷◌, ◌++◌, length, ltb, nat_eq, if◌then◌else◌,
}
use drishtiscope_oss.Common.Fixed.{
  round_div, digit_codes, fixed_one, fixed_two, short_hundredths, pad_start, unit_index,
}
use drishtiscope_oss.Common.Int.{ℤ, pos, negsuc}
use drishtiscope_oss.Common.Text.{codes}

-- `sizes[i]`
abbrev pub name_at : List String → ℕ → String
name_at [] i = ""
name_at (s ∷ names) zero = s
name_at (s ∷ names) (suc i) = name_at names i

-- `i` of `fmtBytes`, the index of the unit
unfoldable pub byte_unit : ℕ → ℕ
unfolding unit_index
byte_unit n = unit_index 1024 4 n

-- The hundredths of that unit that n bytes are.
unfoldable pub byte_figure : ℕ → ℕ
unfolding byte_unit round_div
byte_figure n = round_div (100 * n) (1024 ^ byte_unit n)

unfoldable pub fmt_bytes : ℕ → List ℕ
unfolding byte_figure byte_unit short_hundredths
fmt_bytes n =
    if nat_eq n 0
    then codes "0 B"
    else short_hundredths (byte_figure n)
      ++ (b' ' ∷ codes (name_at ("B" ∷ "KiB" ∷ "MiB" ∷ "GiB" ∷ "TiB" ∷ []) (byte_unit n)))

-- `fmtBytes` of a rate, in thousandths of a byte per second.
unfoldable pub fmt_byte_rate : ℕ → List ℕ
unfolding unit_index round_div short_hundredths
fmt_byte_rate x =
    let i = unit_index 1024 4 (x / 1000) in
    if nat_eq x 0
    then codes "0 B"
    else short_hundredths (round_div x (10 * 1024 ^ i))
      ++ (b' ' ∷ codes (name_at ("B" ∷ "KiB" ∷ "MiB" ∷ "GiB" ∷ "TiB" ∷ []) i))

-- `i` of `fmtBps`; `x` is in thousandths of a bit per second.
unfoldable pub bps_unit : ℕ → ℕ
unfolding unit_index
bps_unit x = unit_index 1000 3 (x / 1000)

unfoldable pub bps_figure : ℕ → ℕ
unfolding bps_unit round_div
bps_figure x = round_div x (10 * 1000 ^ bps_unit x)

unfoldable pub fmt_bps : ℕ → List ℕ
unfolding bps_figure bps_unit short_hundredths
fmt_bps x =
    if nat_eq x 0
    then codes "0 bps"
    else short_hundredths (bps_figure x)
      ++ (b' ' ∷ codes (name_at ("bps" ∷ "Kbps" ∷ "Mbps" ∷ "Gbps" ∷ []) (bps_unit x)))

-- `x` is in thousandths of a percent.
unfoldable pub fmt_pct : ℕ → List ℕ
unfolding fixed_one round_div
fmt_pct x = fixed_one (round_div x 100) ++ (b'%' ∷ [])

unfoldable pub fmt_ns : ℕ → List ℕ
unfolding digit_codes fixed_one fixed_two round_div
fmt_ns n =
    if ltb n 1_000
    then digit_codes n ++ codes "ns"
    else if ltb n 1_000_000
    then fixed_one (round_div n 100) ++ codes "µs"
    else if ltb n 1_000_000_000
    then fixed_one (round_div n 100_000) ++ codes "ms"
    else fixed_two (round_div n 10_000_000) ++ codes "s"

-- `fmtRelTime`, of `Date.now()` less the time of `ts`, in milliseconds; a time to come is a negative
-- number of seconds.
unfoldable pub fmt_rel_time : ℤ → List ℕ
unfolding digit_codes
fmt_rel_time (negsuc d) = b'-' ∷ (digit_codes (d / 1000 + 1) ++ codes "s ago")
fmt_rel_time (pos diff) =
    let sec = diff / 1000 in
    let min = sec / 60 in
    let hr = min / 60 in
    if ltb sec 60
    then digit_codes sec ++ codes "s ago"
    else if ltb min 60
    then digit_codes min ++ codes "m ago"
    else if ltb hr 24
    then digit_codes hr ++ codes "h ago"
    else digit_codes (hr / 24) ++ codes "d ago"

unfoldable pub pad_pid : ℕ → List ℕ
unfolding pad_start digit_codes
pad_pid pid = pad_start 6 b' ' (digit_codes pid)
