-- ===== src/Tabs/Advanced/Shares.antt =====
-- The rounded figures of the tab against what they round.
use drishtiscope_oss.Charts.{SyscallCounts, count_syscalls}
use drishtiscope_oss.Charts.Counts.{sum_counts, sum_rates, count_syscalls-sum}
use drishtiscope_oss.Common.{
  ℕ, ◌+◌, ◌*◌, ◌≤◌, ◌≡◌, some, List, [], ◌∷◌, arith, nat_eq, if◌then◌else◌,
}
use drishtiscope_oss.Common.Fixed.{round_div}
use drishtiscope_oss.Protocol.{Snapshot}
use drishtiscope_oss.Tabs.Advanced.{
  Slice, no_syscalls, or_sample_calls, category_slices, syscall_category_data,
}

abbrev pub sum_values : List Slice → ℕ
sum_values [] = 0
sum_values (x ∷ xs) = x.value + sum_values xs

slices_near :
    (c : SyscallCounts)
    → (2000 * sum_values (category_slices c) ≤ 2 * sum_counts c + 5000)
      × (2 * sum_counts c ≤ 2000 * sum_values (category_slices c) + 5000)
unfolding category_slices round_div
slices_near c = omega arith

sample_sum :
    (c : SyscallCounts)
    → sum_counts (or_sample_calls c) ≡ (if nat_eq (sum_counts c) 0 then 1_105_000 else sum_counts c)
unfolding or_sample_calls
sample_sum c = ground arith

-- The five slices of the system calls add up to the sum of the rates of the snapshot, give or take two
-- and a half calls per second for the rounding, and to the 1105 of the sample figures when that sum
-- is 0.
pub slices-total :
    (s : Snapshot)
    → let total =
        if nat_eq (sum_rates s.syscalls_top) 0 then 1_105_000 else sum_rates s.syscalls_top in
      let shown = sum_values (syscall_category_data (some s)) in
      (2000 * shown ≤ 2 * total + 5000) × (2 * total ≤ 2000 * shown + 5000)
unfolding syscall_category_data
slices-total s =
    let counts = count_syscalls no_syscalls s.syscalls_top in
    ground (
      arith,
      slices_near (or_sample_calls counts),
      sample_sum counts,
      count_syscalls-sum no_syscalls s.syscalls_top,
    )
