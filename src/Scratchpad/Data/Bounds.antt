-- ===== src/Scratchpad/Data/Bounds.antt =====
-- The rows of the scratch graphs: how many there are, and what their figures keep to.
use drishtiscope_oss.Common.{
  ℕ, suc, ◌+◌, ◌-◌, ◌≤◌, ◌≡◌, refl, Option, List, [], ◌∷◌, map, map_from, length, length-drop,
  length-map, length-map_from, slice_last, All, arith,
}
use drishtiscope_oss.Common.Fallback.{field_or}
use drishtiscope_oss.Common.Fixed.{round_div}
use drishtiscope_oss.Protocol.{Snapshot, Kpis, NetPoint, SeriesPoint}
use drishtiscope_oss.Scratchpad.Data.{
  QuantileRow, RunqueueRow, NetRow, MemRow, FaultRow, GraphData, quantiles, runqueues, nets, mems,
  faults, base_wait, base_threads, twelve, quantile_rows, runqueue_row, net_row, mem_row, fault_row,
  compute_data,
}
use drishtiscope_oss.Store.Types.{
  DataPreset, quantile_curve, runqueue_switches, net_bidi, thread_mem, page_faults,
}
use drishtiscope_oss.Tabs.{Clock, kpis_of, list_of}

-- No latency is below the one before it by more than `slack`.
abbrev pub IsRising : ℕ → List QuantileRow → Type 0
IsRising slack [] = Unit
IsRising slack (r ∷ []) = Unit
IsRising slack (r ∷ q ∷ rows) = (r.latency ≤ q.latency + slack) × IsRising slack (q ∷ rows)

-- Where the three latencies that are measured rise, the curve of the six rises too, up to the
-- rounding of half a hundredth of a microsecond.
pub quantile_rows-IsRising :
    (p50 p90 p99 : ℕ) → p50 ≤ p90 → p90 ≤ p99 → IsRising 5 (quantile_rows p50 p90 p99)
unfolding quantile_rows round_div
quantile_rows-IsRising p50 p90 p99 h k = omega arith

All-map_from {ℓ κ ν} :
    {A : Type ℓ} {B : Type κ} (P : B → Type ν) (f : A → ℕ → B)
    → ((x : A) (i : ℕ) → P (f x i))
    → (i : ℕ) (xs : List A) → All P (map_from f i xs)
All-map_from P f h i [] = tt
All-map_from P f h i (x ∷ xs) = (h x i, All-map_from P f h (suc i) xs)

All-map {ℓ κ ν} :
    {A : Type ℓ} {B : Type κ} (P : B → Type ν) (f : A → B)
    → ((x : A) → P (f x))
    → (xs : List A) → All P (map f xs)
All-map P f h [] = tt
All-map P f h (x ∷ xs) = (h x, All-map P f h xs)

abbrev pub IsRunqueue : RunqueueRow → Type 0
IsRunqueue r = (10 ≤ r.runqueue) × (300 ≤ r.switches)

abbrev pub IsNet : NetRow → Type 0
IsNet r = r.total_kb ≡ r.tx_kb + r.rx_kb

abbrev pub IsMem : MemRow → Type 0
IsMem r = (2 ≤ r.threads) × (r.rss_mib ≤ r.vms_mib)

abbrev pub IsFault : FaultRow → Type 0
IsFault r = (120 ≤ r.minor_faults) × (r.major_faults ≤ 1)

-- What the rows of a graph keep to: their number, and their figures.
abbrev pub IsDrawable : GraphData → Type 0
IsDrawable (quantiles rows) = length rows ≡ 6
IsDrawable (runqueues rows) = (length rows ≤ 20) × All IsRunqueue rows
IsDrawable (nets rows) = (length rows ≤ 20) × All IsNet rows
IsDrawable (mems rows) = (length rows ≡ 12) × All IsMem rows
IsDrawable (faults rows) = (length rows ≤ 15) × All IsFault rows

map_from-slice {ℓ κ} :
    {A : Type ℓ} {B : Type κ} (n : ℕ) (f : A → ℕ → B) (xs : List A)
    → length (map_from f 0 (slice_last n xs)) ≤ n
map_from-slice n f xs =
    omega (arith, length-map_from f 0 (slice_last n xs), length-drop (length xs - n) xs)

map-slice {ℓ κ} :
    {A : Type ℓ} {B : Type κ} (n : ℕ) (f : A → B) (xs : List A)
    → length (map f (slice_last n xs)) ≤ n
map-slice n f xs = omega (arith, length-map f (slice_last n xs), length-drop (length xs - n) xs)

runqueue_row-bounds :
    (clock : ℕ → Clock) (w n : ℕ) (pt : SeriesPoint) (i : ℕ)
    → IsRunqueue (runqueue_row clock w n pt i)
unfolding runqueue_row round_div
runqueue_row-bounds clock w n pt i = omega arith

net_row-total : (clock : ℕ → Clock) (pt : NetPoint) → IsNet (net_row clock pt)
unfolding net_row
net_row-total clock pt = refl

mem_row-bounds : (b n i : ℕ) → IsMem (mem_row b n i)
unfolding mem_row round_div
mem_row-bounds b n i = omega arith

fault_row-bounds : (clock : ℕ → Clock) (pt : SeriesPoint) (i : ℕ) → IsFault (fault_row clock pt i)
unfolding fault_row round_div
fault_row-bounds clock pt i = ground arith

-- Whatever the snapshot, the latency curve has six rows and the memory graph twelve, with at least 2
-- threads each and no more resident than virtual memory; the other graphs have at most 20 rows, or 15
-- for the page faults. A wait is at least 0.1 microseconds, the context switches are at least 300, the
-- traffic is the sum of both directions, and there are at least 120 minor faults and at most one major
-- fault.
pub compute_data-IsDrawable :
    (clock : ℕ → Clock) (s : Option Snapshot) (p : DataPreset) → IsDrawable (compute_data clock s p)
unfolding compute_data
compute_data-IsDrawable clock s quantile_curve = refl
compute_data-IsDrawable clock s runqueue_switches =
    let row = runqueue_row clock (base_wait s) (base_threads s) in
    let pts = list_of (λ s. s.cpu_series) s in
    (
      map_from-slice 20 row pts,
      All-map_from IsRunqueue row (runqueue_row-bounds clock (base_wait s) (base_threads s)) 0
          (slice_last 20 pts),
    )
compute_data-IsDrawable clock s net_bidi =
    let pts = list_of (λ s. s.net_series) s in
    (
      map-slice 20 (net_row clock) pts,
      All-map IsNet (net_row clock) (net_row-total clock) (slice_last 20 pts),
    )
compute_data-IsDrawable clock s thread_mem =
    let rss = field_or (λ (k : Kpis). k.rss_bytes) (kpis_of s) 52_428_800 in
    (
      refl,
      All-map IsMem (mem_row rss (base_threads s)) (mem_row-bounds rss (base_threads s)) twelve,
    )
compute_data-IsDrawable clock s page_faults =
    let pts = list_of (λ s. s.cpu_series) s in
    (
      map_from-slice 15 (fault_row clock) pts,
      All-map_from IsFault (fault_row clock) (fault_row-bounds clock) 0 (slice_last 15 pts),
    )
