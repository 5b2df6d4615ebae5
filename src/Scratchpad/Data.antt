-- ===== src/Scratchpad/Data.antt =====
-- `computeData` of frontend/src/components/GraphScratchpad.tsx: the rows of each scratch graph, and the
-- chart types that the user chose. Latencies and rates are in thousandths; a figure that the program
-- rounds is in the places that it keeps.
pub mod Bounds
use Prim.Native.Nat.{max}
use Prim.Native.String.{◌++◌}
use drishtiscope_oss.Common.{
  ℕ, zero, suc, ◌+◌, ◌-◌, ◌*◌, ◌%◌, String, Option, none, some, List, [], ◌∷◌, ◌==◌, map, map_from,
  slice_last, nat_eq, if◌then◌else◌,
}
use drishtiscope_oss.Common.Decimal.{decimal}
use drishtiscope_oss.Common.Fallback.{field_else, field_or}
use drishtiscope_oss.Common.Fixed.{round_div}
use drishtiscope_oss.Protocol.{Snapshot, SreMetrics, Kpis, SeriesPoint, NetPoint}
use drishtiscope_oss.Store.Types.{
  ChartType, ScratchGraph, DataPreset, quantile_curve, runqueue_switches, net_bidi, thread_mem,
  page_faults,
}
use drishtiscope_oss.Tabs.{Clock, minutes_text, kpis_of, sre_of, list_of}

-- In thousandths of a microsecond.
pub record QuantileRow : Type 0 where
  pub percentile : String
  pub latency : ℕ
  pub baseline : ℕ

-- `p + (q - p) * 0.55`, rounded to hundredths and given in thousandths.
abbrev pub between : ℕ → ℕ → ℕ
between p q = 10 * round_div (p * 45 + q * 55) 1000

unfoldable pub quantile_rows : ℕ → ℕ → ℕ → List QuantileRow
unfolding round_div
quantile_rows p50 p90 p99 =
    record { percentile = "P50 (Median)"; latency = p50; baseline = 2_000 }
    ∷ record { percentile = "P75"; latency = between p50 p90; baseline = 5_000 }
    ∷ record { percentile = "P90"; latency = p90; baseline = 12_000 }
    ∷ record { percentile = "P95"; latency = between p90 p99; baseline = 25_000 }
    ∷ record { percentile = "P99 (Tail)"; latency = p99; baseline = 50_000 }
    ∷ record {
      percentile = "P99.9 (Extreme)";
      latency = 10 * round_div (p99 * 28) 100;
      baseline = 150_000;
    }
    ∷ []

unfoldable pub quantile_data : Option SreMetrics → List QuantileRow
unfolding quantile_rows
quantile_data sre =
    quantile_rows (field_else (λ (m : SreMetrics). m.latency_p50_us) sre 1_180)
      (field_else (λ (m : SreMetrics). m.latency_p90_us) sre 4_820)
      (field_else (λ (m : SreMetrics). m.latency_p99_us) sre 21_400)

-- The wait is in hundredths of a microsecond.
pub record RunqueueRow : Type 0 where
  pub time : List ℕ
  pub runqueue : ℕ
  pub threads : ℕ
  pub switches : ℕ

-- Where the difference is negative it stops at 0 here, and `max` takes the 0.1 in both cases.
unfoldable pub runqueue_row : (ℕ → Clock) → ℕ → ℕ → SeriesPoint → ℕ → RunqueueRow
unfolding minutes_text round_div
runqueue_row clock base_wait threads pt idx = record {
  time = minutes_text (clock pt.t);
  runqueue = round_div (max 100 (base_wait + idx % 4 * 150 - 200)) 10;
  threads = threads;
  switches = round_div (300_000 + idx % 5 * 45_000 + pt.cpu_pct * 8) 1000;
}

-- In tenths of a kilobyte.
pub record NetRow : Type 0 where
  pub time : List ℕ
  pub tx_kb : ℕ
  pub rx_kb : ℕ
  pub total_kb : ℕ

unfoldable pub net_row : (ℕ → Clock) → NetPoint → NetRow
unfolding minutes_text round_div
net_row clock pt =
    let tx_kb = round_div pt.tx_bps 102_400 in
    let rx_kb = round_div pt.rx_bps 102_400 in
    record {
      time = minutes_text (clock pt.t);
      tx_kb = tx_kb;
      rx_kb = rx_kb;
      total_kb = tx_kb + rx_kb;
    }

-- The sizes are in tenths of a mebibyte.
pub record MemRow : Type 0 where
  pub workers : String
  pub threads : ℕ
  pub rss_mib : ℕ
  pub vms_mib : ℕ

unfoldable pub mem_row : ℕ → ℕ → ℕ → MemRow
unfolding round_div
mem_row rss_bytes threads i =
    let step = max 2 (threads + i * 2 - 8) in
    let mem_mib = round_div (rss_bytes * 75 + (step * 240 + i % 3 * 300) * 1_048_576) 10_485_760 in
    record {
      workers = decimal step ++ " th";
      threads = step;
      rss_mib = mem_mib;
      vms_mib = round_div (mem_mib * 26) 10;
    }

abbrev pub twelve : List ℕ
twelve = 0 ∷ 1 ∷ 2 ∷ 3 ∷ 4 ∷ 5 ∷ 6 ∷ 7 ∷ 8 ∷ 9 ∷ 10 ∷ 11 ∷ []

pub record FaultRow : Type 0 where
  pub time : List ℕ
  pub minor_faults : ℕ
  pub major_faults : ℕ

unfoldable pub fault_row : (ℕ → Clock) → SeriesPoint → ℕ → FaultRow
unfolding minutes_text round_div
fault_row clock pt idx = record {
  time = minutes_text (clock pt.t);
  minor_faults = round_div (120_000 + pt.cpu_pct * 4 + idx % 7 * 20_000) 1000;
  major_faults = if nat_eq (idx % 5) 0 then 1 else 0;
}

-- The rows of a graph, by its preset.
pub data GraphData : Type 0 where
  quantiles : List QuantileRow → GraphData
  runqueues : List RunqueueRow → GraphData
  nets : List NetRow → GraphData
  mems : List MemRow → GraphData
  faults : List FaultRow → GraphData

abbrev pub base_wait : Option Snapshot → ℕ
base_wait s = field_else (λ (m : SreMetrics). m.runqueue_latency_us) (sre_of s) 850

abbrev pub base_threads : Option Snapshot → ℕ
base_threads s = field_or (λ (k : Kpis). k.threads) (kpis_of s) 16

unfoldable pub compute_data : (ℕ → Clock) → Option Snapshot → DataPreset → GraphData
unfolding quantile_data runqueue_row net_row mem_row fault_row
compute_data clock s quantile_curve = quantiles (quantile_data (sre_of s))
compute_data clock s runqueue_switches = runqueues (
    map_from (runqueue_row clock (base_wait s) (base_threads s)) 0
      (slice_last 20 (list_of (λ s. s.cpu_series) s)))
compute_data clock s net_bidi =
    nets (map (net_row clock) (slice_last 20 (list_of (λ s. s.net_series) s)))
compute_data clock s thread_mem = mems (
    map (mem_row (field_or (λ (k : Kpis). k.rss_bytes) (kpis_of s) 52_428_800) (base_threads s))
      twelve)
compute_data clock s page_faults =
    faults (map_from (fault_row clock) 0 (slice_last 15 (list_of (λ s. s.cpu_series) s)))

-- `chartTypeOverrides`, by the id of a graph.
abbrev pub Overrides : Type 0
Overrides = String → Option ChartType

unfoldable pub set_chart_type : String → ChartType → Overrides → Overrides
set_chart_type id t prev = λ k. if k == id then some t else prev k

abbrev pub chosen_or : Option ChartType → ChartType → ChartType
chosen_or none t = t
chosen_or (some t) _ = t

-- `currentType`
unfoldable pub current_type : Overrides → ScratchGraph → ChartType
current_type overrides graph = chosen_or (overrides graph.id) graph.type
