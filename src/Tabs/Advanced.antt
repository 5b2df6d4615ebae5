-- ===== src/Tabs/Advanced.antt =====
-- frontend/src/components/tabs/AdvancedTab.tsx: the queries, and the figures of its charts. What the
-- module Charts counts is rounded here. Shares and rates are in thousandths.
pub mod Shares
pub mod Console
use Prim.Native.String.{◌++◌}
use drishtiscope_oss.Charts.{SyscallCounts, count_syscalls}
use drishtiscope_oss.Common.{
  ℕ, ◌+◌, ◌-◌, ◌*◌, ◌%◌, String, Option, List, [], ◌∷◌, map_from, nat_eq, if◌then◌else◌,
}
use drishtiscope_oss.Common.Fallback.{field_or, text_or}
use drishtiscope_oss.Common.Fixed.{round_div}
use drishtiscope_oss.Protocol.{Snapshot, Kpis, Target, SyscallStat, SeriesPoint, IoPoint}
use drishtiscope_oss.Tabs.{Clock, minutes_text, kpis_of, target_of, list_of}

pub data MqlTab : Type 0 where
  cpu mem syscall io : MqlTab

-- `mqlQueries[selectedMQL]`
unfoldable pub mql_query : MqlTab → Option Snapshot → String
mql_query q s = query q (text_or (λ (t : Target). t.comm) (target_of s) "agy")
  where
    query : MqlTab → String → String
    query cpu comm =
        "fetch k8s_container | metric 'kubernetes.io/container/cpu/core_usage_time' | filter (resource.container_name == '"
        ++ (comm ++ "') | align rate(1m)")
    query mem comm =
        "fetch k8s_container | metric 'kubernetes.io/container/memory/resident_set_size' | filter (resource.container_name == '"
        ++ (comm ++ "') | align delta(1m)")
    query syscall comm =
        "fetch linux_node | metric 'metrics.drishti.io/drishti/syscalls_rate' | filter (metadata.comm == '"
        ++ (comm ++ "') | align rate(5s)")
    query io comm =
        "fetch storage_device | metric 'kubernetes.io/container/disk/io_service_bytes' | filter (resource.container_name == '"
        ++ (comm ++ "') | align rate(1m)")

pub record Slice : Type 0 where
  pub name : String
  pub value : ℕ
  pub color : String

abbrev pub no_syscalls : SyscallCounts
no_syscalls = record { io = 0; sync = 0; net = 0; proc = 0; mem = 0 }

-- The figures that are drawn when there is nothing to count.
unfoldable pub or_sample_calls : SyscallCounts → SyscallCounts
or_sample_calls c =
    if nat_eq (c.io + c.sync + c.net + c.proc + c.mem) 0
    then record { sync = 480_000; io = 280_000; net = 190_000; mem = 95_000; proc = 60_000 }
    else c

unfoldable pub category_slices : SyscallCounts → List Slice
unfolding round_div
category_slices c =
    record { name = "Sync & Futex"; value = round_div c.sync 1000; color = "#3ce0cf" }
    ∷ record { name = "File & Disk I/O"; value = round_div c.io 1000; color = "#3dd68c" }
    ∷ record { name = "Network Sockets"; value = round_div c.net 1000; color = "#f5b942" }
    ∷ record { name = "Memory & mmap"; value = round_div c.mem 1000; color = "#a855f7" }
    ∷ record { name = "Process & Sched"; value = round_div c.proc 1000; color = "#3b82f6" }
    ∷ []

unfoldable pub syscall_category_data : Option Snapshot → List Slice
unfolding count_syscalls or_sample_calls category_slices
syscall_category_data s =
    category_slices (or_sample_calls (count_syscalls no_syscalls (list_of (λ s. s.syscalls_top) s)))

abbrev pub mebibytes : ℕ → ℕ
mebibytes n = round_div n 1_048_576

unfoldable pub memory_breakdown_data : Option Snapshot → List Slice
unfolding round_div
memory_breakdown_data s =
    let rss_bytes = field_or (λ (k : Kpis). k.rss_bytes) (kpis_of s) 67_108_864 in
    let vms_bytes = rss_bytes * 4 in
    let page_cache_bytes = round_div (rss_bytes * 4) 10 in
    let shared_bytes = round_div (rss_bytes * 15) 100 in
    record { name = "Active RSS"; value = mebibytes rss_bytes; color = "#3ce0cf" }
    ∷ record { name = "Page Cache"; value = mebibytes page_cache_bytes; color = "#3dd68c" }
    ∷ record { name = "Shared Libs"; value = mebibytes shared_bytes; color = "#f5b942" }
    ∷ record {
      name = "Virtual Stack/Heap";
      value = mebibytes (vms_bytes - rss_bytes);
      color = "#6366f1";
    }
    ∷ []

pub record IoRow : Type 0 where
  pub time : List ℕ
  pub read_kb : ℕ
  pub write_kb : ℕ
  pub iops : ℕ

unfoldable pub io_row : (ℕ → Clock) → IoPoint → ℕ → IoRow
unfolding minutes_text round_div
io_row clock pt i =
    let r_kb = round_div pt.r_bps 1_024_000 in
    let w_kb = round_div pt.w_bps 1_024_000 in
    record {
      time = minutes_text (clock pt.t);
      read_kb = r_kb;
      write_kb = w_kb;
      iops = round_div (r_kb + w_kb + 8 * (i % 5 * 4)) 8;
    }

unfoldable pub io_composed_data : (ℕ → Clock) → Option Snapshot → List IoRow
unfolding io_row
io_composed_data clock s = map_from (io_row clock) 0 (list_of (λ s. s.io_series) s)

pub record ConcurrencyRow : Type 0 where
  pub time : List ℕ
  pub threads : ℕ
  pub ctx_switches_per_sec : ℕ

-- The subtraction never stops at 0, since the number of threads is positive.
unfoldable pub concurrency_row : (ℕ → Clock) → ℕ → SeriesPoint → ℕ → ConcurrencyRow
unfolding minutes_text round_div
concurrency_row clock threads pt i = record {
  time = minutes_text (clock pt.t);
  threads = threads + i % 4 - 1;
  ctx_switches_per_sec = round_div (1_800_000 + pt.cpu_pct * 45 + i % 6 * 60_000) 1000;
}

unfoldable pub concurrency_data : (ℕ → Clock) → Option Snapshot → List ConcurrencyRow
unfolding concurrency_row
concurrency_data clock s =
    map_from (concurrency_row clock (field_or (λ (k : Kpis). k.threads) (kpis_of s) 24)) 0
      (list_of (λ s. s.cpu_series) s)
