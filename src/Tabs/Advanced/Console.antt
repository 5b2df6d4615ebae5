-- ===== src/Tabs/Advanced/Console.antt =====
-- The console and the fixed figures of frontend/src/components/tabs/AdvancedTab.tsx, and the legends beside
-- its two pies.
use Prim.Native.String.{◌++◌}
use drishtiscope_oss.Common.{String, Option, Bool, List, [], ◌∷◌, map, ◌≡◌, refl, ◌==◌}
use drishtiscope_oss.Common.Decimal.{decimal}
use drishtiscope_oss.Protocol.{Snapshot}
use drishtiscope_oss.Tabs.Advanced.{
  MqlTab, cpu, mem, syscall, io, mql_query, Slice, syscall_category_data, memory_breakdown_data,
}

abbrev pub mql_name : MqlTab → String
mql_name cpu = "cpu"
mql_name mem = "mem"
mql_name syscall = "syscall"
mql_name io = "io"

abbrev pub mql_buttons : List (MqlTab × String)
mql_buttons =
    (cpu, "CPU MQL") ∷ (mem, "Memory MQL") ∷ (syscall, "Syscalls MQL") ∷ (io, "Storage MQL") ∷ []

abbrev pub is_marked : MqlTab → MqlTab → Bool
is_marked current q = mql_name current == mql_name q

-- The console: the query of the chosen tab, and an answer.
pub record Console : Type 0 where
  pub query : String
  pub answer : String

unfoldable pub console : MqlTab → Option Snapshot → Console
unfolding mql_query
console q s = record { query = mql_query q s; answer = "200 OK (0.42ms)" }

-- The row "Subsystem Diagnosis".
pub record Diagnosis : Type 0 where
  pub name : String
  pub help_metric_id : String
  pub figure : String
  pub verdict : String

unfoldable pub diagnoses : Option Snapshot → List Diagnosis
diagnoses s =
    record {
      name = "Kernel Sched Latency";
      help_metric_id = "runqueue_latency";
      figure = "1.42 µs";
      verdict = "Jitter: 0.12µs";
    }
    ∷ record {
      name = "Page Faults / sec";
      help_metric_id = "page_faults";
      figure = "2.8 /s";
      verdict = "Minor Faults (Zero CoW)";
    }
    ∷ record {
      name = "Socket Drop Rate";
      help_metric_id = "dropped_events";
      figure = "0.00%";
      verdict = "0 pkts dropped";
    }
    ∷ []

-- A line of a legend.
pub record Entry : Type 0 where
  pub name : String
  pub color : String
  pub figure : String

abbrev pub legend_of : String → List Slice → List Entry
legend_of unit slices =
    map (λ (x : Slice). record { name = x.name; color = x.color; figure = decimal x.value ++ unit })
      slices

unfoldable pub syscall_legend : Option Snapshot → List Entry
unfolding syscall_category_data
syscall_legend s = legend_of " /s" (syscall_category_data s)

unfoldable pub memory_legend : Option Snapshot → List Entry
unfolding memory_breakdown_data
memory_legend s = legend_of " MB" (memory_breakdown_data s)

-- The figures of the diagnosis and the answer of the console are the same whatever the snapshot is.
pub diagnoses_fixed :
    (s t : Option Snapshot) (p q : MqlTab)
    → (diagnoses s ≡ diagnoses t) × ((console p s).answer ≡ (console q t).answer)
unfolding diagnoses console
diagnoses_fixed s t p q = (refl, refl)
