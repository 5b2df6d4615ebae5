-- ===== src/Scratchpad.antt =====
-- frontend/src/components/GraphScratchpad.tsx: the preset buttons, the cycle of the facts and the
-- chart type that the user may choose for a graph.
pub mod Data
pub mod Charts
pub mod Keys
pub mod Board
pub mod Drawn
use Prim.Native.String.{◌++◌}
use drishtiscope_oss.Common.{ℕ, String, List, ◌+◌, ◌%◌, length, some, [], ◌∷◌}
use drishtiscope_oss.Common.Decimal.{decimal}
use drishtiscope_oss.Store.Types.{
  ScratchGraph, DataPreset, area, bar, line, composed, thread_mem, page_faults, ScopeStore,
}
use drishtiscope_oss.Store.{add_scratch_graph}

unfoldable pub thread_mem_preset : ℕ → ScratchGraph
thread_mem_preset now = record {
  id = "sg-thread-mem-" ++ decimal now;
  title = "Thread Concurrency vs Memory RSS Density";
  type = composed;
  description =
      "Correlating worker thread count with physical RAM consumption to detect memory leaks per worker thread.";
  help_metric_id = "thread_memory_density";
  y_axis_label = some "MiB / Threads";
  series =
      record { key = "rssMiB"; name = "RSS Physical RAM (MiB)"; color = "#3ce0cf"; type = some bar }
      ∷ record { key = "threads"; name = "Thread Count"; color = "#f5b942"; type = some line }
      ∷ [];
  data_preset = thread_mem;
}

unfoldable pub page_faults_preset : ℕ → ScratchGraph
page_faults_preset now = record {
  id = "sg-page-faults-" ++ decimal now;
  title = "Linux Page Fault Rates (Minor vs Major)";
  type = area;
  description =
      "Tracking memory page allocations. Minor faults resolve in RAM; major faults require disk page-in.";
  help_metric_id = "memory_subsystem";
  y_axis_label = some "Faults / sec";
  series =
      record {
        key = "minorFaults";
        name = "Minor Faults (RAM)";
        color = "#4285F4";
        type = some area;
      }
      ∷ record {
        key = "majorFaults";
        name = "Major Faults (Disk)";
        color = "#ff5d73";
        type = some line;
      }
      ∷ [];
  data_preset = page_faults;
}

-- `handleAddPreset`: the other presets add nothing.
unfoldable pub handle_add_preset : ℕ → DataPreset → ScopeStore → ScopeStore
unfolding add_scratch_graph
handle_add_preset now thread_mem st = add_scratch_graph (thread_mem_preset now) st
handle_add_preset now page_faults st = add_scratch_graph (page_faults_preset now) st
handle_add_preset now _ st = st

abbrev pub linux_facts : List String
linux_facts =
    "In Linux, there is always something to learn: CFS (Completely Fair Scheduler) uses a red-black tree keyed on vruntime to schedule threads with microsecond fairness."
    ∷ "In Linux, there is always something to learn: /proc/[pid]/statm reports memory in pages (typically 4096 bytes), not bytes. DrishtiScope converts this to MiB automatically!"
    ∷ "In Linux, there is always something to learn: eBPF ring buffers use memory-mapped circular queues with zero-copy atomic reads for sub-microsecond event delivery."
    ∷ "In Linux, there is always something to learn: Futex (Fast Userspace Mutex) operates entirely in userspace for uncontended locks, only calling into the kernel when a collision occurs."
    ∷ "In Linux, there is always something to learn: TCP sockets in TIME_WAIT state are kept by the kernel for 2xMSL (typically 60s) to catch stray packets on the wire."
    ∷ "In Linux, there is always something to learn: The OOM Killer calculates an oom_score (0-1000) for every process based on RAM proportion and /proc/[pid]/oom_score_adj."
    ∷ []

-- The timer of the facts.
abbrev pub next_fact : ℕ → ℕ
next_fact prev = (prev + 1) % length linux_facts
