-- ===== src/Chat/Graphs.antt =====
-- The graphs that `sendMessage` of frontend/src/components/ChatDrawer.tsx adds to the scratchpad when
-- the text asks for one. `now` is `Date.now()`.
use Prim.Native.String.{◌++◌}
use drishtiscope_oss.Common.{
  ℕ, Bool, false, ◌||◌, Option, none, List, String, some, [], ◌∷◌, if◌then◌else◌,
}
use drishtiscope_oss.Common.Decimal.{decimal}
use drishtiscope_oss.Store.Types.{
  ScratchGraph, area, bar, line, composed, quantile_curve, runqueue_switches, net_bidi, thread_mem,
  page_faults,
}
use drishtiscope_oss.Common.Text.{codes, includes}

unfoldable pub thread_mem_graph : ℕ → ScratchGraph
thread_mem_graph now = record {
  id = "sg-thread-mem-" ++ decimal now;
  title = "Thread Concurrency vs Memory RSS Density";
  type = composed;
  description =
      "Correlating worker thread count with physical RAM consumption to detect memory leaks per worker thread.";
  help_metric_id = "thread_memory_density";
  y_axis_label = some "MiB / Threads";
  series =
      record { key = "rssMiB"; name = "RSS Physical RAM (MiB)"; color = "#3ce0cf"; type = some bar }
      ∷ record { key = "threads"; name = "Thread Count"; color = "#f5b942"; type = some line }
      ∷ [];
  data_preset = thread_mem;
}

unfoldable pub runqueue_graph : ℕ → ScratchGraph
runqueue_graph now = record {
  id = "sg-runqueue-" ++ decimal now;
  title = "CFS Scheduler Runqueue & Thread Contention";
  type = composed;
  description =
      "Correlating CPU scheduler wait line (runqueue) against active concurrency switches.";
  help_metric_id = "scheduler_runqueue";
  y_axis_label = some "Latency (µs) / Count";
  series =
      record { key = "runqueue"; name = "Runqueue Wait (µs)"; color = "#4285F4"; type = some area }
      ∷ record { key = "threads"; name = "Active Threads"; color = "#FBBC04"; type = some line }
      ∷ [];
  data_preset = runqueue_switches;
}

unfoldable pub net_graph : ℕ → ScratchGraph
net_graph now = record {
  id = "sg-net-bidi-" ++ decimal now;
  title = "Bi-Directional Network Ingress vs Egress Streaming";
  type = area;
  description =
      "Dual stream comparing outbound prompt payload (TX) against incoming LLM token stream (RX).";
  help_metric_id = "net_stream_bidi";
  y_axis_label = some "Throughput (KB/s)";
  series =
      record { key = "rxKb"; name = "Ingress RX (KB/s)"; color = "#34A853"; type = some area }
      ∷ record { key = "txKb"; name = "Egress TX (KB/s)"; color = "#EA4335"; type = some area }
      ∷ [];
  data_preset = net_bidi;
}

unfoldable pub page_faults_graph : ℕ → ScratchGraph
page_faults_graph now = record {
  id = "sg-page-faults-" ++ decimal now;
  title = "Linux Page Fault Rates (Minor vs Major)";
  type = area;
  description =
      "Tracking memory page allocations. Minor faults resolve in RAM; major faults require disk page-in.";
  help_metric_id = "memory_subsystem";
  y_axis_label = some "Faults / sec";
  series =
      record {
        key = "minorFaults";
        name = "Minor Faults (RAM)";
        color = "#4285F4";
        type = some area;
      }
      ∷ record {
        key = "majorFaults";
        name = "Major Faults (Disk)";
        color = "#ff5d73";
        type = some line;
      }
      ∷ [];
  data_preset = page_faults;
}

unfoldable pub quantile_graph : ℕ → ScratchGraph
quantile_graph now = record {
  id = "sg-quantile-" ++ decimal now;
  title = "Syscall Latency Quantile Distribution (P50 – P99.9)";
  type = line;
  description =
      "Kernel latency step function across statistical percentiles to detect severe tail-latency drag.";
  help_metric_id = "latency_quantile_curve";
  y_axis_label = some "Latency (µs)";
  series =
      record { key = "latency"; name = "Latency (µs)"; color = "#a855f7"; type = some line } ∷ [];
  data_preset = quantile_curve;
}

-- `lower.includes(word)` for one of the words
abbrev pub mentions : List String → List ℕ → Bool
mentions [] lower = false
mentions (word ∷ words) lower = includes lower (codes word) || mentions words lower

abbrev pub asks_for_graph : List ℕ → Bool
asks_for_graph lower = mentions ("graph" ∷ "plot" ∷ "draw" ∷ "chart" ∷ []) lower

-- The graph to add and the title that the reply names; the reply's title of the quantile graph is
-- shorter than the graph's own.
unfoldable pub requested_graph : ℕ → List ℕ → Option (ScratchGraph × String)
unfolding includes
requested_graph now lower =
    if asks_for_graph lower
    then (if mentions ("thread" ∷ "mem" ∷ "rss" ∷ []) lower
        then some (thread_mem_graph now, "Thread Concurrency vs Memory RSS Density")
        else if mentions ("runqueue" ∷ "scheduler" ∷ "wait" ∷ []) lower
        then some (runqueue_graph now, "CFS Scheduler Runqueue & Thread Contention")
        else if mentions ("net" ∷ "stream" ∷ "ingress" ∷ "egress" ∷ []) lower
        then some (net_graph now, "Bi-Directional Network Ingress vs Egress Streaming")
        else if mentions ("fault" ∷ "page" ∷ []) lower
        then some (page_faults_graph now, "Linux Page Fault Rates (Minor vs Major)")
        else some (quantile_graph now, "Syscall Latency Quantile Distribution"))
    else none
