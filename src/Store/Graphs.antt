-- ===== src/Store/Graphs.antt =====
-- The default scratch graphs of frontend/src/store/useScopeStore.ts.
use drishtiscope_oss.Common.{some, List, [], ◌∷◌}
use drishtiscope_oss.Store.Types.{
  ScratchGraph, area, line, composed, quantile_curve, runqueue_switches, net_bidi,
}

abbrev pub sg_quantile : ScratchGraph
sg_quantile = record {
  id = "sg-quantile";
  title = "Syscall Latency Quantile Distribution (P50 – P99.9)";
  type = line;
  description =
      "Kernel latency step function across statistical percentiles to detect severe tail-latency drag.";
  help_metric_id = "latency_quantile_curve";
  y_axis_label = some "Latency (µs)";
  series =
      record { key = "latency"; name = "Latency (µs)"; color = "#a855f7"; type = some line } ∷ [];
  data_preset = quantile_curve;
}

abbrev pub sg_runqueue : ScratchGraph
sg_runqueue = record {
  id = "sg-runqueue";
  title = "CFS Scheduler Runqueue & Thread Contention";
  type = composed;
  description =
      "Correlating CPU scheduler wait line (runqueue) against active concurrency switches.";
  help_metric_id = "scheduler_runqueue";
  y_axis_label = some "Latency (µs) / Count";
  series =
      record { key = "runqueue"; name = "Runqueue Wait (µs)"; color = "#4285F4"; type = some area }
      ∷ record { key = "threads"; name = "Active Threads"; color = "#FBBC04"; type = some line }
      ∷ [];
  data_preset = runqueue_switches;
}

abbrev pub sg_net_bidi : ScratchGraph
sg_net_bidi = record {
  id = "sg-net-bidi";
  title = "Bi-Directional Network Ingress vs Egress Streaming";
  type = area;
  description =
      "Dual stream comparing outbound prompt payload (TX) against incoming LLM token stream (RX).";
  help_metric_id = "net_stream_bidi";
  y_axis_label = some "Throughput (KB/s)";
  series =
      record { key = "rxKb"; name = "Ingress RX (KB/s)"; color = "#34A853"; type = some area }
      ∷ record { key = "txKb"; name = "Egress TX (KB/s)"; color = "#EA4335"; type = some area }
      ∷ [];
  data_preset = net_bidi;
}

-- The list with which the store starts.
abbrev pub initial_scratch_graphs : List ScratchGraph
initial_scratch_graphs = sg_quantile ∷ sg_runqueue ∷ sg_net_bidi ∷ []

-- The list that `resetScratchGraphs` writes out again.
abbrev pub reset_list : List ScratchGraph
reset_list = sg_quantile ∷ sg_runqueue ∷ sg_net_bidi ∷ []
