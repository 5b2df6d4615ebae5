-- ===== src/Docs.antt =====
-- frontend/src/data/metricDocs.ts: the metric encyclopedia, an association list in the order of the
-- source. Its keys are looked up as an object's own properties; no id of the program is the name of
-- an inherited one.
pub mod Types
pub mod Usage
pub mod Signals
pub mod Budgets
pub mod Kernel
pub mod Tables
pub mod Curves
pub mod Laws
use drishtiscope_oss.Common.{String, Option, none, some, List, [], ◌∷◌, ◌==◌, if◌then◌else◌}
use Types.{MetricDoc}
use Usage.{
  cpu_pct, threads, rss_bytes, open_fds, syscalls_per_sec, err_syscalls_per_sec, net_throughput,
}
use Signals.{
  disk_io, p50_latency, p90_latency, p99_latency, slo_availability, error_budget, burn_rate,
}
use Budgets.{
  runqueue_latency, saturation, pid, process_state, tcp_state, file_ops, chronicle_security,
}
use Kernel.{
  perfetto_trace, mql_query, event_rate, dropped_events, vms_bytes, ctx_switches, page_faults,
}
use Tables.{
  tcp_flows, sqlite_tsdb, ai_workload_radar, flamegraph_cpu, comm, latency_quantile_curve,
  scheduler_runqueue,
}
use Curves.{
  net_stream_bidi, thread_memory_density, scratchpad_sandbox, stream_live_pause, time_window_range,
  telemetry_modes,
}

unfoldable pub lookup : String → List (String × MetricDoc) → Option MetricDoc
lookup id [] = none
lookup id ((k, d) ∷ docs) = if k == id then some d else lookup id docs

abbrev pub metric_docs : List (String × MetricDoc)
metric_docs =
    ("cpu_pct", cpu_pct)
    ∷ ("threads", threads)
    ∷ ("rss_bytes", rss_bytes)
    ∷ ("open_fds", open_fds)
    ∷ ("syscalls_per_sec", syscalls_per_sec)
    ∷ ("err_syscalls_per_sec", err_syscalls_per_sec)
    ∷ ("net_throughput", net_throughput)
    ∷ ("disk_io", disk_io)
    ∷ ("p50_latency", p50_latency)
    ∷ ("p90_latency", p90_latency)
    ∷ ("p99_latency", p99_latency)
    ∷ ("slo_availability", slo_availability)
    ∷ ("error_budget", error_budget)
    ∷ ("burn_rate", burn_rate)
    ∷ ("runqueue_latency", runqueue_latency)
    ∷ ("saturation", saturation)
    ∷ ("pid", pid)
    ∷ ("process_state", process_state)
    ∷ ("tcp_state", tcp_state)
    ∷ ("file_ops", file_ops)
    ∷ ("chronicle_security", chronicle_security)
    ∷ ("perfetto_trace", perfetto_trace)
    ∷ ("mql_query", mql_query)
    ∷ ("event_rate", event_rate)
    ∷ ("dropped_events", dropped_events)
    ∷ ("vms_bytes", vms_bytes)
    ∷ ("ctx_switches", ctx_switches)
    ∷ ("page_faults", page_faults)
    ∷ ("tcp_flows", tcp_flows)
    ∷ ("sqlite_tsdb", sqlite_tsdb)
    ∷ ("ai_workload_radar", ai_workload_radar)
    ∷ ("flamegraph_cpu", flamegraph_cpu)
    ∷ ("comm", comm)
    ∷ ("latency_quantile_curve", latency_quantile_curve)
    ∷ ("scheduler_runqueue", scheduler_runqueue)
    ∷ ("net_stream_bidi", net_stream_bidi)
    ∷ ("thread_memory_density", thread_memory_density)
    ∷ ("scratchpad_sandbox", scratchpad_sandbox)
    ∷ ("stream_live_pause", stream_live_pause)
    ∷ ("time_window_range", time_window_range)
    ∷ ("telemetry_modes", telemetry_modes)
    ∷ []
