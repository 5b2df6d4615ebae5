-- ===== src/Widgets/Panels.antt =====
-- The panels of the tabs that have a help button, and a heading that does not depend on the data.
use drishtiscope_oss.Common.{String, Option, some, List, [], ◌∷◌}

-- Panel: the part of its arguments that the headings are.
pub record PanelHead : Type 0 where
  pub title : String
  pub subtitle : Option String
  pub help_metric_id : String
  pub help_color : String

abbrev pub monarch_vitals_panel : PanelHead
monarch_vitals_panel = record {
  title = "Monarch Vitals: Synchronized Traffic vs Latency Waveform";
  subtitle =
      some
        "Real-time 60-second correlation between Syscall Traffic (RPS) and Kernel Execution P99 Latency (µs)";
  help_metric_id = "p99_latency";
  help_color = "amber";
}

abbrev pub continuous_ebpf_profiler_panel : PanelHead
continuous_ebpf_profiler_panel = record {
  title = "Continuous eBPF Profiler: CPU Stack Frame Breakdown";
  subtitle = some "Continuous low-overhead eBPF CPU instruction sampling & execution call tree";
  help_metric_id = "flamegraph_cpu";
  help_color = "cyan";
}

abbrev pub perfetto_kernel_trace_timeline_panel : PanelHead
perfetto_kernel_trace_timeline_panel = record {
  title = "Perfetto Kernel Trace Timeline";
  subtitle =
      some
        "Multi-lane timeline of asynchronous kernel syscalls, sockets, and task scheduler events";
  help_metric_id = "perfetto_trace";
  help_color = "purple";
}

abbrev pub system_metrics_waveform_panel : PanelHead
system_metrics_waveform_panel = record {
  title = "System Metrics Waveform";
  subtitle = some "60s synchronized CPU, Storage, and Network waveforms";
  help_metric_id = "cpu_pct";
  help_color = "cyan";
}

abbrev pub top_system_calls_panel : PanelHead
top_system_calls_panel = record {
  title = "Top System Calls";
  subtitle = some "Active execution distribution";
  help_metric_id = "syscalls_per_sec";
  help_color = "cyan";
}

abbrev pub active_linux_process_hierarchy_panel : PanelHead
active_linux_process_hierarchy_panel = record {
  title = "Active Linux Process Hierarchy";
  subtitle = some "Live /proc and eBPF aggregated process state";
  help_metric_id = "pid";
  help_color = "blue";
}

abbrev pub syscall_category_distribution_panel : PanelHead
syscall_category_distribution_panel = record {
  title = "Syscall Category Distribution";
  subtitle = some "Proportional workload by Linux syscall subsystem";
  help_metric_id = "syscalls_per_sec";
  help_color = "cyan";
}

abbrev pub memory_subsystem_breakdown_panel : PanelHead
memory_subsystem_breakdown_panel = record {
  title = "Memory Subsystem Breakdown";
  subtitle = some "Resident RSS vs Page Cache vs Shared Libs (MB)";
  help_metric_id = "rss_bytes";
  help_color = "purple";
}

abbrev pub disk_block_throughput_iops_panel : PanelHead
disk_block_throughput_iops_panel = record {
  title = "Disk Block Throughput & IOPS";
  subtitle = some "Read KB/s vs Write KB/s (bars) + IOPS overlay (line)";
  help_metric_id = "disk_io";
  help_color = "emerald";
}

abbrev pub kernel_context_switches_threads_panel : PanelHead
kernel_context_switches_threads_panel = record {
  title = "Kernel Context Switches & Threads";
  subtitle = some "Scheduling pressure & voluntary context switch rate";
  help_metric_id = "ctx_switches";
  help_color = "blue";
}

abbrev pub tcp_socket_state_spectrum_panel : PanelHead
tcp_socket_state_spectrum_panel = record {
  title = "TCP Socket State Spectrum";
  subtitle = some "Active connections mapped by kernel TCP FSM state";
  help_metric_id = "tcp_state";
  help_color = "amber";
}

abbrev pub security_kernel_denial_trends_panel : PanelHead
security_kernel_denial_trends_panel = record {
  title = "Security & Kernel Denial Trends";
  subtitle = some "EACCES violations, blocked connect() calls & sensitive procfs touches";
  help_metric_id = "chronicle_security";
  help_color = "rose";
}

abbrev pub structured_kernel_log_explorer_panel : PanelHead
structured_kernel_log_explorer_panel = record {
  title = "Structured Kernel Log Explorer";
  subtitle = some "Security audit telemetry & JSON LogEntry records";
  help_metric_id = "chronicle_security";
  help_color = "rose";
}

abbrev pub panels : List PanelHead
panels =
    monarch_vitals_panel ∷ continuous_ebpf_profiler_panel ∷ perfetto_kernel_trace_timeline_panel
    ∷ system_metrics_waveform_panel ∷ top_system_calls_panel ∷ active_linux_process_hierarchy_panel
    ∷ syscall_category_distribution_panel ∷ memory_subsystem_breakdown_panel
    ∷ disk_block_throughput_iops_panel ∷ kernel_context_switches_threads_panel
    ∷ tcp_socket_state_spectrum_panel ∷ security_kernel_denial_trends_panel
    ∷ structured_kernel_log_explorer_panel ∷ []
