-- ===== src/Docs/Signals.antt =====
-- frontend/src/data/metricDocs.ts: the entries disk_io to burn_rate of the metric encyclopedia.
use drishtiscope_oss.Docs.Types.{
  MetricDoc, core_agent_signals, storage_disk, amber, blue, emerald, purple, rose,
}

abbrev pub disk_io : MetricDoc
disk_io = record {
  id = "disk_io";
  title = "Disk Storage I/O Rate (Read + Write)";
  category = storage_disk;
  theme_color = amber;
  short_definition =
      "Throughput in bytes per second read from and written to permanent storage drives.";
  junior_admin_explanation =
      "This measures disk drive activity. High read rates happen when loading code files; high write rates occur when logging or saving files to disk. Linux caches files in RAM, so disk I/O represents actual disk access.";
  how_to_read = record {
    unit = "Bytes/s (KB/s / MB/s)";
    healthy = "< 500 KB/s: Normal workspace editing and logging.";
    warning = "500 KB/s – 10 MB/s: Heavy git operations or database checkpointing.";
    critical = "> 50 MB/s: High storage latency risk; can freeze system responsiveness.";
  };
  why_ai_agents_care =
      "AI coding agents frequently read multi-megabyte source trees and append dense event logs into SQLite WAL files.";
  linux_admin_command = "iotop -p <PID> -b -n 2";
  kernel_data_source = "/proc/[pid]/io (read_bytes and write_bytes deltas)";
}

abbrev pub p50_latency : MetricDoc
p50_latency = record {
  id = "p50_latency";
  title = "P50 Median Latency";
  category = core_agent_signals;
  theme_color = blue;
  short_definition = "The 50th percentile of kernel syscall execution time (median response time).";
  junior_admin_explanation =
      "Half of all system calls finish faster than this number. In Linux, typical memory and epoll syscalls complete in 1 to 2 microseconds (µs). If P50 is high, the entire operating system is dragging.";
  how_to_read = record {
    unit = "Microseconds (µs)";
    healthy = "< 2.5 µs: Fast kernel execution.";
    warning = "2.5 µs – 10 µs: Moderate kernel lock contention.";
    critical = "> 25 µs: Severe CPU throttling or heavy memory swapping.";
  };
  why_ai_agents_care =
      "Ensures the agent is not experiencing fundamental OS latency when making basic system calls.";
  linux_admin_command = "perf top -p <PID>";
  kernel_data_source = "eBPF histogram tracking sys_enter to sys_exit duration";
}

abbrev pub p90_latency : MetricDoc
p90_latency = record {
  id = "p90_latency";
  title = "P90 Syscall Latency";
  category = core_agent_signals;
  theme_color = purple;
  short_definition =
      "The 90th percentile latency: 90% of system calls complete faster than this value.";
  junior_admin_explanation =
      "While P50 shows the average speed, P90 exposes slower calls (such as file reads waiting for disk or network socket lookups) without being skewed by rare outliers.";
  how_to_read = record {
    unit = "Microseconds (µs)";
    healthy = "< 8.0 µs: Excellent kernel responsiveness.";
    warning = "8.0 µs – 30 µs: Noticeable I/O delays.";
    critical = "> 100 µs: Blocked on disk I/O or waiting for network ACKs.";
  };
  why_ai_agents_care =
      "Provides early warning before tail latency harms real-time streaming interactions.";
  linux_admin_command = "syscount -d 5 -p <PID>";
  kernel_data_source = "eBPF duration histogram 90th percentile";
}

abbrev pub p99_latency : MetricDoc
p99_latency = record {
  id = "p99_latency";
  title = "P99 Tail Latency (Worst 1%)";
  category = core_agent_signals;
  theme_color = rose;
  short_definition =
      "The 99th percentile: only 1 in 100 system calls experiences latency higher than this number.";
  junior_admin_explanation =
      "Tail latency represents the \"worst case\" moments. Even if an agent runs fast 99% of the time, high P99 latency causes stuttering, dropped connections, and perceived freezes.";
  how_to_read = record {
    unit = "Microseconds (µs)";
    healthy = "< 35 µs: High performance with no major stalls.";
    warning = "35 µs – 150 µs: Occasional disk flush or mutex contention pauses.";
    critical = "> 500 µs: Kernel lockups, thread deadlocks, or disk stalls.";
  };
  why_ai_agents_care =
      "AI agents experience user-facing lag when tail latency spikes, often caused by synchronizing large SQLite WAL checkpoints or slow DNS queries.";
  linux_admin_command = "strace -T -p <PID> -o /tmp/trace.log";
  kernel_data_source = "eBPF duration histogram 99th percentile bucket";
}

abbrev pub slo_availability : MetricDoc
slo_availability = record {
  id = "slo_availability";
  title = "SLO Availability (%)";
  category = core_agent_signals;
  theme_color = emerald;
  short_definition =
      "Service Level Objective compliance score calculated as (Successful Syscalls / Total Syscalls) * 100%.";
  junior_admin_explanation =
      "Standard system reliability metric indicating what fraction of system interactions succeeded without kernel errors. Enterprise reliability targets aim for \"Three Nines\" (99.9%).";
  how_to_read = record {
    unit = "% (Target >= 99.9%)";
    healthy = ">= 99.90%: Meeting enterprise reliability targets.";
    warning = "99.00% – 99.89%: Error budget being consumed.";
    critical = "< 99.00%: SLO breach! Immediate engineering attention required.";
  };
  why_ai_agents_care =
      "Monitors whether autonomous background agents run reliably without silent systemic errors or intermittent network dropouts.";
  linux_admin_command =
      "curl -s http://localhost:8080/metrics | grep agentscope_sre_slo_availability";
  kernel_data_source = "Calculated over rolling 60-second sliding window";
}

abbrev pub error_budget : MetricDoc
error_budget = record {
  id = "error_budget";
  title = "Error Budget Remaining (%)";
  category = core_agent_signals;
  theme_color = emerald;
  short_definition =
      "The remaining allowable unreliability buffer for the current 30-day operating window.";
  junior_admin_explanation =
      "In modern software reliability philosophy, 100% reliability is the wrong target because it stifles rapid iteration. The Error Budget defines how many errors the service is allowed to have before new deployments must be paused to focus on stability.";
  how_to_read = record {
    unit = "% (Remaining Buffer)";
    healthy = "> 70%: Plenty of error budget remaining; safe to deploy.";
    warning = "20% – 70%: Budget depleting; monitor agent failure causes.";
    critical = "< 20%: Budget exhausted! Halt feature changes and fix bugs.";
  };
  why_ai_agents_care =
      "Allows autonomous agents to self-throttle their execution if their error budget drops too quickly.";
  linux_admin_command = "curl -s http://localhost:8080/metrics | grep agentscope_sre_error_budget";
  kernel_data_source = "Derived from SLO target delta integrated over uptime";
}

abbrev pub burn_rate : MetricDoc
burn_rate = record {
  id = "burn_rate";
  title = "Error Budget Burn Rate";
  category = core_agent_signals;
  theme_color = amber;
  short_definition =
      "Rate at which the error budget is currently being consumed compared to the allowable baseline rate.";
  junior_admin_explanation =
      "A burn rate of 1.0x means you will exhaust exactly 100% of your error budget in 30 days. A burn rate of 2.0x means you will run out in 15 days. A burn rate of 14.4x means your budget will vanish in just 2 days!";
  how_to_read = record {
    unit = "Multiplier (x)";
    healthy = "< 1.0x: Sustainable error consumption.";
    warning = "1.0x – 2.5x: Faster than acceptable; investigate root cause.";
    critical = "> 3.0x: Rapid budget burn; triggers on-call automated alerts.";
  };
  why_ai_agents_care =
      "Alerts operators instantly if an agent starts failing repeatedly before an entire outage unfolds.";
  linux_admin_command = "curl -s http://localhost:8080/metrics | grep agentscope_sre_burn_rate";
  kernel_data_source = "Integrated error rate / permitted error rate ratio";
}
