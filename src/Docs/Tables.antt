-- ===== src/Docs/Tables.antt =====
-- frontend/src/data/metricDocs.ts: the entries tcp_flows to scheduler_runqueue of the metric encyclopedia.
use drishtiscope_oss.Docs.Types.{
  MetricDoc, compute_cpu, core_agent_signals, network_sockets, processes_threads, storage_disk,
  amber, blue, cyan, emerald, purple,
}

abbrev pub tcp_flows : MetricDoc
tcp_flows = record {
  id = "tcp_flows";
  title = "TCP Network Flows & Sockets";
  category = network_sockets;
  theme_color = emerald;
  short_definition =
      "Real-time table of active socket descriptors mapped to local and remote IP addresses, ports, and states.";
  junior_admin_explanation =
      "Every outbound HTTP request, WebSocket stream, or database query has an entry here. DrishtiScope inspects `/proc/[pid]/fd` socket inodes and correlates them with the kernel TCP table to show exact connections.";
  how_to_read = record {
    unit = "Flow Table";
    healthy = "ESTABLISHED connections with consistent TX and RX bytes.";
    warning = "Repeated SYN_SENT indicating network timeouts or firewall drops.";
    critical = "Accumulation of unclosed sockets or connection storms.";
  };
  why_ai_agents_care =
      "Autonomous agents connect to cloud LLMs (OpenAI, Anthropic, Gemini, Grok) and local tool endpoints. Flow monitoring exposes connection health.";
  linux_admin_command = "ss -tanp | grep <PID>";
  kernel_data_source = "/proc/[pid]/net/tcp matched with /proc/[pid]/fd socket inodes";
}

abbrev pub sqlite_tsdb : MetricDoc
sqlite_tsdb = record {
  id = "sqlite_tsdb";
  title = "SQLite TSDB Telemetry Storage";
  category = storage_disk;
  theme_color = amber;
  short_definition =
      "Zero-dependency embedded time-series database with Write-Ahead Logging (WAL) for persistent telemetry.";
  junior_admin_explanation =
      "Unlike cloud agents that depend on massive external servers, DrishtiScope embeds a blazing-fast local SQLite database. Snapshots and kernel events are atomically written with WAL mode, giving you historical playback with zero configuration.";
  how_to_read = record {
    unit = "Records & File Size";
    healthy = "Sub-millisecond write latency, automatic rolling retention.";
    warning = "WAL file growing if checkpointing is delayed.";
    critical = "Disk full preventing persistence.";
  };
  why_ai_agents_care =
      "Guarantees audit trails and post-mortem incident playback even if network connectivity is severed.";
  linux_admin_command =
      "sqlite3 drishtiscope.db \"SELECT count(*), datetime(min(t)/1000, 'unixepoch') FROM snapshots;\"";
  kernel_data_source = "drishtiscope.db SQLite WAL persistence engine";
}

abbrev pub ai_workload_radar : MetricDoc
ai_workload_radar = record {
  id = "ai_workload_radar";
  title = "AI Agent Workload Profile (Radar)";
  category = core_agent_signals;
  theme_color = purple;
  short_definition =
      "Multi-dimensional footprint comparing autonomous agent compute, memory, I/O, and syscall intensity against standard daemons.";
  junior_admin_explanation =
      "Autonomous AI agents have unique behavioral signatures: they stream network tokens, execute frequent sub-process forks, maintain large context caches in memory, and perform bursts of file operations. The radar chart shows how your agent behaves across 6 key axes.";
  how_to_read = record {
    unit = "Intensity Score (0 – 100)";
    healthy = "Balanced polygon without extreme spikes on Security Sensitivity.";
    warning = "High Syscall Volatility (> 85) during tight loops.";
    critical = "Security Sensitivity > 75: Agent attempting forbidden operations.";
  };
  why_ai_agents_care =
      "Helps operators distinguish between normal agent reasoning bursts vs runaway tool loops.";
  linux_admin_command = "top -p <PID> -b -n 1";
  kernel_data_source = "Aggregate metrics normalized against baseline kernel profile";
}

abbrev pub flamegraph_cpu : MetricDoc
flamegraph_cpu = record {
  id = "flamegraph_cpu";
  title = "Cloud Profiler: On-CPU Flame Graph";
  category = compute_cpu;
  theme_color = cyan;
  short_definition =
      "Kernel and userspace call-stack symbol sampling at 100Hz to pinpoint where CPU cycles are spent.";
  junior_admin_explanation =
      "Instead of guessing why an agent is taking CPU, a flame graph records the exact function call tree. Wide bars mean more CPU time was spent in that function (e.g. `runtime.futex` vs `agent.token_stream`).";
  how_to_read = record {
    unit = "% CPU Share";
    healthy = "Work distributed across expected functions (event loop, JSON parsing).";
    warning = "Single function consuming > 70% of CPU.";
    critical = "Spinlock or deadlock loops dominating the profile.";
  };
  why_ai_agents_care =
      "Allows optimizing prompt token decoding, tool serialization, and goroutine synchronization.";
  linux_admin_command = "perf record -F 99 -p <PID> -g -- sleep 5 && perf report";
  kernel_data_source = "eBPF perf_event instruction pointer sampling";
}

abbrev pub comm : MetricDoc
comm = record {
  id = "comm";
  title = "Command Name (comm)";
  category = processes_threads;
  theme_color = cyan;
  short_definition = "Short 16-character task name of the executable stored in task_struct->comm.";
  junior_admin_explanation =
      "In Linux, the kernel limits the task name to 16 characters (TASK_COMM_LEN). This is the name shown in top, ps, and /proc/[pid]/comm (e.g. \"agy\", \"node\", \"python3\", \"grok\"). Node-based agents such as GitHub Copilot often report comm as \"MainThread\" — that name is shared with every VS Code fork and is not unique. For those agents, type a cmdline token in the header filter instead (copilot), which matches /proc/[pid]/cmdline.";
  how_to_read = record {
    unit = "String (up to 16 chars)";
    healthy =
        "Matches expected binary name (e.g. agy, python3, go) or a cmdline token such as copilot.";
    warning = "Generic names (MainThread, node) match many unrelated processes.";
    critical = "Disguised process names used by malware or unrecognized binaries.";
  };
  why_ai_agents_care =
      "DrishtiScope targets agents by comm, PID, or cmdline substring. GitHub Copilot is identified by cmdline containing @github/copilot, not by comm.";
  linux_admin_command = "cat /proc/<PID>/comm; tr \"\\0\" \" \" < /proc/<PID>/cmdline; echo";
  kernel_data_source = "/proc/[pid]/comm, /proc/[pid]/cmdline, and task_struct->comm in eBPF";
}

abbrev pub latency_quantile_curve : MetricDoc
latency_quantile_curve = record {
  id = "latency_quantile_curve";
  title = "Syscall Latency Quantile Curve (P50 – P99.9)";
  category = compute_cpu;
  theme_color = purple;
  short_definition =
      "Stepwise distribution curve showing how syscall latency escalates across statistical percentiles.";
  junior_admin_explanation =
      "Rather than relying on misleading single averages, the quantile curve graphs the full latency spectrum: P50 (median), P75, P90, P95, P99, and P99.9. In Linux systems, a steep hockey-stick shape at P99 indicates tail-latency anomalies like disk lock stalls or slow DNS.";
  how_to_read = record {
    unit = "Microseconds (µs)";
    healthy = "P50 < 3µs, P99 < 50µs: Predictable real-time kernel responsiveness.";
    warning = "P90 > 25µs or P99 > 150µs: Stalls in epoll or socket buffer allocation.";
    critical = "P99.9 > 1,000µs (1ms): Severe thread freezes disrupting agent prompt generation.";
  };
  why_ai_agents_care =
      "Streaming LLM token generation demands sub-millisecond dispatch. Tail latency spikes cause stuttering during autonomous tool execution.";
  linux_admin_command = "bpftool prog tracelog or strace -r -p <PID>";
  kernel_data_source = "eBPF duration histogram tracking sys_enter to sys_exit timestamp deltas";
}

abbrev pub scheduler_runqueue : MetricDoc
scheduler_runqueue = record {
  id = "scheduler_runqueue";
  title = "CFS Scheduler Runqueue & Context Switches";
  category = compute_cpu;
  theme_color = blue;
  short_definition =
      "Time runnable threads spend queuing for CPU execution time vs kernel context switch velocity.";
  junior_admin_explanation =
      "When your agent wants to execute code, the Linux Completely Fair Scheduler (CFS) places it on a per-CPU runqueue. If other processes monopolize the CPU, runqueue wait time spikes. Context switches indicate how frequently CPU cores swap out active threads.";
  how_to_read = record {
    unit = "µs wait / switches per sec";
    healthy = "Runqueue < 1.5µs, steady voluntary context switches.";
    warning = "Runqueue 1.5 – 10µs: CPU over-subscription or thread contention.";
    critical = "Runqueue > 20µs: Severe CPU starvation; threads waiting too long to execute.";
  };
  why_ai_agents_care =
      "Identifies whether agent slowdown is caused by its own code or by background host contention.";
  linux_admin_command = "vmstat 1 5 or perf stat -e context-switches,cpu-migrations -p <PID>";
  kernel_data_source =
      "/proc/[pid]/status (voluntary_ctxt_switches) and CFS scheduler runqueue wait metrics";
}
