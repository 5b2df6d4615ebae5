-- ===== src/Docs/Curves.antt =====
-- frontend/src/data/metricDocs.ts: the entries net_stream_bidi to telemetry_modes of the metric encyclopedia.
use drishtiscope_oss.Docs.Types.{
  MetricDoc, compute_cpu, core_agent_signals, kernel_ebpf, network_sockets, processes_threads,
  amber, cyan, emerald,
}

abbrev pub net_stream_bidi : MetricDoc
net_stream_bidi = record {
  id = "net_stream_bidi";
  title = "Bi-Directional Network Ingress vs Egress";
  category = network_sockets;
  theme_color = emerald;
  short_definition =
      "Real-time dual stream comparing transmitted prompt payload (TX) against incoming token response stream (RX).";
  junior_admin_explanation =
      "AI agents communicate over network sockets in asymmetric waves: an agent sends a large prompt context (TX burst), then waits and receives a continuous token stream (RX stream). This chart visualizes that back-and-forth conversational heartbeat.";
  how_to_read = record {
    unit = "Kilobytes/sec (KB/s)";
    healthy = "Normal TX bursts followed by smooth RX streaming bands.";
    warning = "High TX with zero RX: Potential timeout or dead inference connection.";
    critical = "Both TX & RX flatlining: Network disconnection or broken socket pipe.";
  };
  why_ai_agents_care =
      "Visualizes token streaming responsiveness and detects stalled LLM API connections before socket timeouts occur.";
  linux_admin_command = "ss -ti -p or iftop -P";
  kernel_data_source = "/proc/[pid]/net/dev and eBPF socket accounting tracepoints";
}

abbrev pub thread_memory_density : MetricDoc
thread_memory_density = record {
  id = "thread_memory_density";
  title = "Thread Concurrency vs Memory RSS Density";
  category = processes_threads;
  theme_color = amber;
  short_definition =
      "Correlates worker thread count with physical RAM consumption to detect memory leaks per worker thread.";
  junior_admin_explanation =
      "Each worker thread in Linux allocates its own stack (often 2MB–8MB by default). If you spawn 50 threads, that alone consumes hundreds of megabytes! This chart plots thread count against RSS to show if memory growth is proportional to worker concurrency.";
  how_to_read = record {
    unit = "Threads vs Megabytes (MiB)";
    healthy = "RSS scales linearly with thread worker count and plateaus.";
    warning = "RSS continues growing while thread count remains flat (potential heap leak).";
    critical = "Exponential memory growth risking Linux OOM Killer termination.";
  };
  why_ai_agents_care =
      "Helps debug multi-threaded LLM agent executors and prevent out-of-memory kernel termination during long sessions.";
  linux_admin_command = "ps -o pid,nlwp,rss,vsz,cmd -p <PID>";
  kernel_data_source = "/proc/[pid]/status (Threads & VmRSS fields)";
}

abbrev pub scratchpad_sandbox : MetricDoc
scratchpad_sandbox = record {
  id = "scratchpad_sandbox";
  title = "Dynamic Graph Scratchpad & Linux Playground";
  category = compute_cpu;
  theme_color = cyan;
  short_definition =
      "Interactive workspace where operators and the AI Copilot can dynamically instantiate custom telemetry visualizations.";
  junior_admin_explanation =
      "Linux provides endless operational dimensions. The Graph Scratchpad lets you generate bespoke charts on the fly — either by clicking quick-preset queries or by asking the AI Copilot to plot specific metrics. Every generated chart is live, interactive, and fully documented!";
  how_to_read = record {
    unit = "Dynamic Multi-Axis Telemetry";
    healthy = "Clean visual correlation between selected Linux performance metrics.";
    warning = "Divergent trends reveal hidden system bottlenecks.";
    critical = "Anomalous spikes pinpoint exact root causes.";
  };
  why_ai_agents_care =
      "Empowers operators to probe custom hypotheses during complex incident investigations without writing custom scripts.";
  linux_admin_command = "curl -s http://localhost:8080/api/history?limit=60 | jq .";
  kernel_data_source =
      "DrishtiScope SQLite TSDB time-series engine with dynamic JSON field extraction";
}

abbrev pub stream_live_pause : MetricDoc
stream_live_pause = record {
  id = "stream_live_pause";
  title = "Live Stream vs Paused Snapshot Mode";
  category = kernel_ebpf;
  theme_color = amber;
  short_definition =
      "Controls whether real-time kernel telemetry continuously updates the UI or pauses at a frozen timestamp for deep inspection.";
  junior_admin_explanation =
      "When in \"Live\" mode, the eBPF engine and procfs scanner push continuous kernel events over WebSockets every few hundred milliseconds. If something strange flashes on the screen that you want to inspect closely, click \"Pause\"! The screen will freeze at that exact millisecond so you can read call trees, copy stack traces, or investigate file accesses without the UI jumping or scrolling away.";
  how_to_read = record {
    unit = "State (Live Streaming vs Paused Freeze)";
    healthy = "Live: Continuous sub-second updates reflecting active agent operations.";
    warning =
        "Paused: Telemetry updates suspended in browser; backend continues kernel buffer recording.";
    critical = "Stalled: WebSocket disconnected or backend unreachability (check terminal).";
  };
  why_ai_agents_care =
      "Crucial for debugging fast ephemeral agent actions, such as microsecond tool executions, prompt generation bursts, or permission denial spikes before they roll off the screen.";
  linux_admin_command = "kill -STOP <PID> (pauses process) / kill -CONT <PID> (resumes process)";
  kernel_data_source = "WebSocket streaming broadcast pump & client freeze buffer";
}

abbrev pub time_window_range : MetricDoc
time_window_range = record {
  id = "time_window_range";
  title = "Observation Time Window (1m, 5m, 15m, 1h)";
  category = core_agent_signals;
  theme_color = cyan;
  short_definition =
      "The rolling time horizon applied to timeseries graphs, latency waveforms, and network throughput charts.";
  junior_admin_explanation =
      "Just like looking through a camera with different zoom lenses, the time window lets you change your perspective:\n• 1m (Zoomed In): High-resolution view of microsecond latency jitter and rapid tool invocations.\n• 5m (Balanced): Standard operational window to spot recent spikes or resource recovery.\n• 15m (Medium Term): Identifies memory leaks, slow thread pileups, or persistent disk contention.\n• 1h (Long Term): High-level view showing batch runs, training cycles, or multi-step agent reasoning loops.";
  how_to_read = record {
    unit = "Time Window Range (Minutes / Hours)";
    healthy =
        "1m: Ultra-fast diagnosis of current active task.\n5m: Standard dashboard monitoring.";
    warning = "Spikes visible across 15m window indicate systemic, non-transient bottlenecks.";
    critical =
        "Upward sloping stair-step pattern over 1h indicates chronic memory leak or file descriptor leak.";
  };
  why_ai_agents_care =
      "Allows engineers to distinguish between momentary agent reasoning bursts (which normalize in 10-30 seconds) and unconstrained runaway loops that consume resources continuously.";
  linux_admin_command =
      "sar -u 1 60 (sample CPU every second for 1 minute) or sar -r 5 12 (memory over 1 hour)";
  kernel_data_source = "Ring buffers in agg/snapshot.go and SQLite TSDB rolling time ranges";
}

abbrev pub telemetry_modes : MetricDoc
telemetry_modes = record {
  id = "telemetry_modes";
  title = "DrishtiScope Telemetry Ingestion Modes";
  category = kernel_ebpf;
  theme_color = cyan;
  short_definition =
      "Explains the operational telemetry modes supported by DrishtiScope: REAL LIVE, EBPF LIVE, and MOCK.";
  junior_admin_explanation =
      "DrishtiScope can observe Linux processes and LLM agents in three distinct telemetry modes:\n\n• REAL LIVE (Host /proc & sysfs mode - Default):\nCollects 100% genuine Linux kernel telemetry directly from /proc/[pid]/stat, /proc/[pid]/io, /proc/[pid]/fd, and socket inodes. Operates completely without root privileges, kernel headers, or compiler toolchains. Perfect for developer laptops, unprivileged containers, and production agent hosts.\n\n• EBPF LIVE (Kernel Tracepoint mode):\nAttaches compiled CO-RE eBPF tracepoints (agent.bpf.o) directly to Linux kernel hooks (raw_syscalls, openat, connect, sched_process_exec) using BPF ring buffers for nanosecond-precision tracing. Requires root or CAP_BPF / CAP_PERFMON privileges.\n\n• MOCK (Synthetic Simulation mode):\nSimulates active LLM agent processes with realistic CPU oscillation sine jitter, tool forks, socket connects, and security permission violations for offline testing and CI workflows.";
  how_to_read = record {
    unit = "Operational Ingestion Mode";
    healthy = "REAL LIVE or EBPF LIVE: Active observation of real operating system processes.";
    warning = "MOCK: Synthetic data stream active for demonstration purposes.";
    critical = "OFFLINE: Backend process stopped or unreachable.";
  };
  why_ai_agents_care =
      "Ensures continuous visibility into autonomous agent processes across any environment—from local developer laptops with zero privileges to production Kubernetes clusters with full kernel tracing.";
  linux_admin_command = "./drishtiscope -mode=real -comm=agy (or sudo ./drishtiscope -mode=ebpf)";
  kernel_data_source = "Linux /proc pseudo-filesystem + BPF ringbuffer (bpf_perf_event_output)";
}
