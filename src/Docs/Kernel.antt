-- ===== src/Docs/Kernel.antt =====
-- frontend/src/data/metricDocs.ts: the entries perfetto_trace to page_faults of the metric encyclopedia.
use drishtiscope_oss.Docs.Types.{
  MetricDoc, kernel_ebpf, memory_ram, processes_threads, blue, cyan, purple, rose,
}

abbrev pub perfetto_trace : MetricDoc
perfetto_trace = record {
  id = "perfetto_trace";
  title = "Perfetto Kernel Trace Timeline";
  category = kernel_ebpf;
  theme_color = purple;
  short_definition =
      "High-resolution multi-lane event timeline format fully compatible with ui.perfetto.dev.";
  junior_admin_explanation =
      "Perfetto is an open-source performance instrumentation and trace analysis platform. It displays execution tracks (threads, syscalls, files, and network flows) on a synchronized timeline down to microsecond accuracy.";
  how_to_read = record {
    unit = "Timeline Lanes";
    healthy = "Evenly distributed execution lanes with no prolonged thread locks.";
    warning = "Gaps where threads stall waiting for slow external responses.";
    critical = "Extended red blocks representing blocked I/O or mutex contention.";
  };
  why_ai_agents_care =
      "Allows engineers to export traces via 1-click download and visualize exact execution timelines in ui.perfetto.dev.";
  linux_admin_command = "curl -s http://localhost:8080/api/v1/traces/perfetto -o trace.json";
  kernel_data_source = "Exported from DrishtiScope memory ring buffer in Perfetto JSON format";
}

abbrev pub mql_query : MetricDoc
mql_query = record {
  id = "mql_query";
  title = "Monitoring Query Language (MQL) Engine";
  category = kernel_ebpf;
  theme_color = blue;
  short_definition =
      "Declarative Metrics Query Language (MQL) syntax for filtering and aggregating agent telemetry.";
  junior_admin_explanation =
      "MQL is a declarative query language for systems observability. It allows writing expressive queries like `fetch process::cpu_utilization | filter comm == \"agy\" | group_by 1m, mean` to query operational metrics.";
  how_to_read = record {
    unit = "Query String";
    healthy = "Presets provided for CPU, Memory, Syscalls, and Storage I/O.";
    warning = "Custom queries should match target process fields.";
    critical = "Syntax errors will show validation hints.";
  };
  why_ai_agents_care =
      "Enables platform engineers and operators to integrate DrishtiScope telemetry into existing time-series monitoring dashboards and alerting policies.";
  linux_admin_command = "curl -s http://localhost:8080/api/history?comm=<comm>";
  kernel_data_source = "DrishtiScope SQLite TSDB query engine";
}

abbrev pub event_rate : MetricDoc
event_rate = record {
  id = "event_rate";
  title = "Event Ingest Rate";
  category = kernel_ebpf;
  theme_color = cyan;
  short_definition =
      "The throughput of kernel tracepoint records delivered from eBPF ring buffer to userspace.";
  junior_admin_explanation =
      "Measures the ingestion speed of DrishtiScope's daemon. It shows how many events per second the Go engine is consuming, enriching, and streaming to the web dashboard.";
  how_to_read = record {
    unit = "Events/sec";
    healthy = "50 – 500 ev/s: Standard operational telemetry stream.";
    warning = "500 – 2,000 ev/s: High activity burst.";
    critical = "> 3,000 ev/s: Ring buffer nearing saturation limit.";
  };
  why_ai_agents_care =
      "Ensures the observability platform itself remains lightweight and does not add overhead to the running AI agent.";
  linux_admin_command = "curl -s http://localhost:8080/api/meta";
  kernel_data_source = "Userspace event counter divided by elapsed uptime";
}

abbrev pub dropped_events : MetricDoc
dropped_events = record {
  id = "dropped_events";
  title = "Dropped Kernel Events";
  category = kernel_ebpf;
  theme_color = rose;
  short_definition =
      "Count of tracepoint events discarded by the kernel because the 16MB eBPF ring buffer was full.";
  junior_admin_explanation =
      "When the kernel generates events faster than the userspace Go daemon can read them, the ring buffer fills up and drops events to protect system stability. Ideally, this number should always be zero.";
  how_to_read = record {
    unit = "Count (Dropped Records)";
    healthy = "0 Dropped: Complete, 100% loss-free telemetry.";
    warning = "1 – 100 Dropped: Brief burst during extreme syscall spikes.";
    critical = "> 1,000 Dropped: Daemon cannot keep up; increase SNAPSHOT_MS or buffer size.";
  };
  why_ai_agents_care =
      "A zero dropped event count guarantees that no security incidents or critical syscall anomalies were missed.";
  linux_admin_command = "bpftool map dump name drop_count";
  kernel_data_source = "BPF_MAP_TYPE_PERCPU_ARRAY drop_count in agent.bpf.c";
}

abbrev pub vms_bytes : MetricDoc
vms_bytes = record {
  id = "vms_bytes";
  title = "Virtual Memory Size (VMS / VSZ)";
  category = memory_ram;
  theme_color = purple;
  short_definition =
      "Total amount of virtual memory address space mapped by the process, including shared libraries and reserved heap.";
  junior_admin_explanation =
      "Virtual memory is what the program *thinks* it has reserved. In Go and modern runtimes, runtimes reserve large 64-bit address space arenas up front, so VMS is often 4x to 10x larger than the actual physical RAM (RSS) being used. It is completely normal for VMS to be large.";
  how_to_read = record {
    unit = "Bytes (MiB / GiB)";
    healthy = "100 MiB – 4 GiB: Standard Go / Rust / C++ runtime address allocation.";
    warning = "4 GiB – 32 GiB: Large memory-mapped database or tensor arrays.";
    critical = "> 64 GiB on 32-bit machines or address space exhaustion.";
  };
  why_ai_agents_care =
      "Memory mmap allocations for large LLM model weights or SQLite WAL files appear in VMS before being touched into physical RSS memory.";
  linux_admin_command = "ps -o pid,comm,vsz,rss -p <PID>";
  kernel_data_source = "/proc/[pid]/statm (field 1 size multiplied by 4096 bytes)";
}

abbrev pub ctx_switches : MetricDoc
ctx_switches = record {
  id = "ctx_switches";
  title = "Context Switches / Sec";
  category = processes_threads;
  theme_color = blue;
  short_definition =
      "Rate at which the Linux CPU scheduler saves one thread state and restores another to share the core.";
  junior_admin_explanation =
      "A context switch is like a worker putting down one task and picking up another. **Voluntary** switches happen when a thread finishes or waits for I/O (good). **Involuntary** switches happen when the OS forcibly preempts a thread because its time slice expired (can cause overhead if too high).";
  how_to_read = record {
    unit = "Switches/sec";
    healthy = "500 – 4,000/s: Balanced thread scheduling and asynchronous I/O.";
    warning = "4,000 – 15,000/s: High concurrency contention or frequent mutex locking.";
    critical =
        "> 30,000/s: \"Thrashing\" — CPU spends more time switching tasks than doing actual work!";
  };
  why_ai_agents_care =
      "Go and Rust agent runtimes manage user-space lightweight tasks (goroutines/tokio). High kernel context switches indicate OS thread lock contention.";
  linux_admin_command = "pidstat -w 1 5 -p <PID>";
  kernel_data_source = "/proc/[pid]/status (voluntary_ctxt_switches + nonvoluntary_ctxt_switches)";
}

abbrev pub page_faults : MetricDoc
page_faults = record {
  id = "page_faults";
  title = "Page Faults / Sec";
  category = memory_ram;
  theme_color = cyan;
  short_definition =
      "Rate of virtual memory page translations handled by the kernel memory subsystem.";
  junior_admin_explanation =
      "A **minor page fault** is fast and normal: the program accesses memory it reserved, and the OS allocates a physical RAM page without reading disk. A **major page fault** is slow: the page must be read from disk (swap or file), which can take milliseconds.";
  how_to_read = record {
    unit = "Faults/sec";
    healthy = "< 50/s minor, 0 major: Smooth memory allocation.";
    warning = "50 – 500/s minor: Active heap expansion during tool execution.";
    critical = "> 5 major/s: System is swapping to disk (RAM exhaustion)!";
  };
  why_ai_agents_care =
      "Major page faults freeze agent token generation while the OS fetches memory from disk swap.";
  linux_admin_command = "sar -B 1 3";
  kernel_data_source = "/proc/[pid]/stat (fields 10 minflt & 12 majflt)";
}
