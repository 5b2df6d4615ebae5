-- ===== src/Docs/Budgets.antt =====
-- frontend/src/data/metricDocs.ts: the entries runqueue_latency to chronicle_security of the metric encyclopedia.
use drishtiscope_oss.Docs.Types.{
  MetricDoc, compute_cpu, core_agent_signals, network_sockets, processes_threads, security_audit,
  storage_disk, amber, blue, cyan, emerald, rose,
}

abbrev pub runqueue_latency : MetricDoc
runqueue_latency = record {
  id = "runqueue_latency";
  title = "Runqueue Latency";
  category = compute_cpu;
  theme_color = blue;
  short_definition =
      "Time that runnable threads spend sitting on the CPU scheduler runqueue waiting for a core to become free.";
  junior_admin_explanation =
      "When your process is ready to work, but all CPU cores are busy doing other tasks, the kernel puts the threads in a waiting line called the \"runqueue\". This latency measures how long threads wait in line before getting CPU execution time.";
  how_to_read = record {
    unit = "Microseconds (µs)";
    healthy = "< 1.5 µs: Cores available immediately; zero queuing.";
    warning = "1.5 µs – 8.0 µs: Mild CPU scheduling contention.";
    critical = "> 15.0 µs: Severe CPU contention; noisy neighbor processes.";
  };
  why_ai_agents_care =
      "High runqueue latency explains why an agent feels sluggish even when its own CPU % seems modest (indicating host CPU over-subscription).";
  linux_admin_command = "runqlen or uptime (checking 1-min load average vs CPU count)";
  kernel_data_source = "Kernel CFS (Completely Fair Scheduler) runqueue delta";
}

abbrev pub saturation : MetricDoc
saturation = record {
  id = "saturation";
  title = "Resource Saturation (%)";
  category = core_agent_signals;
  theme_color = amber;
  short_definition =
      "Composite metric evaluating CPU capacity, scheduler runqueue wait, and file descriptor limits.";
  junior_admin_explanation =
      "Saturation tells you how close the system or process is to 100% maximum capacity. Even before reaching 100%, queueing begins and performance drops sharply.";
  how_to_read = record {
    unit = "% (Composite Saturation)";
    healthy = "< 35%: System has plenty of headroom.";
    warning = "35% – 75%: Moderate load; capacity planning recommended.";
    critical = "> 80%: System saturated; requests will queue and degrade.";
  };
  why_ai_agents_care =
      "Provides a single high-level health score indicating whether the agent is overloading its Linux environment.";
  linux_admin_command = "sar -q 1 3";
  kernel_data_source = "Weighted combination of CPU %, runqueue latency, and FD usage";
}

abbrev pub pid : MetricDoc
pid = record {
  id = "pid";
  title = "Process ID (PID)";
  category = processes_threads;
  theme_color = blue;
  short_definition = "Unique integer assigned by the Linux kernel to identify the active process.";
  junior_admin_explanation =
      "Every running program in Linux has a unique number called a PID. You use this number with tools like `kill <PID>`, `top -p <PID>`, or `strace -p <PID>`.";
  how_to_read = record {
    unit = "Integer (1 – 4194304)";
    healthy = "Stable PID indicates a long-running, healthy process.";
    warning = "PID changing frequently indicates process crashes and restarts.";
    critical = "PID 1 is init/systemd.";
  };
  why_ai_agents_care =
      "DrishtiScope dynamically filters eBPF tracepoint probes using this PID so you only see telemetry for your chosen AI agent.";
  linux_admin_command = "pgrep -a <comm-name>";
  kernel_data_source = "/proc/[pid] directory name";
}

abbrev pub process_state : MetricDoc
process_state = record {
  id = "process_state";
  title = "Process State (R, S, D, Z)";
  category = processes_threads;
  theme_color = cyan;
  short_definition = "The current operating state of the process in the Linux scheduler.";
  junior_admin_explanation =
      "Linux processes transition through states: **R** (Running/Runnable) is actively calculating; **S** (Interruptible Sleep) is waiting for network/user input; **D** (Uninterruptible Sleep) is waiting on disk/hardware; **Z** (Zombie) is dead but waiting for parent to collect exit code.";
  how_to_read = record {
    unit = "State Code";
    healthy = "R (Running) or S (Sleeping).";
    warning = "D (Uninterruptible Sleep): Process waiting for disk; cannot be killed.";
    critical = "Z (Zombie): Parent process failed to wait() for exited child.";
  };
  why_ai_agents_care =
      "Agents waiting for remote LLM API streaming spend time in S state; heavy compilation puts them in R; disk bottlenecks show as D.";
  linux_admin_command = "ps -o pid,comm,stat -p <PID>";
  kernel_data_source = "/proc/[pid]/stat (field 3 state character)";
}

abbrev pub tcp_state : MetricDoc
tcp_state = record {
  id = "tcp_state";
  title = "TCP Socket State";
  category = network_sockets;
  theme_color = emerald;
  short_definition =
      "The standard RFC 793 TCP finite state machine status of open network connections.";
  junior_admin_explanation =
      "TCP connections move through states: **ESTABLISHED** (active data exchange), **LISTEN** (waiting for inbound connections), **TIME_WAIT** (gracefully closed, waiting for lingering packets), and **CLOSE_WAIT** (remote closed, local waiting to close).";
  how_to_read = record {
    unit = "State String";
    healthy = "ESTABLISHED: Healthy live socket streaming data.";
    warning = "TIME_WAIT: Normal after socket close, lasts ~60 seconds.";
    critical = "CLOSE_WAIT accumulation: Application bug — failed to call close() on socket.";
  };
  why_ai_agents_care =
      "AI agents open HTTP/2 and WebSocket connections to model providers. Accumulation of CLOSE_WAIT indicates socket leaks that will exhaust ports.";
  linux_admin_command = "ss -tanp | grep <PID>";
  kernel_data_source = "/proc/[pid]/net/tcp matched with /proc/[pid]/fd socket inodes";
}

abbrev pub file_ops : MetricDoc
file_ops = record {
  id = "file_ops";
  title = "File Access Rate (Ops/s)";
  category = storage_disk;
  theme_color = amber;
  short_definition =
      "Frequency of openat, read, write, and close operations performed against specific filesystem paths.";
  junior_admin_explanation =
      "Shows which specific files the process is touching the most. For example, high ops on `transcript.jsonl` indicates prompt logging, while ops on `ledger.db` indicates state checkpointing.";
  how_to_read = record {
    unit = "Ops/sec";
    healthy = "1 – 50 ops/s: Normal file reads and writes.";
    warning = "50 – 500 ops/s: High frequency logging or scanning directories.";
    critical = "> 1,000 ops/s: Unbuffered loop repeatedly opening the same file.";
  };
  why_ai_agents_care =
      "Helps discover if an agent is repeatedly re-reading huge context files instead of caching them in memory.";
  linux_admin_command = "fatrace -c -p <PID>";
  kernel_data_source = "eBPF tracepoint/syscalls/sys_enter_openat captured paths";
}

abbrev pub chronicle_security : MetricDoc
chronicle_security = record {
  id = "chronicle_security";
  title = "Security Sandbox Audits";
  category = security_audit;
  theme_color = rose;
  short_definition =
      "Kernel-level audit of security violations, unauthorized path accesses, and refused outbound connections.";
  junior_admin_explanation =
      "Enterprise-grade security audit engine that verifies whether an autonomous agent attempted to access sensitive system files (like `/etc/shadow` or `/proc/kallsyms`) or connect to blocked external IP addresses.";
  how_to_read = record {
    unit = "Audit Events";
    healthy = "0 Violations: Clean sandboxed execution.";
    warning = "Occasional EACCES on non-critical files.";
    critical = "Attempts to read /etc/shadow or load unapproved kernel BPF programs.";
  };
  why_ai_agents_care =
      "Autonomous agents run untrusted shell tools. Sandbox auditing guarantees that prompt injections cannot escalate privileges on the host.";
  linux_admin_command = "dmesg -T | grep -i \"denied\"";
  kernel_data_source = "eBPF security sandbox filter on openat & connect return codes";
}
