-- ===== src/Docs/Usage.antt =====
-- frontend/src/data/metricDocs.ts: the entries cpu_pct to net_throughput of the metric encyclopedia.
use drishtiscope_oss.Docs.Types.{
  MetricDoc, compute_cpu, core_agent_signals, memory_ram, network_sockets, processes_threads,
  storage_disk, amber, blue, cyan, emerald, purple, rose,
}

abbrev pub cpu_pct : MetricDoc
cpu_pct = record {
  id = "cpu_pct";
  title = "CPU Utilization (%)";
  category = compute_cpu;
  theme_color = cyan;
  short_definition =
      "Percentage of total CPU core capacity consumed by the observed target process and all its child threads.";
  junior_admin_explanation =
      "Think of the CPU like the engine of a car. A reading of 25% means one-fourth of a CPU core is actively calculating instructions. On multi-core systems (e.g. 8 cores), a multi-threaded process can reach up to 800% if all cores are running full speed.";
  how_to_read = record {
    unit = "% (Percentage of 1 Core)";
    healthy = "5% – 60%: Normal steady-state processing.";
    warning = "60% – 90%: Heavy workload, token generation, or compilation.";
    critical = "> 95%: Core starvation, thread spinning, or infinite loop.";
  };
  why_ai_agents_care =
      "Autonomous AI agents (like agy or grok) spike CPU during local prompt evaluation, tool compilation, vector embeddings, and regex parsing over large context windows.";
  linux_admin_command = "pidstat -u 1 5 -p <PID>";
  kernel_data_source = "/proc/[pid]/stat (fields 14 utime & 15 stime divided by USER_HZ ticks)";
}

abbrev pub threads : MetricDoc
threads = record {
  id = "threads";
  title = "Thread Count (LWP)";
  category = processes_threads;
  theme_color = blue;
  short_definition =
      "Number of active Light-Weight Processes (kernel threads) spawned under this process group/TGID.";
  junior_admin_explanation =
      "A thread is an individual worker inside a program sharing the same memory. When a process needs to do multiple things simultaneously (like streaming tokens on one thread while writing to disk on another), it creates threads.";
  how_to_read = record {
    unit = "Count (Threads)";
    healthy = "4 – 32: Normal Go/Node/Python worker pools.";
    warning = "33 – 128: Elevated concurrency or worker queue buildup.";
    critical = "> 256: Thread leak, OS thread exhaustion risk (EAGAIN).";
  };
  why_ai_agents_care =
      "Go-based agents use Go runtime goroutines mapped across M:N OS threads; Node/Python agents spawn worker threads for background tool execution.";
  linux_admin_command = "ls -1 /proc/<PID>/task | wc -l";
  kernel_data_source = "/proc/[pid]/status (\"Threads:\" line)";
}

abbrev pub rss_bytes : MetricDoc
rss_bytes = record {
  id = "rss_bytes";
  title = "Resident Set Size (RSS Memory)";
  category = memory_ram;
  theme_color = purple;
  short_definition =
      "The actual amount of physical RAM (not virtual swap or shared files) currently allocated to this process.";
  junior_admin_explanation =
      "RSS is the real RAM the process is occupying in your physical RAM chips right now. Unlike Virtual Memory (VMS), which is just promised address space, RSS will trigger the Linux Out-Of-Memory (OOM) Killer if it grows too large!";
  how_to_read = record {
    unit = "Bytes (KiB / MiB / GiB)";
    healthy = "< 300 MiB: Lightweight CLI agent.";
    warning = "300 MiB – 1.5 GiB: Loaded LLM context window or large git workspace.";
    critical = "> 2.0 GiB: High risk of Linux kernel OOM killer terminating the agent.";
  };
  why_ai_agents_care =
      "AI agents cache huge conversation transcripts, git diffs, AST parse trees, and vector caches in RAM. If memory leaks occur, the kernel kills the agent with SIGKILL (OOM-kill).";
  linux_admin_command = "ps -o pid,comm,rss,vsz -p <PID>";
  kernel_data_source = "/proc/[pid]/statm (field 2 page count multiplied by 4096 bytes)";
}

abbrev pub open_fds : MetricDoc
open_fds = record {
  id = "open_fds";
  title = "Open File Descriptors (FDs)";
  category = storage_disk;
  theme_color = amber;
  short_definition =
      "The number of open handles to files, sockets, pipes, and event loops held by the process.";
  junior_admin_explanation =
      "In Linux, \"everything is a file\". Every file read, network socket, pipe, and epoll instance consumes one File Descriptor (FD). Each process has an OS limit (`ulimit -n`, typically 1024). Exceeding this limit causes \"Too many open files\" errors.";
  how_to_read = record {
    unit = "Count (File Descriptors)";
    healthy = "< 64: Normal process operations.";
    warning = "65 – 500: High connection count or multiple open workspace files.";
    critical = "> 900 (near 1024): Imminent EMFILE crash (\"Too many open files\").";
  };
  why_ai_agents_care =
      "Agents open dozens of files in repositories, maintain WebSocket streams, and create pipes for child processes. Unclosed files will crash tool execution.";
  linux_admin_command = "ls -l /proc/<PID>/fd | wc -l";
  kernel_data_source = "Count of entries in directory /proc/[pid]/fd/";
}

abbrev pub syscalls_per_sec : MetricDoc
syscalls_per_sec = record {
  id = "syscalls_per_sec";
  title = "System Calls / Sec (Traffic RPS)";
  category = core_agent_signals;
  theme_color = cyan;
  short_definition =
      "The frequency of transitions from userspace into kernel space (sys_enter tracepoints) per second.";
  junior_admin_explanation =
      "Every time a program wants to interact with the outside world (read a file, write to a socket, sleep, or lock a mutex), it must ask the Linux kernel via a \"syscall\". Higher numbers mean the program is doing intensive system work.";
  how_to_read = record {
    unit = "Syscalls/sec (Hz)";
    healthy = "50 – 800: Normal interactive agent execution.";
    warning = "800 – 3,000: Intensive disk I/O, network streaming, or thread synchronization.";
    critical = "> 5,000: Syscall flood, hot futex spinning, or unbuffered write loop.";
  };
  why_ai_agents_care =
      "Observing syscall velocity reveals whether the agent is blocked waiting for user input or rapidly streaming responses through epoll_wait and futex.";
  linux_admin_command = "perf stat -e \"raw_syscalls:sys_enter\" -p <PID> -- sleep 2";
  kernel_data_source = "eBPF tracepoint/raw_syscalls/sys_enter counter";
}

abbrev pub err_syscalls_per_sec : MetricDoc
err_syscalls_per_sec = record {
  id = "err_syscalls_per_sec";
  title = "Syscall Errors / Sec";
  category = core_agent_signals;
  theme_color = rose;
  short_definition =
      "Number of syscalls per second that returned negative errno codes (e.g. EACCES, ENOENT, ECONNREFUSED).";
  junior_admin_explanation =
      "When a syscall fails (e.g. trying to open a file that does not exist or connecting to a port that is closed), the kernel returns an error code like -ENOENT (-2) or -EACCES (-13). Some errors (like EAGAIN) are benign, but bursts of errors signal bugs or security blocks.";
  how_to_read = record {
    unit = "Errors/sec";
    healthy = "< 1.0/s: Clean execution with few missing file lookups.";
    warning = "1.0 – 10.0/s: Retries, polling, or non-blocking socket EAGAIN.";
    critical = "> 10.0/s: Missing dependencies, refused connections, or permission denials.";
  };
  why_ai_agents_care =
      "Bursts of errors reveal when an agent is searching for missing tools, failing to authenticate, or being restricted by sandbox security policies.";
  linux_admin_command = "strace -e \"trace=openat,connect\" -c -p <PID>";
  kernel_data_source = "eBPF tracepoint/raw_syscalls/sys_exit with ret < 0";
}

abbrev pub net_throughput : MetricDoc
net_throughput = record {
  id = "net_throughput";
  title = "Network Throughput (TX + RX)";
  category = network_sockets;
  theme_color = emerald;
  short_definition =
      "Aggregate rate of network bytes transmitted (TX) and received (RX) across all active sockets.";
  junior_admin_explanation =
      "This measures how much data the process is uploading and downloading over network cards and localhost sockets. It combines outbound model queries and incoming token streams.";
  how_to_read = record {
    unit = "bps / KB/s / MB/s";
    healthy = "10 KB/s – 250 KB/s: Typical LLM streaming token rates.";
    warning = "250 KB/s – 5 MB/s: Downloading large dependency packages or docker layers.";
    critical = "> 20 MB/s: Unexpected massive data egress or network flooding.";
  };
  why_ai_agents_care =
      "AI agents stream prompt completions from remote APIs and communicate with local language server protocols (LSP) and databases.";
  linux_admin_command = "nethogs or iftop -P -p <PID>";
  kernel_data_source = "/proc/[pid]/net/dev and eBPF socket sendto/recvfrom accounting";
}
