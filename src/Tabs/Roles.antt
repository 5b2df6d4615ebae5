-- ===== src/Tabs/Roles.antt =====
-- The role lens of frontend/src/components/tabs/CompletePictureTab.tsx: the heading of the analysis for
-- each role and its three cards. Icons are left out.
use Prim.Native.String.{◌++◌ as ◌+++◌}
use drishtiscope_oss.Common.{ℕ, String, Option, List, [], ◌∷◌, ◌++◌, ◌≡◌, ◌==◌, Bool, refl, map}
use drishtiscope_oss.Common.Fallback.{field_or}
use drishtiscope_oss.Common.Fixed.{digit_codes, round_div}
use drishtiscope_oss.Common.Text.{codes}
use drishtiscope_oss.Format.{fmt_bytes, fmt_bps}
use drishtiscope_oss.Protocol.{Snapshot, Kpis}
use drishtiscope_oss.Tabs.{kpis_of}

-- `activeRole`
pub data Role : Type 0 where
  perf sec net storage : Role

abbrev pub role_button : Role → String
role_button perf = "Performance"
role_button sec = "Security"
role_button net = "Network"
role_button storage = "Storage"

-- The value of a role, by which the buttons compare.
abbrev pub role_name : Role → String
role_name perf = "perf"
role_name sec = "sec"
role_name net = "net"
role_name storage = "storage"

-- The buttons of the role lens, each with whether it is marked.
unfoldable pub role_buttons : Role → List (String × Bool)
role_buttons current =
    map (λ role. (role_button role, role_name current == role_name role))
      (perf ∷ sec ∷ net ∷ storage ∷ [])

abbrev pub analysis_title : Role → String
analysis_title role = "Linux " +++ role_button role +++ " Engineer Analysis"

pub record Card : Type 0 where
  pub title : String
  pub text : List ℕ
  pub status : String

unfoldable pub perf_cards : Option Snapshot → List Card
unfolding digit_codes round_div fmt_bytes fmt_bps
perf_cards s =
    record {
      title = "Syscall Storm Detection";
      text =
          codes "Syscall frequency is currently "
          ++ (digit_codes
                (round_div (field_or (λ (k : Kpis). k.syscalls_per_sec) (kpis_of s) 1_420_000) 1000)
              ++ (codes
                  "/s. Top calls are epoll_pwait (281) and futex, typical for high-throughput event loops. No spinning thread deadlocks detected."));
      status = "Status: Efficient non-blocking wait";
    }
    ∷ record {
      title = "CPU Core & Threading";
      text =
          codes "Observed thread count is "
          ++ (digit_codes (field_or (λ (k : Kpis). k.threads) (kpis_of s) 26)
              ++ (codes
                  ". Voluntary context switches average 1,840/s. CPU core affinity indicates balanced load across Linux cpusets with zero starvation."));
      status = "CFS Sched: Zero runqueue delays";
    }
    ∷ record {
      title = "AI Tool Fork Overhead";
      text =
          codes
            "`execve` invocations occur on demand (sub-agents and CLI commands). Page table copying is minimized through clone/vfork semantics. Memory footprint stays under "
          ++ (fmt_bytes (field_or (λ (k : Kpis). k.rss_bytes) (kpis_of s) 52_428_800)
              ++ (codes "."));
      status = "Fork Latency: ~380 µs";
    }
    ∷ []

unfoldable pub sec_cards : Option Snapshot → List Card
unfolding digit_codes round_div fmt_bytes fmt_bps
sec_cards s =
    record {
      title = "Privilege Escalation Watch";
      text =
          codes
            "eBPF tracepoints monitor all `openat` calls with `O_CREAT` and `O_RDWR`. Any attempt to touch shadow passwords, sensitive SSH keys, or sudoers triggers immediate high-severity events in DrishtiScope.";
      status = "Sandboxing: Read-only probes active";
    }
    ∷ record {
      title = "Kernel Symbols & CAP_BPF";
      text =
          codes
            "eBPF loader requires either root or `CAP_BPF + CAP_PERFMON`. Probing `/proc/kallsyms` without root emits an audited EACCES notice, ensuring zero unauthorized kernel access.";
      status = "Compliance: Principle of least privilege";
    }
    ∷ record {
      title = "Child Process Lineage";
      text =
          codes
            "Tracks full PPID tree lineage. Child subagents inherit clean environment variables with zero leaky file descriptors across `execve` boundaries.";
      status = "Lineage: 100% verified";
    }
    ∷ []

unfoldable pub net_cards : Option Snapshot → List Card
unfolding digit_codes round_div fmt_bytes fmt_bps
net_cards s =
    record {
      title = "Token Streaming Socket Latency";
      text =
          codes
            "TCP outbound traffic to AI model gateways maintains RTT under 18ms. No TCP window stalling or transmit buffer overflows detected.";
      status = "Stream Health: Smooth streaming";
    }
    ∷ record {
      title = "Kubernetes API & Cluster Flows";
      text =
          codes
            "Local cluster connectivity to Kind control-plane (`127.0.0.1:45907`) is established and healthy. Inode socket matching maps file descriptors to active TCP connections.";
      status = "Cluster Sockets: 100% mapped";
    }
    ∷ record {
      title = "Zero Socket Leaks";
      text =
          codes "Total open FDs: "
          ++ (digit_codes (field_or (λ (k : Kpis). k.open_fds) (kpis_of s) 34)
              ++ (codes
                  ". Closed sockets transition through TIME_WAIT and reclaim kernel buffer memory within standard 60s windows."));
      status = "Sockets: Clean reclamation";
    }
    ∷ []

unfoldable pub storage_cards : Option Snapshot → List Card
unfolding digit_codes round_div fmt_bytes fmt_bps
storage_cards s =
    record {
      title = "Workspace File & WAL Activity";
      text =
          codes
            "Transcript and artifact disk writes are flushed via buffered append. Disk write rate is currently "
          ++ (fmt_bps (field_or (λ (k : Kpis). k.disk_bps_w) (kpis_of s) 8_192_000) ++ (codes "."));
      status = "Page Cache Writeback: Nominal";
    }
    ∷ record {
      title = "SQLite TSDB WAL Persistence";
      text =
          codes
            "Historical telemetry snapshots and events are persisted into `drishtiscope.db` with WAL (Write-Ahead Logging) mode, enabling sub-millisecond atomic writes with zero read locking.";
      status = "SQLite: WAL synchronous NORMAL";
    }
    ∷ record {
      title = "Unclosed FD Leak Detector";
      text =
          codes
            "Scans `/proc/[pid]/fd` every snapshot tick. All open file paths are tracked and verified against directory limits.";
      status = "Leak Check: Zero unclosed handles";
    }
    ∷ []

unfoldable pub cards : Role → Option Snapshot → List Card
unfolding perf_cards sec_cards net_cards storage_cards
cards perf s = perf_cards s
cards sec s = sec_cards s
cards net s = net_cards s
cards storage s = storage_cards s

-- The line at the foot of each card, which says how the target fares, is the same whatever the
-- snapshot is, and where there is none.
pub statuses_fixed :
    (role : Role) (s t : Option Snapshot)
    → map (λ (c : Card). c.status) (cards role s) ≡ map (λ (c : Card). c.status) (cards role t)
unfolding cards perf_cards sec_cards net_cards storage_cards
statuses_fixed perf s t = refl
statuses_fixed sec s t = refl
statuses_fixed net s t = refl
statuses_fixed storage s t = refl
