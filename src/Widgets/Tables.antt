-- ===== src/Widgets/Tables.antt =====
-- The headings of the tables and the panels of the tabs, with the help button that each has.
use drishtiscope_oss.Common.{String, Option, none, some, List, [], ◌∷◌}

-- MetricHelpButton: the guide that it opens, its colour, and its title where it is given one.
pub record HelpButton : Type 0 where
  pub metric_id : String
  pub color : String
  pub title : Option String

pub record Column : Type 0 where
  pub heading : String
  pub help : Option HelpButton

abbrev column : String → String → String → Option String → Column
column heading id color title = record {
  heading = heading;
  help = some (record { metric_id = id; color = color; title = title });
}

abbrev bare : String → Column
bare heading = record { heading = heading; help = none }

pub data Table : Type 0 where
  process_table file_table flow_table syscall_table history_table : Table

abbrev pub process_columns : List Column
process_columns =
    column "PID" "pid" "blue" none
    ∷ column "COMM" "comm" "cyan" none
    ∷ column "CPU%" "cpu_pct" "cyan" none
    ∷ column "RSS" "rss_bytes" "purple" none
    ∷ column "THR" "threads" "blue" none
    ∷ column "FDS" "open_fds" "amber" none
    ∷ column "ST" "process_state" "emerald" none
    ∷ bare "ACTION"
    ∷ []

abbrev pub file_columns : List Column
file_columns =
    column "PATH" "file_ops" "cyan" (some "Filesystem path inspected by eBPF openat")
    ∷ column "OPS/S" "file_ops" "amber" (some "File operations frequency")
    ∷ column "BYTES/S" "disk_io" "emerald" (some "I/O throughput in bytes per second")
    ∷ column "ERRS" "err_syscalls_per_sec" "rose" (some "Failed I/O syscalls (ENOENT, EACCES)")
    ∷ []

abbrev pub flow_columns : List Column
flow_columns =
    column "COMM" "pid" "blue" (some "Process identity & socket owner")
    ∷ column "PROTO" "tcp_flows" "cyan" (some "Transport layer protocol (TCP/UDP)")
    ∷ column "SRC" "tcp_flows" "purple" (some "Local endpoint & ephemeral port")
    ∷ column "DST" "tcp_flows" "purple" (some "Remote destination endpoint & port")
    ∷ column "TX" "net_throughput" "cyan" (some "Bytes transmitted outbound")
    ∷ column "RX" "net_throughput" "emerald" (some "Bytes received inbound")
    ∷ column "STATE" "tcp_state" "amber" (some "Kernel TCP Finite State Machine")
    ∷ []

abbrev pub syscall_columns : List Column
syscall_columns =
    column "SYSCALL" "syscalls_per_sec" "cyan" (some "System call execution rate")
    ∷ column "COUNT/S" "syscalls_per_sec" "blue" (some "Syscall invocations per second")
    ∷ column "ERRS" "err_syscalls_per_sec" "rose" (some "Syscall errno return codes")
    ∷ []

abbrev pub history_columns : List Column
history_columns =
    column "RECORD ID" "sqlite_tsdb" "amber" none
    ∷ bare "TIMESTAMP"
    ∷ column "TARGET" "pid" "blue" none
    ∷ column "CPU %" "cpu_pct" "cyan" none
    ∷ column "THREADS" "threads" "blue" none
    ∷ column "RSS" "rss_bytes" "purple" none
    ∷ column "SYSCALLS/S" "syscalls_per_sec" "cyan" none
    ∷ column "NET BPS" "net_throughput" "amber" none
    ∷ column "DISK BPS" "disk_io" "emerald" none
    ∷ []

unfoldable pub columns : Table → List Column
columns process_table = process_columns
columns file_table = file_columns
columns flow_table = flow_columns
columns syscall_table = syscall_columns
columns history_table = history_columns
