-- ===== src/Protocol.antt =====
-- frontend/src/types/protocol.ts: the messages that the backend sends over the WebSocket.
-- A measured quantity (percentages, rates, latencies) is a natural number in a fixed unit, such as
-- thousandths of a percent: the program reads, compares and adds these and they are never negative.
-- Counters, byte sizes, process ids and times are the numbers themselves.
use drishtiscope_oss.Common.{ℕ, String, Option, List, Bool}

-- `unknown`: any JSON value.
mutual
  pub data Json : Type 0 where
    null : Json
    bool : Bool → Json
    num : ℕ → Json
    str : String → Json
    arr : Items → Json
    obj : Fields → Json

  pub data Items : Type 0 where
    nil : Items
    cons : Json → Items → Items

  pub data Fields : Type 0 where
    end : Fields
    field : String → Json → Fields → Fields

pub data Kind : Type 0 where
  hello snapshot event heartbeat error : Kind

pub data Mode : Type 0 where
  ebpf real mock : Mode

pub data Severity : Type 0 where
  info warn crit : Severity

pub data Category : Type 0 where
  process syscall file network compute : Category

pub data ConnectionStatus : Type 0 where
  connecting connected reconnecting offline : ConnectionStatus

pub record Target : Type 0 where
  pub pid : ℕ
  pub comm : String

pub record HelloPayload : Type 0 where
  pub schema : ℕ
  pub hostname : String
  pub kernel : String
  pub target : Target
  pub ebpf_fail_reason : Option String

pub record SreMetrics : Type 0 where
  pub latency_p50_us : ℕ
  pub latency_p90_us : ℕ
  pub latency_p99_us : ℕ
  pub slo_availability : ℕ
  pub error_budget_pct : ℕ
  pub burn_rate : ℕ
  pub runqueue_latency_us : ℕ
  pub saturation_pct : ℕ

pub record SnapshotMeta : Type 0 where
  pub dropped_events : ℕ
  pub event_rate : ℕ
  pub uptime_s : ℕ
  pub target : Target

pub record ProcessRow : Type 0 where
  pub pid : ℕ
  pub tgid : ℕ
  pub ppid : ℕ
  pub comm : String
  pub cmdline : String
  pub exe : String
  pub uid : ℕ
  pub state : String
  pub threads : ℕ
  pub cpu_pct : ℕ
  pub rss_bytes : ℕ
  pub vms_bytes : ℕ
  pub open_fds : ℕ
  pub ctx_switches : ℕ
  pub start_time : String

pub record Kpis : Type 0 where
  pub cpu_pct : ℕ
  pub threads : ℕ
  pub rss_bytes : ℕ
  pub open_fds : ℕ
  pub net_bps_tx : ℕ
  pub net_bps_rx : ℕ
  pub disk_bps_r : ℕ
  pub disk_bps_w : ℕ
  pub syscalls_per_sec : ℕ
  pub err_syscalls_per_sec : ℕ
  pub connects_per_sec : ℕ

pub record SyscallStat : Type 0 where
  pub name : String
  pub count_s : ℕ
  pub errors_s : ℕ

pub record FileStat : Type 0 where
  pub path : String
  pub ops_s : ℕ
  pub bytes_s : ℕ
  pub errors : ℕ

pub record NetFlow : Type 0 where
  pub src : String
  pub dst : String
  pub sport : ℕ
  pub dport : ℕ
  pub proto : String
  pub state : String
  pub bytes_tx : ℕ
  pub bytes_rx : ℕ
  pub pid : ℕ
  pub comm : String

pub record SeriesPoint : Type 0 where
  pub t : ℕ
  pub cpu_pct : ℕ

pub record IoPoint : Type 0 where
  pub t : ℕ
  pub r_bps : ℕ
  pub w_bps : ℕ

pub record NetPoint : Type 0 where
  pub t : ℕ
  pub tx_bps : ℕ
  pub rx_bps : ℕ

pub record EventRow : Type 0 where
  pub id : String
  pub ts : String
  pub severity : Severity
  pub category : Category
  pub pid : ℕ
  pub comm : String
  pub title : String
  pub detail : String
  pub attrs : List (String × Json)

pub record Snapshot : Type 0 where
  pub meta : SnapshotMeta
  pub processes : List ProcessRow
  pub kpis : Kpis
  pub sre : Option SreMetrics
  pub syscalls_top : List SyscallStat
  pub files_top : List FileStat
  pub flows : List NetFlow
  pub cpu_series : List SeriesPoint
  pub io_series : List IoPoint
  pub net_series : List NetPoint
  pub timeline : Option (List EventRow)  -- the backend sends null before the first event

pub record HeartbeatPayload : Type 0 where
  pub uptime_s : ℕ

-- The payload that a message of each kind carries. The handler casts the payload by the kind, so
-- the model takes the protocol's word for it; an error carries nothing that the program reads.
abbrev pub Payload : Kind → Type 0
Payload hello = HelloPayload
Payload snapshot = Snapshot
Payload event = EventRow
Payload heartbeat = HeartbeatPayload
Payload error = Json

-- `mode` may be missing from a message: the handler tests it.
pub record WsMessage : Type 0 where
  pub v : ℕ
  pub kind : Kind
  pub ts : String
  pub mode : Option Mode
  pub payload : Payload kind
