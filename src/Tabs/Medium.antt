-- ===== src/Tabs/Medium.antt =====
-- frontend/src/components/tabs/MediumTab.tsx: the tiles, the flame stack, the lanes of the events, and
-- what a row of its process table does.
pub mod Rows
use drishtiscope_oss.Common.{
  ℕ, ◌+◌, String, Option, none, some, Bool, true, false, not, ◌==◌, List, [], ◌∷◌, map, filter,
  take, find, nat_eq, if◌then◌else◌,
}
use drishtiscope_oss.Common.Fallback.{field_or, field_else}
use drishtiscope_oss.Common.Fixed.{round_div, digit_codes, fixed_one, fixed_two}
use drishtiscope_oss.Common.Text.{codes}
use drishtiscope_oss.Format.{fmt_bps, fmt_bytes}
use drishtiscope_oss.Processes.{agent_label}
use drishtiscope_oss.Protocol.{
  Snapshot, Kpis, EventRow, ProcessRow, Category, process, syscall, file, network, compute,
  Severity, info, warn, crit, SeriesPoint,
}
use drishtiscope_oss.Tabs.{kpis_of, list_of, timeline_or}

unfoldable pub net : Option Snapshot → List ℕ
unfolding fmt_bps
net s = fmt_bps (
    field_or (λ (k : Kpis). k.net_bps_tx) (kpis_of s) 0
    + field_or (λ (k : Kpis). k.net_bps_rx) (kpis_of s) 0)

unfoldable pub disk : Option Snapshot → List ℕ
unfolding fmt_bps
disk s = fmt_bps (
    field_or (λ (k : Kpis). k.disk_bps_r) (kpis_of s) 0
    + field_or (λ (k : Kpis). k.disk_bps_w) (kpis_of s) 0)

unfoldable pub rss : Option Snapshot → List ℕ
unfolding fmt_bytes
rss s = fmt_bytes (field_or (λ (k : Kpis). k.rss_bytes) (kpis_of s) 0)

abbrev pub cpu_spark : Option Snapshot → List ℕ
cpu_spark s = map (λ (p : SeriesPoint). p.cpu_pct) (list_of (λ s. s.cpu_series) s)

-- `pct` is in tenths of a percent.
pub record FlameNode : Type 0 where
  pub name : String
  pub pct : ℕ
  pub color : String
  pub desc : String

abbrev pub flame_nodes : List FlameNode
flame_nodes =
    record {
      name = "runtime.epollwait (syscall)";
      pct = 324;
      color = "#4285F4";
      desc = "I/O multiplexing event loop polling";
    }
    ∷ record {
      name = "runtime.futex (sync)";
      pct = 211;
      color = "#3ce0cf";
      desc = "Goroutine channel synchronization & lock parks";
    }
    ∷ record {
      name = "tokio::runtime::worker::park";
      pct = 186;
      color = "#34A853";
      desc = "Rust async executor thread worker wait";
    }
    ∷ record {
      name = "syscall.Syscall6 (socket I/O)";
      pct = 142;
      color = "#FBBC04";
      desc = "sendto / recvfrom network streaming buffer";
    }
    ∷ record {
      name = "agent::inference::token_stream";
      pct = 95;
      color = "#EA4335";
      desc = "LLM token response decoding and parsing";
    }
    ∷ record {
      name = "kernel::vfs_read (disk cache)";
      pct = 42;
      color = "#a855f7";
      desc = "Local ledger DB & scratch buffer I/O";
    }
    ∷ []

-- A click on a node of the flame stack.
unfoldable pub click_flame_node : String → Option String → Option String
click_flame_node name none = some name
click_flame_node name (some selected) = if selected == name then none else some name

-- `activeLaneFilter`
pub data Lane : Type 0 where
  all_lanes syscall_lane file_lane network_lane compute_lane : Lane

abbrev pub in_lane : Lane → Category → Bool
in_lane all_lanes c = true
in_lane syscall_lane syscall = true
in_lane file_lane file = true
in_lane network_lane network = true
in_lane compute_lane compute = true
in_lane _ _ = false

unfoldable pub filtered_events : Lane → Option Snapshot → List EventRow → List EventRow
filtered_events lane s events = filter (λ e. in_lane lane e.category) (timeline_or s events)

-- The events that are drawn.
unfoldable pub lane_rows : Lane → Option Snapshot → List EventRow → List EventRow
unfolding filtered_events
lane_rows lane s events = take 30 (filtered_events lane s events)

abbrev pub sev_color : Severity → String
sev_color crit = "border-rose/60 bg-rose/10 text-rose"
sev_color warn = "border-amber/60 bg-amber/10 text-amber"
sev_color info = "border-cyan/40 bg-cyan/5 text-txt"

abbrev pub cat_badge : Category → String
cat_badge syscall = "bg-blue-500/20 text-blue-400"
cat_badge network = "bg-amber-500/20 text-amber-400"
cat_badge file = "bg-green-500/20 text-green-400"
cat_badge compute = "bg-purple-500/20 text-purple-400"
cat_badge process = "bg-cyan-500/20 text-cyan-400"

-- `onSelect`: the process that is selected, and the target that is asked for, if any.
unfoldable pub on_select : ℕ → Option Snapshot → ℕ × Option (String × ℕ)
unfolding agent_label
on_select pid s = (
  pid,
  elim (find (λ (x : ProcessRow). nat_eq x.pid pid) (list_of (λ s. s.processes) s)) [
    | none ↦ none
    | some p ↦
        (let label = agent_label p.comm p.cmdline in
          some (label, if not (label == p.comm) then 0 else p.pid))
  ],
)

-- `text.split(' ')[0]` and `text.split(' ')[1]`, of a text with one space.
abbrev pub first_word : List ℕ → List ℕ
first_word [] = []
first_word (c ∷ s) = if nat_eq c b' ' then [] else c ∷ first_word s

abbrev pub rest_words : List ℕ → List ℕ
rest_words [] = []
rest_words (c ∷ s) = if nat_eq c b' ' then s else rest_words s

pub record Tile : Type 0 where
  pub label : String
  pub value : List ℕ
  pub unit : List ℕ
  pub color : Option String
  pub metric_id : String
  pub help_color : String

-- The eight tiles; `locale` is `toLocaleString`.
unfoldable pub tiles : (ℕ → List ℕ) → Option Snapshot → List Tile
unfolding digit_codes fixed_one fixed_two round_div net disk rss
tiles locale s =
    let k = kpis_of s in
    record {
      label = "CPU %";
      value = fixed_one (round_div (field_else (λ (k : Kpis). k.cpu_pct) k 0) 100);
      unit = codes "%";
      color = some "#3ce0cf";
      metric_id = "cpu_pct";
      help_color = "cyan";
    }
    ∷ record {
      label = "Threads";
      value = digit_codes (field_or (λ (k : Kpis). k.threads) k 0);
      unit = [];
      color = some "#e8edf5";
      metric_id = "threads";
      help_color = "blue";
    }
    ∷ record {
      label = "RSS";
      value = first_word (rss s);
      unit = rest_words (rss s);
      color = some "#e8edf5";
      metric_id = "rss_bytes";
      help_color = "purple";
    }
    ∷ record {
      label = "Open FDs";
      value = digit_codes (field_or (λ (k : Kpis). k.open_fds) k 0);
      unit = [];
      color = none;
      metric_id = "open_fds";
      help_color = "amber";
    }
    ∷ record {
      label = "Syscalls";
      value = locale (round_div (field_or (λ (k : Kpis). k.syscalls_per_sec) k 0) 1000);
      unit = codes "/s";
      color = some "#e8edf5";
      metric_id = "syscalls_per_sec";
      help_color = "cyan";
    }
    ∷ record {
      label = "Errors";
      value = fixed_two (round_div (field_or (λ (k : Kpis). k.err_syscalls_per_sec) k 0) 10);
      unit = codes "/s";
      color = some "#ff5d73";
      metric_id = "err_syscalls_per_sec";
      help_color = "rose";
    }
    ∷ record {
      label = "Net I/O";
      value = first_word (net s);
      unit = rest_words (net s);
      color = some "#f5b942";
      metric_id = "net_throughput";
      help_color = "emerald";
    }
    ∷ record {
      label = "Disk I/O";
      value = first_word (disk s);
      unit = rest_words (disk s);
      color = some "#3dd68c";
      metric_id = "disk_io";
      help_color = "amber";
    }
    ∷ []
