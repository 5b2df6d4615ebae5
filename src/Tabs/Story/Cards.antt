-- ===== src/Tabs/Story/Cards.antt =====
-- What StoryTab.tsx prints: the banner, the six figures, the files and the flows.
use drishtiscope_oss.Common.{ℕ, ◌+◌, String, Option, none, some, List, [], ◌∷◌, ◌++◌, map}
use drishtiscope_oss.Common.Fallback.{field_else, field_or, or_text}
use drishtiscope_oss.Common.Fixed.{digit_codes, round_div}
use drishtiscope_oss.Common.Text.{codes}
use drishtiscope_oss.Format.{fmt_pct, fmt_bytes, fmt_bps}
use drishtiscope_oss.Protocol.{Snapshot, Kpis, ProcessRow, FileStat, NetFlow}
use drishtiscope_oss.Tabs.{kpis_of, list_of}
use drishtiscope_oss.Tabs.Story.{Role, Verdict, active_pid, cmdline_of, label, role, verdict}

pub record Banner : Type 0 where
  pub label : String
  pub role : Role
  pub pid : List ℕ
  pub ppid : List ℕ
  pub cmdline : Option String
  pub verdict : Verdict

abbrev pub given : String → Option String
given String.[] = none
given s = some s

unfoldable pub banner : Option Snapshot → Option ProcessRow → Banner
unfolding label role active_pid verdict digit_codes
banner s p = record {
  label = label s p;
  role = role s p;
  pid = codes "PID " ++ digit_codes (active_pid s p);
  ppid = codes "PPID " ++ digit_codes (field_else (λ (r : ProcessRow). r.ppid) p 1);
  cmdline = given (cmdline_of p);
  verdict = verdict s p;
}

pub record Vital : Type 0 where
  pub caption : String
  pub value : List ℕ
  pub note : String

unfoldable pub vitals : Option Snapshot → Option ProcessRow → List Vital
unfolding fmt_pct fmt_bytes fmt_bps digit_codes
vitals s p =
    let k = kpis_of s in
    record {
      caption = "CPU Usage";
      value =
          fmt_pct (
            field_else (λ (k : Kpis). k.cpu_pct) k
              (field_else (λ (r : ProcessRow). r.cpu_pct) p 0));
      note = "Kernel + User space";
    }
    ∷ record {
      caption = "Memory (RSS)";
      value =
          fmt_bytes (
            field_or (λ (k : Kpis). k.rss_bytes) k
              (field_or (λ (r : ProcessRow). r.rss_bytes) p 0));
      note = "Resident in RAM";
    }
    ∷ record {
      caption = "Active Threads";
      value =
          digit_codes (
            field_else (λ (r : ProcessRow). r.threads) p
              (field_else (λ (k : Kpis). k.threads) k 1));
      note = "Worker goroutines/tasks";
    }
    ∷ record {
      caption = "Open Handles";
      value = digit_codes (
          field_else (λ (r : ProcessRow). r.open_fds) p
            (field_else (λ (k : Kpis). k.open_fds) k 0));
      note = "Files & TCP sockets";
    }
    ∷ record {
      caption = "Disk I/O Rate";
      value =
          fmt_bps
            (field_or (λ (k : Kpis). k.disk_bps_r) k 0 + field_or (λ (k : Kpis). k.disk_bps_w) k 0);
      note = "Read / Write throughput";
    }
    ∷ record {
      caption = "Network Rate";
      value =
          fmt_bps
            (field_or (λ (k : Kpis). k.net_bps_tx) k 0 + field_or (λ (k : Kpis). k.net_bps_rx) k 0);
      note = "API traffic sent/received";
    }
    ∷ []

pub record FileLine : Type 0 where
  pub path : String
  pub ops : List ℕ
  pub rate : List ℕ

unfoldable pub file_line : FileStat → FileLine
unfolding digit_codes round_div fmt_bps
file_line f = record {
  path = f.path;
  ops = digit_codes (round_div f.ops_s 1000) ++ codes " ops/s";
  rate = fmt_bps f.bytes_s;
}

unfoldable pub file_lines : Option Snapshot → List FileLine
unfolding file_line
file_lines s = map file_line (list_of (λ s. s.files_top) s)

pub record FlowLine : Type 0 where
  pub src : String
  pub dst : List ℕ
  pub state : String
  pub size : List ℕ

unfoldable pub flow_line : NetFlow → FlowLine
unfolding digit_codes fmt_bytes
flow_line fl = record {
  src = fl.src;
  dst = codes fl.dst ++ (b':' ∷ digit_codes fl.dport);
  state = or_text fl.state "ESTABLISHED";
  size = fmt_bytes (fl.bytes_tx + fl.bytes_rx);
}

unfoldable pub flow_lines : Option Snapshot → List FlowLine
unfolding flow_line
flow_lines s = map flow_line (list_of (λ s. s.flows) s)
