-- ===== src/Tabs/Basic.antt =====
-- frontend/src/components/tabs/BasicTab.tsx: the golden signals, the series of the large chart, and the
-- identity of the target. Shares, rates and latencies are in thousandths.
pub mod Cards
use drishtiscope_oss.Common.{
  ℕ, ◌+◌, ◌*◌, ◌%◌, String, Option, none, some, List, [], get_elem?, map, map_from, ltb, Bool, ◌||◌,
  ◌==◌, if◌then◌else◌,
}
use Prim.Native.Nat.{max}
use drishtiscope_oss.Common.Fallback.{field_else, field_or, text_or}
use drishtiscope_oss.Common.Fixed.{round_div}
use drishtiscope_oss.Common.Text.{codes}
use drishtiscope_oss.Format.{fmt_bytes}
use drishtiscope_oss.Processes.{agent_label}
use drishtiscope_oss.Protocol.{
  Snapshot, SreMetrics, Kpis, Target, ProcessRow, SeriesPoint, IoPoint, NetPoint,
}
use drishtiscope_oss.Tabs.{Clock, hours_text, kpis_of, target_of, list_of}

unfoldable pub identity_label : Option Snapshot → Option ProcessRow → String
unfolding agent_label
identity_label s p =
    agent_label
      (text_or (λ (r : ProcessRow). r.comm) p
        (text_or (λ (t : Target). t.comm) (target_of s) "agy"))
      (field_else (λ (r : ProcessRow). r.cmdline) p "")

pub record Signals : Type 0 where
  pub p50 : ℕ
  pub p90 : ℕ
  pub p99 : ℕ
  pub slo_avail : ℕ
  pub error_budget : ℕ
  pub burn_rate : ℕ
  pub runqueue_lat : ℕ
  pub saturation : ℕ

-- The golden signals, with the sample figures of a snapshot without them.
unfoldable pub signals : Option SreMetrics → Signals
signals sre = record {
  p50 = field_else (λ (m : SreMetrics). m.latency_p50_us) sre 1_180;
  p90 = field_else (λ (m : SreMetrics). m.latency_p90_us) sre 4_820;
  p99 = field_else (λ (m : SreMetrics). m.latency_p99_us) sre 21_400;
  slo_avail = field_else (λ (m : SreMetrics). m.slo_availability) sre 99_940;
  error_budget = field_else (λ (m : SreMetrics). m.error_budget_pct) sre 94_200;
  burn_rate = field_else (λ (m : SreMetrics). m.burn_rate) sre 720;
  runqueue_lat = field_else (λ (m : SreMetrics). m.runqueue_latency_us) sre 850;
  saturation = field_else (λ (m : SreMetrics). m.saturation_pct) sre 18_500;
}

-- The small charts; those of the network and the disks are in units of 1/1024 of a thousandth.
abbrev pub cpu_spark : Option Snapshot → List ℕ
cpu_spark s = map (λ (p : SeriesPoint). p.cpu_pct) (list_of (λ s. s.cpu_series) s)

abbrev pub net_spark : Option Snapshot → List ℕ
net_spark s = map (λ (p : NetPoint). p.tx_bps + p.rx_bps) (list_of (λ s. s.net_series) s)

abbrev pub io_spark : Option Snapshot → List ℕ
io_spark s = map (λ (p : IoPoint). p.r_bps + p.w_bps) (list_of (λ s. s.io_series) s)

-- `sloGaugeData`: the value is in tenths of a percent.
pub record Gauge : Type 0 where
  pub value : ℕ
  pub fill : String

unfoldable pub slo_gauge : ℕ → Gauge
unfolding round_div
slo_gauge error_budget = record {
  value = round_div error_budget 100;
  fill = if ltb 70_000 error_budget then "#34A853" else "#FBBC04";
}

-- A row of `monarchSeries`; the rate is a whole number, the other figures are in tenths.
pub record VitalsRow : Type 0 where
  pub time : List ℕ
  pub cpu : ℕ
  pub traffic_syscall : ℕ
  pub p99_latency_us : ℕ
  pub io_kb : ℕ
  pub net_kb : ℕ

abbrev pub io_total : Option IoPoint → ℕ
io_total io = field_else (λ (p : IoPoint). p.r_bps + p.w_bps) io 0

abbrev pub net_total : Option NetPoint → ℕ
net_total net = field_else (λ (p : NetPoint). p.tx_bps + p.rx_bps) net 0

unfoldable pub vitals_row : (ℕ → Clock) → Snapshot → SeriesPoint → ℕ → VitalsRow
unfolding signals hours_text round_div
vitals_row clock s pt idx =
    let sys = field_or (λ (k : Kpis). k.syscalls_per_sec) (some s.kpis) 1_200_000 in
    record {
      time = hours_text (clock pt.t);
      cpu = round_div pt.cpu_pct 100;
      traffic_syscall = round_div (sys * (85 + idx % 7 * 5)) 100_000;
      p99_latency_us = round_div ((signals s.sre).p99 * (90 + idx % 5 * 5)) 10_000;
      io_kb = round_div (io_total (get_elem? s.io_series idx)) 102_400;
      net_kb = round_div (net_total (get_elem? s.net_series idx)) 102_400;
    }

unfoldable pub monarch_series : (ℕ → Clock) → Option Snapshot → List VitalsRow
unfolding vitals_row
monarch_series clock none = []
monarch_series clock (some s) = map_from (vitals_row clock s) 0 s.cpu_series

-- The error rate is red above two per second.
abbrev pub is_high_error_rate : Option Snapshot → Bool
is_high_error_rate s = ltb 2_000 (field_or (λ (k : Kpis). k.err_syscalls_per_sec) (kpis_of s) 0)

-- `Ratio`, in thousandths of a percent.
unfoldable pub error_ratio : Option Snapshot → ℕ
unfolding round_div
error_ratio s =
    round_div (field_or (λ (k : Kpis). k.err_syscalls_per_sec) (kpis_of s) 0 * 100_000)
      (max 1_000 (field_or (λ (k : Kpis). k.syscalls_per_sec) (kpis_of s) 1_000))

-- The panel of the target.
pub record Identity : Type 0 where
  pub label : String
  pub pid : ℕ
  pub other_comm : Option String
  pub state : String
  pub tgid : ℕ
  pub ppid : ℕ
  pub threads : ℕ
  pub rss : List ℕ
  pub vms : List ℕ
  pub cmdline : String
  pub ctx_switches : List ℕ
  pub open_fds : ℕ

-- ` comm=…`, which is shown where it differs from the label.
abbrev pub shown_comm : String → Option ProcessRow → Option String
shown_comm label none = none
shown_comm label (some p) = if (p.comm == "") || (label == p.comm) then none else some p.comm

-- `toLocaleString` of the context switches, which never gives the empty text.
abbrev pub switches_text : (ℕ → List ℕ) → Option ProcessRow → List ℕ
switches_text locale none = codes "142,801"
switches_text locale (some p) = locale p.ctx_switches

unfoldable pub identity : (ℕ → List ℕ) → Option Snapshot → Option ProcessRow → Identity
unfolding identity_label fmt_bytes
identity locale s p =
    let rss_of = λ (k : Kpis). k.rss_bytes in
    record {
      label = identity_label s p;
      pid =
          field_or (λ (r : ProcessRow). r.pid) p (field_or (λ (t : Target). t.pid) (target_of s) 0);
      other_comm = shown_comm (identity_label s p) p;
      state = text_or (λ (r : ProcessRow). r.state) p "R";
      tgid = field_or (λ (r : ProcessRow). r.tgid) p 0;
      ppid = field_or (λ (r : ProcessRow). r.ppid) p 1;
      threads =
          field_or (λ (r : ProcessRow). r.threads) p
            (field_or (λ (k : Kpis). k.threads) (kpis_of s) 1);
      rss =
          fmt_bytes (field_or (λ (r : ProcessRow). r.rss_bytes) p (field_or rss_of (kpis_of s) 0));
      vms =
          fmt_bytes
            (field_or (λ (r : ProcessRow). r.vms_bytes) p (field_or rss_of (kpis_of s) 0 * 4));
      cmdline =
          text_or (λ (r : ProcessRow). r.cmdline) p
            "/home/ramum/.local/bin/agy --server --tracking=ebpf";
      ctx_switches = switches_text locale p;
      open_fds =
          field_or (λ (r : ProcessRow). r.open_fds) p
            (field_or (λ (k : Kpis). k.open_fds) (kpis_of s) 42);
    }
