-- ===== src/Tabs/Basic/Cards.antt =====
-- What BasicTab.tsx prints at its top: the banner, the error budget and the four golden signals.
use Prim.Native.String.{◌++◌ as ◌+++◌}
use drishtiscope_oss.Common.{ℕ, ◌+◌, String, Option, none, some, List, [], ◌∷◌, ◌++◌, ◌≡◌, refl}
use drishtiscope_oss.Common.Fallback.{field_or, text_or}
use drishtiscope_oss.Common.Fixed.{digit_codes, fixed_one, fixed_two, fixed_three, round_div}
use drishtiscope_oss.Common.Text.{codes}
use drishtiscope_oss.Format.{fmt_bps}
use drishtiscope_oss.Protocol.{Snapshot, Kpis, Target}
use drishtiscope_oss.Tabs.{kpis_of, sre_of, target_of}
use drishtiscope_oss.Tabs.Basic.{signals, error_ratio}

pub record SloBanner : Type 0 where
  pub heading : String
  pub verdict : String
  pub pid : List ℕ
  pub uptime : List ℕ
  pub ingest_rate : List ℕ

abbrev pub uptime_of : Option Snapshot → ℕ
uptime_of none = 0
uptime_of (some s) = s.meta.uptime_s

abbrev pub rate_of : Option Snapshot → ℕ
rate_of none = 0
rate_of (some s) = s.meta.event_rate

unfoldable pub slo_banner : Option Snapshot → SloBanner
unfolding digit_codes round_div
slo_banner s = record {
  heading =
      "Agent Golden Signals: " +++ text_or (λ (t : Target). t.comm) (target_of s) "Target Process";
  verdict = "SLO MET (99.9% TARGET)";
  pid = codes "PID " ++ digit_codes (field_or (λ (t : Target). t.pid) (target_of s) 0);
  uptime = digit_codes (uptime_of s) ++ codes "s";
  ingest_rate = digit_codes (round_div (rate_of s) 1000) ++ codes " ev/s";
}

pub record Card : Type 0 where
  pub title : String
  pub unit : String
  pub figure : List ℕ
  pub details : List (List ℕ)
  pub verdict : String

unfoldable pub budget_card : Option Snapshot → Card
unfolding signals digit_codes fixed_one fixed_two round_div
budget_card s = record {
  title = "Error Budget Left";
  unit = "%";
  figure = fixed_one (round_div (signals (sre_of s)).error_budget 100);
  details =
      (digit_codes (round_div (signals (sre_of s)).error_budget 1000) ++ codes "%")
      ∷ (codes "Burn Rate "
          ++ (fixed_two (round_div (signals (sre_of s)).burn_rate 10) ++ codes "x"))
      ∷ codes "Target: <1.0x"
      ∷ [];
  verdict = "30-Day Healthy";
}

unfoldable pub latency_card : Option Snapshot → Card
unfolding signals fixed_one round_div
latency_card s =
    let g = signals (sre_of s) in
    record {
      title = "1. Latency (Kernel Quantiles)";
      unit = "µs";
      figure = fixed_one (round_div g.p50 100);
      details =
          (codes "P99: " ++ (fixed_one (round_div g.p99 100) ++ codes " µs"))
          ∷ (codes "P90: " ++ (fixed_one (round_div g.p90 100) ++ codes " µs"))
          ∷ [];
      verdict = "In SLA (<50µs)";
    }

-- `locale` is `toLocaleString`; nothing is said here of how the target fares.
unfoldable pub traffic_card : (ℕ → List ℕ) → Option Snapshot → Card
unfolding round_div fmt_bps
traffic_card locale s =
    let k = kpis_of s in
    record {
      title = "2. Traffic (Syscalls & Net)";
      unit = "RPS";
      figure = locale (round_div (field_or (λ (k : Kpis). k.syscalls_per_sec) k 0) 1000);
      details =
          (codes "Net: "
            ++ fmt_bps (
                field_or (λ (k : Kpis). k.net_bps_tx) k 0
                + field_or (λ (k : Kpis). k.net_bps_rx) k 0))
          ∷ (codes "Disk: "
              ++ fmt_bps (
                  field_or (λ (k : Kpis). k.disk_bps_r) k 0
                  + field_or (λ (k : Kpis). k.disk_bps_w) k 0))
          ∷ [];
      verdict = "";
    }

unfoldable pub errors_card : Option Snapshot → Card
unfolding signals fixed_two fixed_three round_div error_ratio
errors_card s = record {
  title = "3. Errors (Kernel Ret < 0)";
  unit = "Err/s";
  figure = fixed_two (round_div (field_or (λ (k : Kpis). k.err_syscalls_per_sec) (kpis_of s) 0) 10);
  details =
      (codes "Avail: " ++ (fixed_two (round_div (signals (sre_of s)).slo_avail 10) ++ codes "%"))
      ∷ (codes "Ratio: " ++ (fixed_three (error_ratio s) ++ codes "%"))
      ∷ [];
  verdict = "Zero Fatal Traps";
}

unfoldable pub saturation_card : Option Snapshot → Card
unfolding signals digit_codes fixed_one fixed_two round_div
saturation_card s = record {
  title = "4. Saturation (CPU & Runqueue)";
  unit = "Wait";
  figure = fixed_one (round_div (field_or (λ (k : Kpis). k.cpu_pct) (kpis_of s) 0) 100);
  details =
      (codes "FDs: "
        ++ (digit_codes (field_or (λ (k : Kpis). k.open_fds) (kpis_of s) 0) ++ codes "/1024"))
      ∷ (codes "Runqueue Lat: "
          ++ (fixed_two (round_div (signals (sre_of s)).runqueue_lat 10) ++ codes " µs"))
      ∷ [];
  verdict = "Headroom 81%";
}

-- The verdicts over the figures are the same whatever the snapshot is, and where there is none.
pub verdicts_fixed :
    (s t : Option Snapshot)
    → ((slo_banner s).verdict ≡ (slo_banner t).verdict)
      × ((budget_card s).verdict ≡ (budget_card t).verdict)
      × ((latency_card s).verdict ≡ (latency_card t).verdict)
      × ((errors_card s).verdict ≡ (errors_card t).verdict)
      × ((saturation_card s).verdict ≡ (saturation_card t).verdict)
unfolding slo_banner budget_card latency_card errors_card saturation_card
verdicts_fixed s t = (refl, refl, refl, refl, refl)
