-- ===== src/Tabs/Agreement.antt =====
-- What different parts of the page say of the same target.
use native.Mathlib.Nat.{div-lt_iff_lt-mul}
use drishtiscope_oss.Common.{
  ℕ, List, ◌+◌, ◌*◌, ◌/◌, ◌≤◌, ◌<◌, ◌≡◌, ◌≢◌, refl, ap, String, Option, some, eq_iff, arith,
}
use drishtiscope_oss.Common.Fallback.{or_text, text_or}
use drishtiscope_oss.Processes.{agent_label}
use drishtiscope_oss.Common.Fixed.{round_div}
use drishtiscope_oss.Protocol.{Snapshot, ProcessRow}
use drishtiscope_oss.Scratchpad.Data.{quantile_data, quantile_rows}
use drishtiscope_oss.Tabs.Story
use drishtiscope_oss.Tabs.Basic
use drishtiscope_oss.Tabs.Basic.{signals, error_ratio}

or_text_lem : (t a b : String) → t ≢ "" → or_text t a ≡ or_text t b
or_text_lem t a b h = ground (arith, eq_iff t "")

-- Where the snapshot names its target, the story and the overview call it by the same label and show
-- the same process id for it, and the latency curve of the scratchpad shows at its first, third and
-- fifth place the latencies of the overview.
pub same_target :
    (locale : ℕ → List ℕ) (s : Snapshot) (p : Option ProcessRow)
    → s.meta.target.comm ≢ ""
    → (Story.label (some s) p ≡ Basic.identity_label (some s) p)
      × (Story.active_pid (some s) p ≡ (Basic.identity locale (some s) p).pid)
      × (quantile_data s.sre
          ≡ quantile_rows (signals s.sre).p50 (signals s.sre).p90 (signals s.sre).p99)
unfolding Story.label Story.active_comm Story.active_pid Basic.identity_label Basic.identity
    quantile_data signals
same_target locale s p h = (
  ap (λ c. agent_label (text_or (λ (r : ProcessRow). r.comm) p c) (Story.cmdline_of p))
      (or_text_lem s.meta.target.comm "unknown" "agy" h),
  refl,
  refl,
)

ratio_bounded : (e m : ℕ) → e ≤ m → 0 ≢ m → round_div (e * 100_000) m ≤ 100_000
unfolding round_div
ratio_bounded e m h k =
    let below : (2 * (e * 100_000) + m) / (2 * m) < 100_001 =
      (div-lt_iff_lt-mul (omega arith)).1 (omega arith) in
    omega arith

-- The share of failed system calls is at most 100 percent where no more calls fail than are made.
pub error_ratio-le :
    (s : Snapshot)
    → s.kpis.err_syscalls_per_sec ≤ s.kpis.syscalls_per_sec
    → error_ratio (some s) ≤ 100_000
unfolding error_ratio
error_ratio-le s h = ratio_bounded _ _ (ground arith) (ground arith)
