-- ===== src/App/Throttle.antt =====
-- How the refresh rate limits the snapshots that reach the store.
use drishtiscope_oss.Common.{
  ℕ, ◌+◌, ◌≡◌, ◌≢◌, ap, leb, Option, none, some, arith, eq_iff, if◌then◌else◌,
}
use drishtiscope_oss.Common.Int.{pos}
use drishtiscope_oss.Protocol.{Snapshot}
use drishtiscope_oss.Store
use drishtiscope_oss.Store.Types.{RefreshRate, r500, r1000, r2000, r5000, manual, rate_name}
use drishtiscope_oss.App.{App, Readings, min_interval, on_snapshot}

-- The interval that each refresh rate of the selector stands for, in milliseconds.
abbrev pub interval_ms : RefreshRate → Option ℕ
interval_ms r500 = some 500
interval_ms r1000 = some 1000
interval_ms r2000 = some 2000
interval_ms r5000 = some 5000
interval_ms manual = none

min_interval_lem :
    (r : RefreshRate) (m : ℕ) → interval_ms r ≡ some m → min_interval (rate_name r) ≡ pos m
unfolding min_interval
min_interval_lem r500 m h = ground arith
min_interval_lem r1000 m h = ground arith
min_interval_lem r2000 m h = ground arith
min_interval_lem r5000 m h = ground arith
min_interval_lem manual m h = cc

not_manual : (r : RefreshRate) (m : ℕ) → interval_ms r ≡ some m → rate_name r ≢ "manual"
not_manual r500 m h = ground (arith, eq_iff "500" "manual")
not_manual r1000 m h = ground (arith, eq_iff "1000" "manual")
not_manual r2000 m h = ground (arith, eq_iff "2000" "manual")
not_manual r5000 m h = ground (arith, eq_iff "5000" "manual")
not_manual manual m h = cc

pub on_snapshot_timed :
    (r : RefreshRate) (m : ℕ) (now : Readings) (s : Snapshot) (app : App)
    → interval_ms r ≡ some m
    → app.refresh_rate ≡ rate_name r
    → on_snapshot now s app ≡ (
        if leb (app.last_update + m) now.arrived
        then record app {
          page = (Store.set_snapshot now.stored s app.page.0, app.page.1);
          last_update = now.arrived;
        }
        else app)
unfolding on_snapshot
on_snapshot_timed r m now s app h e = ground (
  arith,
  eq_iff app.refresh_rate "manual",
  min_interval_lem r m h,
  ap min_interval e,
  not_manual r m h,
)
