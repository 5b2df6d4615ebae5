-- ===== src/Tabs.antt =====
-- The five tabs, frontend/src/components/tabs: what they compute from the snapshot and the events.
-- This module has what they share: the snapshot's parts where there may be no snapshot, the events
-- that the log and the lanes show, and the time of day in front of a chart's row.
pub mod Story
pub mod Medium
pub mod CompletePicture
pub mod Advanced
pub mod Basic
pub mod Roles
pub mod Windows
pub mod Counts
pub mod Targets
pub mod Agreement
pub mod Plots
use drishtiscope_oss.Common.{ℕ, Option, none, some, List, [], ◌∷◌, ◌++◌}
use drishtiscope_oss.Common.Fixed.{digit_codes, pad_start}
use drishtiscope_oss.Protocol.{
  Snapshot, Kpis, SreMetrics, Target, EventRow, SeriesPoint, IoPoint, NetPoint,
}

-- `snapshot?.kpis`, `snapshot?.sre`, `snapshot?.meta?.target`
abbrev pub kpis_of : Option Snapshot → Option Kpis
kpis_of none = none
kpis_of (some s) = some s.kpis

abbrev pub sre_of : Option Snapshot → Option SreMetrics
sre_of none = none
sre_of (some s) = s.sre

abbrev pub target_of : Option Snapshot → Option Target
target_of none = none
target_of (some s) = some s.meta.target

-- `snapshot?.cpu_series || []` and the like
abbrev pub list_of {ℓ} : {A : Type ℓ} → (Snapshot → List A) → Option Snapshot → List A
list_of f none = []
list_of f (some s) = f s

-- A list or null, `||` another one; an empty list is not passed over.
abbrev pub rows_or : Option (List EventRow) → List EventRow → List EventRow
rows_or none events = events
rows_or (some rows) events = rows

-- `snapshot?.timeline || events || []`
abbrev pub timeline_or : Option Snapshot → List EventRow → List EventRow
timeline_or none events = events
timeline_or (some s) events = rows_or s.timeline events

-- What the local clock shows at a time; the time zone is the browser's.
pub record Clock : Type 0 where
  pub hours : ℕ
  pub minutes : ℕ
  pub seconds : ℕ

abbrev pub two_digits : ℕ → List ℕ
two_digits n = pad_start 2 b'0' (digit_codes n)

unfoldable pub minutes_text : Clock → List ℕ
unfolding pad_start digit_codes
minutes_text d = two_digits d.minutes ++ (b':' ∷ two_digits d.seconds)

unfoldable pub hours_text : Clock → List ℕ
unfolding minutes_text pad_start digit_codes
hours_text d = two_digits d.hours ++ (b':' ∷ minutes_text d)
