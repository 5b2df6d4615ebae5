-- ===== src/Tabs/Counts.antt =====
-- The filters of the log and the lanes share out the events.
use drishtiscope_oss.Common.{
  ℕ, ◌+◌, ◌≡◌, refl, Bool, true, false, Option, none, some, List, [], ◌∷◌, map, filter, length,
  arith,
}
use drishtiscope_oss.Protocol.{Snapshot, EventRow, Category, process}
use drishtiscope_oss.Tabs.{timeline_or}
use drishtiscope_oss.Tabs.CompletePicture.{
  LogLevel, info_level, warning_level, error_level, LogEntry, to_log, passes, filtered_logs,
}
use drishtiscope_oss.Tabs.Medium.{
  Lane, all_lanes, syscall_lane, file_lane, network_lane, compute_lane, in_lane, filtered_events,
}

abbrev log_count : Option LogLevel → List LogEntry → ℕ
log_count f ls = length (filter (passes f) ls)

log_count-split :
    (ls : List LogEntry)
    → log_count none ls
      ≡ log_count (some info_level) ls
        + log_count (some warning_level) ls
        + log_count (some error_level) ls
log_count-split [] = refl
log_count-split (l ∷ ls) = ground (arith, log_count-split ls)

abbrev pub is_process : Category → Bool
is_process process = true
is_process _ = false

abbrev lane_count : Lane → List EventRow → ℕ
lane_count lane es = length (filter (λ e. in_lane lane e.category) es)

lane_count-split :
    (es : List EventRow)
    → lane_count all_lanes es
      ≡ lane_count syscall_lane es
        + lane_count file_lane es
        + lane_count network_lane es
        + lane_count compute_lane es
        + length (filter (λ e. is_process e.category) es)
lane_count-split [] = refl
lane_count-split (e ∷ es) = ground (arith, lane_count-split es)

-- The log under ALL has as many entries as under INFO, WARNING and ERROR together; the events of all
-- lanes are those of the four lanes and the process events, which have no lane.
pub filters-total :
    (s : Option Snapshot) (events : List EventRow)
    → (length (filtered_logs none s events)
        ≡ length (filtered_logs (some info_level) s events)
          + length (filtered_logs (some warning_level) s events)
          + length (filtered_logs (some error_level) s events))
      × (length (filtered_events all_lanes s events)
          ≡ length (filtered_events syscall_lane s events)
            + length (filtered_events file_lane s events)
            + length (filtered_events network_lane s events)
            + length (filtered_events compute_lane s events)
            + length (filter (λ e. is_process e.category) (timeline_or s events)))
unfolding filtered_logs filtered_events
filters-total s events =
    (log_count-split (map to_log (timeline_or s events)), lane_count-split (timeline_or s events))
