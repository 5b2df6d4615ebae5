-- ===== src/Examples/AppRuns.antt =====
-- Messages under a refresh rate of 500 ms, and in manual mode.
use drishtiscope_oss.Common.{ℕ, ◌≡◌, refl, some, List, [], ◌∷◌}
use drishtiscope_oss.Common.Int.{pos, negsuc}
use drishtiscope_oss.Store
use drishtiscope_oss.Store.{create}
use drishtiscope_oss.Store.Types.{r500}
use drishtiscope_oss.App.{App, min_interval, on_snapshot, on_message}
use drishtiscope_oss.App.Sessions.{Arrival, Spaced, Changes, feed, Changes-Spaced}
use drishtiscope_oss.Examples.Samples.{a_snapshot, read_at, snapshot_message, beat, empty_browser}

abbrev rapid : App
rapid = record { page = create empty_browser; last_update = 0; refresh_rate = "500" }

abbrev by_hand : App
by_hand = record { page = create empty_browser; last_update = 0; refresh_rate = "manual" }

abbrev messages : List Arrival
messages =
    (read_at 1000, snapshot_message 1)
    ∷ (read_at 1400, snapshot_message 2)
    ∷ (read_at 1450, beat)
    ∷ (read_at 1500, snapshot_message 3)
    ∷ (read_at 2100, snapshot_message 4)
    ∷ []

intervals :
    (min_interval "500" ≡ pos 500)
    × (min_interval "" ≡ pos 2000)
    × (min_interval "0" ≡ pos 2000)
    × (min_interval " -7x" ≡ negsuc 6)
    × (min_interval "fast" ≡ pos 2000)
unfolding min_interval
intervals = (refl, refl, refl, refl, refl)

-- The snapshot that the store has afterwards, with its time.
throttled_test :
    let after = (feed messages rapid).page.0 in
    (after.snapshot ≡ some (a_snapshot 4)) × (after.last_snapshot_at ≡ some 2101)
unfolding feed on_message min_interval Store.set_snapshot create on_snapshot
throttled_test = (refl, refl)

Changes-Spaced_example : (ts : List ℕ) × Changes messages rapid ts × Spaced 500 0 ts
Changes-Spaced_example = Changes-Spaced r500 500 refl messages rapid refl
