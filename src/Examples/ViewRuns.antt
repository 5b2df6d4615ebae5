-- ===== src/Examples/ViewRuns.antt =====
-- The tabs, the scratch graphs, the small components and the headers at concrete inputs.
use Prim.Native.String.{◌++◌ as ◌+++◌}
use drishtiscope_oss.Common.{
  ℕ, zero, suc, ◌≤◌, ◌<◌, ◌≡◌, ◌≢◌, refl, String, true, map, eq_iff, some, none, ◌==◌, List, [],
  ◌∷◌, ◌++◌, length, All, arith, if◌then◌else◌,
}
use drishtiscope_oss.Protocol.{WsMessage}
use drishtiscope_oss.App.{App, mounted, on_message}
use drishtiscope_oss.Chat.Graphs.{requested_graph, page_faults_graph}
use drishtiscope_oss.Common.Text.{codes, to_lower}
use drishtiscope_oss.Scratchpad.{thread_mem_preset, page_faults_preset}
use drishtiscope_oss.Scratchpad.Keys.{IsKeyed, graphs-IsKeyed}
use drishtiscope_oss.Tabs.Story.{process_events, story_rows, is_about, active_pid}
use drishtiscope_oss.Tabs.Story.Arrivals.{event_arrives}
use drishtiscope_oss.App.Sessions.{Arrival, feed}
use drishtiscope_oss.Examples.Samples.{a_snapshot, read_at, an_event, empty_browser, beat}
use drishtiscope_oss.Omnibox.Suggest.{agy_row, node_row}
use drishtiscope_oss.Processes.{handle_row_click, sorts_as_target, is_target, same_lower}
use drishtiscope_oss.Protocol.{Snapshot, ProcessRow, EventRow, event}
use drishtiscope_oss.Requests.{Headers, get, api_headers}
use drishtiscope_oss.Requests.Headers.{api_headers-get}
use drishtiscope_oss.Scratchpad.Data.{compute_data}
use drishtiscope_oss.Scratchpad.Data.Bounds.{IsDrawable, compute_data-IsDrawable}
use drishtiscope_oss.Store.{create}
use drishtiscope_oss.Store.Types.{runqueue_switches}
use drishtiscope_oss.Store.Graphs.{initial_scratch_graphs}
use drishtiscope_oss.Tabs.{Clock}
use drishtiscope_oss.Tabs.CompletePicture.{log_rows, filtered_logs}
use drishtiscope_oss.Tabs.Medium.{lane_rows, filtered_events, all_lanes}
use drishtiscope_oss.Tabs.Targets.{row_click, row_click-once, row_click-IsMarked}
use drishtiscope_oss.Tabs.Windows.{timeline_rows-IsStale, live_events_hidden}
use drishtiscope_oss.Widgets.{Point, sparkline}
use drishtiscope_oss.Widgets.Bars.{IsInBox, sparkline-IsInBox}

abbrev many : ℕ → List EventRow
many zero = []
many (suc n) = an_event "e" ∷ many n

-- A snapshot whose rows are full.
abbrev full : Snapshot
full = record (a_snapshot 5) { timeline = some (many 35); processes = agy_row ∷ node_row ∷ [] }

timeline_rows-IsStale_example :
    let later = record full { timeline = some (many 35 ++ an_event "new" ∷ []) } in
    (log_rows none (some later) [] ≡ log_rows none (some full) [])
    × (lane_rows all_lanes (some later) [] ≡ lane_rows all_lanes (some full) [])
unfolding filtered_logs filtered_events
timeline_rows-IsStale_example =
    timeline_rows-IsStale none all_lanes full (many 35) (an_event "new" ∷ []) [] refl (omega arith)
      (omega arith)

abbrev showing : App
showing = mounted (record (create empty_browser).0 { snapshot = some full }, empty_browser)

abbrev live : List Arrival
live =
    (read_at 10, record { v = 1; kind = event; ts = ""; mode = none; payload = an_event "live" })
    ∷ (read_at 20, beat)
    ∷ []

live_events_hidden_example :
    let later = (feed live showing).page.0 in
    (log_rows none later.snapshot later.events
      ≡ log_rows none showing.page.0.snapshot showing.page.0.events)
    × (lane_rows all_lanes later.snapshot later.events
        ≡ lane_rows all_lanes showing.page.0.snapshot showing.page.0.events)
live_events_hidden_example =
    live_events_hidden none all_lanes live showing full (many 35) refl refl (refl, (refl, tt))

row_click-once_example :
    ((row_click full node_row).0 ≡ 2190)
    × (map some (row_click full node_row).1 ≡ (handle_row_click true node_row).target ∷ [])
row_click-once_example = row_click-once full 1 node_row ((omega arith, tt), (tt, tt)) refl

-- A process of the copilot whose name is a thread's.
abbrev copilot_row : ProcessRow
copilot_row = record agy_row { comm = "MainThread"; cmdline = "/opt/copilot-linux/bin"; pid = 77 }

abbrev assisted : Snapshot
assisted = record full { processes = node_row ∷ copilot_row ∷ [] }

row_click-IsMarked_example :
    (t : String × ℕ) × ((row_click assisted copilot_row).1 ≡ t ∷ [])
    × (sorts_as_target (some t.0) copilot_row ≡ true)
    × (is_target (some t.0) copilot_row ≡ true)
    × (t.0 ≡ "MainThread" → t.1 ≡ 77)
    × (t.0 ≢ "MainThread" → t.1 ≡ 0)
row_click-IsMarked_example =
    row_click-IsMarked assisted 1 copilot_row ((omega arith, tt), (tt, tt)) refl
      (λ e. ground (arith, eq_iff "MainThread" ""))

-- Two system calls in which there is nothing to round.
abbrev called : Snapshot
called = record (a_snapshot 5) {
  syscalls_top =
      record { name = "read"; count_s = 2_000; errors_s = 0 }
      ∷ record { name = "futex"; count_s = 5_000; errors_s = 0 }
      ∷ [];
}

abbrev noon : ℕ → Clock
noon t = record { hours = 12; minutes = 5; seconds = 9 }

abbrev busy : Snapshot
busy = record (a_snapshot 5) { cpu_series = record { t = 10; cpu_pct = 7_000 } ∷ [] }

compute_data-IsDrawable_example : IsDrawable (compute_data noon (some busy) runqueue_switches)
compute_data-IsDrawable_example = compute_data-IsDrawable noon (some busy) runqueue_switches

abbrev rates : List ℕ
rates = 9 ∷ 4 ∷ []

sparkline-IsInBox_example :
    (0 < length rates
      → (pts : List Point) × (sparkline 200 40 (3 ∷ rates) ≡ some pts)
        × (length pts ≡ suc (length rates))
        × All (IsInBox 200 40) pts)
    × ((pts : List Point) × (sparkline 200 40 (3 ∷ []) ≡ some pts)
        × All (λ (p : Point). (p.x.num ≡ 0) × (p.x.den ≡ 0)) pts)
sparkline-IsInBox_example = sparkline-IsInBox 200 40 3 rates

abbrev json : Headers
json = ("Content-Type", "application/json") ∷ []

api_headers-get_example : get "authorization" (api_headers "s3cret" json) ≡ (
    if "s3cret" == ""
    then get "authorization" json
    else if same_lower "Authorization" "authorization"
    then some ("Bearer " +++ "s3cret")
    else get "authorization" json)
api_headers-get_example = api_headers-get "s3cret" "authorization" json

graphs-IsKeyed_example :
    IsKeyed (λ k. none) (page_faults_graph 9)
    × All (IsKeyed (λ k. none)) initial_scratch_graphs
    × IsKeyed (λ k. none) (thread_mem_preset 9)
    × IsKeyed (λ k. none) (page_faults_preset 9)
unfolding requested_graph to_lower
graphs-IsKeyed_example =
    graphs-IsKeyed (λ k. none) 9 (to_lower (codes "Draw the page hits")) (page_faults_graph 9)
      "Linux Page Fault Rates (Minor vs Major)" refl

-- The store is empty, and the event is about the target of the sample snapshot.
event_arrives_example :
    let before = (create empty_browser).0.events in
    let message : WsMessage = record {
      v = 1;
      kind = event;
      ts = "";
      mode = none;
      payload = an_event "e";
    } in
    let after = (on_message (read_at 5) message (mounted (create empty_browser))).page.0.events in
    (length (process_events (some full) none before) < 15
      → story_rows (some full) none after ≡ story_rows (some full) none before ++ an_event "e" ∷ [])
    × (15 ≤ length (process_events (some full) none before)
        → story_rows (some full) none after ≡ story_rows (some full) none before)
unfolding is_about active_pid create
event_arrives_example =
    event_arrives 1 (read_at 5) "" none (an_event "e") (mounted (create empty_browser)) (some full)
      none refl (omega arith) refl
