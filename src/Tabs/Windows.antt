-- ===== src/Tabs/Windows.antt =====
-- Which events the tabs draw: each takes the first ones of a list to whose end the new ones are added.
use drishtiscope_oss.Common.{
  ℕ, zero, suc, ◌≤◌, ◌≡◌, refl, sym, subst, ap, ◌∙◌, Bool, true, false, Option, none, some, List,
  [], ◌∷◌, ◌++◌, map, filter, filter-append, take, length, All, arith,
}
use drishtiscope_oss.App.{App, Readings, handle, with_mode, on_message}
use drishtiscope_oss.App.Sessions.{Arrival, feed}
use drishtiscope_oss.Protocol.{
  Kind, hello, snapshot, event, heartbeat, error, Payload, Mode, Snapshot, ProcessRow, EventRow,
}
use drishtiscope_oss.Store.{add_event}
use drishtiscope_oss.Tabs.{rows_or}
use drishtiscope_oss.Tabs.CompletePicture.{LogFilter, passes, to_log, filtered_logs, log_rows}
use drishtiscope_oss.Tabs.Medium.{Lane, in_lane, filtered_events, lane_rows}
use drishtiscope_oss.Tabs.Story.{process_events, story_rows}

module _ {ℓ} {A : Type ℓ} where
  take-append_le : (n : ℕ) (xs ys : List A) → n ≤ length xs → take n (xs ++ ys) ≡ take n xs
  take-append_le zero xs ys h = refl
  take-append_le (suc n) [] ys h = absurd (omega arith)
  take-append_le (suc n) (x ∷ xs) ys h = ap (λ zs. x ∷ zs) (take-append_le n xs ys (omega arith))

  take-filter :
      (n : ℕ) (p : A → Bool) (xs ys : List A)
      → n ≤ length (filter p xs)
      → take n (filter p (xs ++ ys)) ≡ take n (filter p xs)
  take-filter n p xs ys h =
      ap (take n) (filter-append p xs ys) ∙ take-append_le n (filter p xs) (filter p ys) h

map-to_log : (xs ys : List EventRow) → map to_log (xs ++ ys) ≡ map to_log xs ++ map to_log ys
map-to_log [] ys = refl
map-to_log (x ∷ xs) ys = ap (λ l. to_log x ∷ l) (map-to_log xs ys)

-- Once the 15 rows of the story are full, events that are added at the end change none of them.
pub story_rows-IsStale :
    (s : Option Snapshot) (p : Option ProcessRow) (events more : List EventRow)
    → 15 ≤ length (process_events s p events)
    → story_rows s p (events ++ more) ≡ story_rows s p events
unfolding story_rows process_events
story_rows-IsStale s p events more h = take-filter 15 _ events more h

-- Once the 35 rows of the log are full under a filter, and the 30 rows of a lane, a snapshot whose
-- timeline has more events at its end shows the same rows.
pub timeline_rows-IsStale :
    (f : LogFilter) (lane : Lane) (s : Snapshot) (rows more events : List EventRow)
    → s.timeline ≡ some rows
    → 35 ≤ length (filtered_logs f (some s) events)
    → 30 ≤ length (filtered_events lane (some s) events)
    → let later = record s { timeline = some (rows ++ more) } in
      (log_rows f (some later) events ≡ log_rows f (some s) events)
      × (lane_rows lane (some later) events ≡ lane_rows lane (some s) events)
unfolding log_rows filtered_logs lane_rows filtered_events
timeline_rows-IsStale f lane s rows more events e h k =
    let logs = λ (l : List EventRow). filter (passes f) (map to_log l) in
    let lanes = λ (l : List EventRow). filter (λ v. in_lane lane v.category) l in
    let shown = ap (λ (t : Option (List EventRow)). rows_or t events) e in
    (
      ap (λ l. take 35 (filter (passes f) l)) (map-to_log rows more)
          ∙ take-filter 35 (passes f) (map to_log rows) (map to_log more)
              (subst (λ l. 35 ≤ length (logs l)) shown h)
          ∙ ap (λ l. take 35 (logs l)) (sym shown),
      take-filter 30 (λ v. in_lane lane v.category) rows more
            (subst (λ l. 30 ≤ length (lanes l)) shown k)
          ∙ ap (λ l. take 30 (lanes l)) (sym shown),
    )

abbrev pub is_snapshot : Kind → Bool
is_snapshot snapshot = true
is_snapshot _ = false

with_mode-snapshot :
    (m : Option Mode) (app : App) → (with_mode m app).page.0.snapshot ≡ app.page.0.snapshot
with_mode-snapshot none app = refl
with_mode-snapshot (some m) app = refl

handle-snapshot :
    (k : Kind) (p : Payload k) (now : Readings) (app : App)
    → is_snapshot k ≡ false
    → (handle k p now app).page.0.snapshot ≡ app.page.0.snapshot
unfolding handle add_event
handle-snapshot hello p now app h = refl
handle-snapshot snapshot p now app h = absurd (cc h)
handle-snapshot event p now app h = ground arith
handle-snapshot heartbeat p now app h = refl
handle-snapshot error p now app h = refl

feed-snapshot :
    (msgs : List Arrival) (app : App)
    → All (λ (a : Arrival). is_snapshot a.1.kind ≡ false) msgs
    → (feed msgs app).page.0.snapshot ≡ app.page.0.snapshot
unfolding feed on_message
feed-snapshot [] app h = refl
feed-snapshot ((now, msg) ∷ msgs) app (h, hs) =
    feed-snapshot msgs (on_message now msg app) hs
    ∙ handle-snapshot msg.kind msg.payload now (with_mode msg.mode app) h
    ∙ with_mode-snapshot msg.mode app

-- While the timeline of the snapshot is null, as there is none yet, the log and the lanes draw the live
-- events of the store.
pub live_events_drawn :
    (f : LogFilter) (lane : Lane) (s : Snapshot) (events : List EventRow)
    → s.timeline ≡ none
    → (log_rows f (some s) events ≡ log_rows f none events)
      × (lane_rows lane (some s) events ≡ lane_rows lane none events)
unfolding log_rows filtered_logs lane_rows filtered_events
live_events_drawn f lane s events e = (rw e refl, rw e refl)

-- Once the store has a snapshot with a timeline, be it empty, messages of other kinds, live events among
-- them, change no row of the log and of the lanes, however many arrive.
pub live_events_hidden :
    (f : LogFilter) (lane : Lane) (msgs : List Arrival) (app : App) (s : Snapshot)
    (rows : List EventRow)
    → app.page.0.snapshot ≡ some s
    → s.timeline ≡ some rows
    → All (λ (a : Arrival). is_snapshot a.1.kind ≡ false) msgs
    → let st = app.page.0 in
      let later = (feed msgs app).page.0 in
      (log_rows f later.snapshot later.events ≡ log_rows f st.snapshot st.events)
      × (lane_rows lane later.snapshot later.events ≡ lane_rows lane st.snapshot st.events)
unfolding log_rows filtered_logs lane_rows filtered_events
live_events_hidden f lane msgs app s rows e t h =
    let k = feed-snapshot msgs app h in (rw (k, e, t) refl, rw (k, e, t) refl)
