-- ===== src/Store/Stream.antt =====
-- What the store keeps of the live stream: the last 300 events that arrived while it was not
-- paused, and nothing at all of what arrives while it is.
use drishtiscope_oss.Common.{
  ◌≤◌, ◌≡◌, refl, sym, ap, ◌∙◌, Bool, true, false, List, [], ◌∷◌, ◌++◌, length, slice_last, All,
  arith, length-append,
}
use drishtiscope_oss.Common.Windows.{slice_last-append, length-slice_last, slice_last_of_le}
use mathlib.Core.List.{append_assoc, append-nil}
use drishtiscope_oss.Protocol.{EventRow}
use drishtiscope_oss.Browser.{Browser}
use drishtiscope_oss.Store
use drishtiscope_oss.Store.{max_events, create}
use drishtiscope_oss.Store.Types.{ScopeStore}
use drishtiscope_oss.Store.Actions.{Action, Page, step, run, toggle_pause}

-- The events that one action, or a sequence of them, lets into the store.
abbrev arrival : Action → Bool → List EventRow
arrival (Action.add_event e) false = e ∷ []
arrival _ _ = []

abbrev pub arrivals : List Action → Page → List EventRow
unfolding step
arrivals [] p = []
arrivals (a ∷ acts) p = arrival a p.0.is_paused ++ arrivals acts (step a p)

add_event-window :
    (e : EventRow) (s : ScopeStore)
    → s.is_paused ≡ false
    → length s.events ≤ max_events
    → (Store.add_event e s).events ≡ slice_last max_events (s.events ++ e ∷ [])
unfolding Store.add_event
add_event-window e s live short = ground (arith, length-append s.events (e ∷ []))

-- One action, seen through the window: cases by the action, with the window lemma for an event.
step_events :
    (a : Action) (p : Page)
    → length p.0.events ≤ max_events
    → (step a p).0.events ≡ slice_last max_events (p.0.events ++ arrival a p.0.is_paused)
unfolding step Store.add_event Store.set_snapshot Store.set_refresh_rate Store.toggle_anti_flicker
    Store.set_theme Store.toggle_theme Store.add_scratch_graph Store.remove_scratch_graph
    Store.reset_scratch_graphs
step_events (Action.add_event e) (st, b) h =
    ground
      (arith, slice_last_of_le max_events st.events h, append-nil st.events, add_event-window e st)
step_events (Action.set_snapshot now s) (st, b) h =
    ground (arith, slice_last_of_le max_events st.events h, append-nil st.events)
step_events _ (st, b) h = rw append-nil (sym (slice_last_of_le max_events st.events h))

step_window :
    (a : Action) (p : Page) (hist : List EventRow)
    → p.0.events ≡ slice_last max_events hist
    → (step a p).0.events ≡ slice_last max_events (hist ++ arrival a p.0.is_paused)
step_window a p hist e =
    step_events a p (omega (arith, ap length e, length-slice_last max_events hist))
    ∙ ap (λ l. slice_last max_events (l ++ arrival a p.0.is_paused)) e
    ∙ slice_last-append max_events hist (arrival a p.0.is_paused)

run_window :
    (acts : List Action) (p : Page) (hist : List EventRow)
    → p.0.events ≡ slice_last max_events hist
    → (run acts p).0.events ≡ slice_last max_events (hist ++ arrivals acts p)
unfolding run arrivals
run_window [] p hist e = rw append-nil e
run_window (a ∷ acts) p hist e =
    run_window acts (step a p) (hist ++ arrival a p.0.is_paused) (step_window a p hist e)
    ∙ ap (slice_last max_events) (append_assoc hist _ _)

-- After any sequence of actions from the start, the store's events are the last 300 of those that
-- were added while the stream was not paused, in their order.
pub events_window :
    (acts : List Action) (b : Browser)
    → (run acts (create b)).0.events ≡ slice_last max_events (arrivals acts (create b))
unfolding create
events_window acts b = run_window acts (create b) [] refl

-- The store never holds more than 300 events.
pub events_bounded :
    (acts : List Action) (b : Browser) → length (run acts (create b)).0.events ≤ 300
events_bounded acts b = omega (
  arith,
  ap length (events_window acts b),
  length-slice_last max_events (arrivals acts (create b)),
)

-- No action of the sequence is `togglePause`.
abbrev pub keeps_pause : Action → Bool
keeps_pause toggle_pause = false
keeps_pause _ = true

-- What a paused dashboard shows of the stream.
abbrev pub Frozen : ScopeStore → ScopeStore → Type 0
Frozen s t =
    (t.is_paused ≡ true)
    × (t.snapshot ≡ s.snapshot)
    × (t.events ≡ s.events)
    × (t.last_snapshot_at ≡ s.last_snapshot_at)

step-Frozen :
    (a : Action) (s : ScopeStore) (p : Page)
    → keeps_pause a ≡ true
    → Frozen s p.0
    → Frozen s (step a p).0
unfolding step Store.add_event Store.set_snapshot Store.set_refresh_rate Store.toggle_anti_flicker
    Store.set_theme Store.toggle_theme Store.add_scratch_graph Store.remove_scratch_graph
    Store.reset_scratch_graphs
step-Frozen (Action.add_event e) s (st, b) k f = ground arith
step-Frozen (Action.set_snapshot now x) s (st, b) k f = ground arith
step-Frozen toggle_pause s (st, b) k f = cc
step-Frozen _ s (st, b) k f = f

run-Frozen :
    (acts : List Action) (s : ScopeStore) (p : Page)
    → All (λ a. keeps_pause a ≡ true) acts
    → Frozen s p.0
    → Frozen s (run acts p).0
unfolding run
run-Frozen [] s p k f = f
run-Frozen (a ∷ acts) s p (k, ks) f = run-Frozen acts s (step a p) ks (step-Frozen a s p k f)

-- While the stream is paused no sequence of other actions changes the snapshot, its time or the
-- events, whatever messages arrive.
pub paused-Frozen :
    (acts : List Action) (p : Page)
    → All (λ a. keeps_pause a ≡ true) acts
    → p.0.is_paused ≡ true
    → Frozen p.0 (run acts p).0
paused-Frozen acts p k h = run-Frozen acts p.0 p k (h, refl, refl, refl)
