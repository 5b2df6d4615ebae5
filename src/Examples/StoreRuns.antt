-- ===== src/Examples/StoreRuns.antt =====
-- The store: events and pauses, themes and reloads, scratch graphs.
use drishtiscope_oss.Common.{
  ◌≡◌, refl, String, none, some, List, [], ◌∷◌, ◌==◌, slice_last, if◌then◌else◌,
}
use drishtiscope_oss.Browser
use drishtiscope_oss.Browser.{Browser, contains}
use drishtiscope_oss.Store
use drishtiscope_oss.Store.{create, max_events, all_themes, apply_theme_classes, next_theme}
use drishtiscope_oss.Store.Types.{ScratchGraph, dark, purple, theme_name, r5000}
use drishtiscope_oss.Store.Graphs.{sg_quantile, sg_net_bidi}
use drishtiscope_oss.Store.Actions.{Action, Page, step, run}
use drishtiscope_oss.Store.Stream.{arrivals, events_window, Frozen, paused-Frozen}
use drishtiscope_oss.Store.Settings.{reload_keeps_settings}
use drishtiscope_oss.Store.Scratch.{HasDistinctIds, graph_of, scratch_ids_distinct, scratch_lookup}
use drishtiscope_oss.Examples.Samples.{an_event, a_snapshot, empty_browser, saved_browser}

abbrev acts : List Action
acts =
    Action.add_event (an_event "a")
    ∷ Action.toggle_pause
    ∷ Action.add_event (an_event "b")
    ∷ Action.set_theme dark
    ∷ Action.set_refresh_rate r5000
    ∷ Action.toggle_anti_flicker
    ∷ Action.toggle_pause
    ∷ Action.add_event (an_event "c")
    ∷ Action.toggle_theme
    ∷ []

runs : Unit {0}
unfolding create run step Store.set_theme Store.add_event Store.set_refresh_rate
    Store.toggle_anti_flicker Store.toggle_theme Store.next_theme Store.set_snapshot
runs = tt

acts_test :
    ((run acts (create saved_browser)).0.events ≡ an_event "a" ∷ an_event "c" ∷ [])
    × (theme_name (run acts (create saved_browser)).0.theme ≡ "ubuntu")
    × ((run acts (create saved_browser)).1.local_storage
        ≡ ("drishti_theme", "ubuntu")
          ∷ ("drishti_refresh", "5000")
          ∷ ("drishti_antiflicker", "false")
          ∷ [])
unfolding runs Store.apply_theme_classes Browser.set_item Browser.get_item
acts_test = (refl, refl, refl)

purple_start : (create saved_browser).0.theme ≡ purple
unfolding create Browser.get_item Store.parse_theme
purple_start = refl

events_window_example :
    (run acts (create empty_browser)).0.events
    ≡ slice_last max_events (arrivals acts (create empty_browser))
events_window_example = events_window acts empty_browser

abbrev noise : List Action
noise = Action.add_event (an_event "x") ∷ Action.set_snapshot 9 (a_snapshot 2) ∷ []

abbrev paused : Page
paused = (Store.toggle_pause (create empty_browser).0, (create empty_browser).1)

paused-Frozen_example : Frozen paused.0 (run noise paused).0
unfolding create
paused-Frozen_example = paused-Frozen noise paused (refl, (refl, tt)) refl

reload_keeps_settings_example :
    let before = (run acts (create saved_browser)).0 in
    let after = (create (run acts (create saved_browser)).1).0 in
    (after.theme ≡ before.theme)
    × (after.refresh_rate ≡ before.refresh_rate)
    × (after.anti_flicker ≡ before.anti_flicker)
reload_keeps_settings_example = reload_keeps_settings acts saved_browser

abbrev edits : List Action
edits =
    Action.add_scratch_graph sg_net_bidi
    ∷ Action.remove_scratch_graph "sg-quantile"
    ∷ Action.add_scratch_graph sg_quantile
    ∷ []

scratch_ids_distinct_example : HasDistinctIds (run edits (create empty_browser)).0.scratch_graphs
scratch_ids_distinct_example = scratch_ids_distinct edits empty_browser

scratch_lookup_example :
    let s = (create empty_browser).0 in
    ((g : ScratchGraph)
      → graph_of "sg-quantile" (Store.add_scratch_graph g s).scratch_graphs
        ≡ (if g.id == "sg-quantile" then some g else graph_of "sg-quantile" s.scratch_graphs))
    × ((id : String)
        → graph_of "sg-quantile" (Store.remove_scratch_graph id s).scratch_graphs
          ≡ (if id == "sg-quantile" then none else graph_of "sg-quantile" s.scratch_graphs))
scratch_lookup_example = scratch_lookup "sg-quantile" (create empty_browser).0
