-- ===== src/Header/Controls.antt =====
-- The buttons and selectors of frontend/src/components/Header.tsx: what each of them shows of the store and
-- which operation of the store it calls.
use drishtiscope_oss.Common.{ℕ, String, Bool, false, ◌==◌, List, [], ◌∷◌, if◌then◌else◌}
use drishtiscope_oss.Common.Text.{codes, to_upper}
use drishtiscope_oss.Protocol.{ConnectionStatus, connecting, connected, reconnecting, offline}
use drishtiscope_oss.Store.Types.{
  ScopeStore, TabType, story, basic, medium, advanced, complete, ThemeMode, light, dark, ubuntu,
  unix, purple, theme_name, RefreshRate, r500, r1000, r2000, r5000, manual, rate_name,
}
use drishtiscope_oss.Store.Actions.{Action}

pub data Control : Type 0 where
  flicker_toggle pause_toggle : Control
  rate_option : RefreshRate → Control
  range_button : String → Control
  theme_option : ThemeMode → Control
  tab_button : TabType → Control
  help_button : String → Control

-- `onClick`, or `onChange` of a selector.
abbrev pub on_control : Control → Action
on_control flicker_toggle = Action.toggle_anti_flicker
on_control pause_toggle = Action.toggle_pause
on_control (rate_option r) = Action.set_refresh_rate r
on_control (range_button tr) = Action.set_time_range tr
on_control (theme_option t) = Action.set_theme t
on_control (tab_button t) = Action.set_active_tab t
on_control (help_button id) = Action.open_metric_help id

-- The values of the selectors and the buttons of the time window, in their order.
abbrev pub rate_options : List (RefreshRate × String)
rate_options =
    (r2000, "2s (Calm)")
    ∷ (r1000, "1s (Balanced)")
    ∷ (r500, "500ms (Rapid)")
    ∷ (r5000, "5s (Relaxed)")
    ∷ (manual, "Manual (No stream)")
    ∷ []

abbrev pub range_names : List String
range_names = "1m" ∷ "5m" ∷ "15m" ∷ "1h" ∷ []

abbrev pub theme_labels : List (ThemeMode × String)
theme_labels =
    (light, "☀\u{fe0f} Light")
    ∷ (dark, "🌙 Dark")
    ∷ (ubuntu, "🟠 Ubuntu")
    ∷ (unix, "📟 Unix")
    ∷ (purple, "🔮 Purple")
    ∷ []

-- The help buttons, beside the pause button and the time windows.
abbrev pub help_ids : List String
help_ids = "stream_live_pause" ∷ "time_window_range" ∷ []

pub record Toggle : Type 0 where
  pub label : String
  pub title : String

abbrev pub flicker_face : ScopeStore → Toggle
flicker_face s =
    if s.anti_flicker
    then record {
      label = "Smooth";
      title =
          "Anti-Flicker is ON (Smooth, zero eye-strain). Click to enable high-FPS flicker mode.";
    }
    else record {
      label = "Rapid";
      title =
          "Anti-Flicker is OFF (High-FPS animation mode). Click to enable smooth eye-comfort mode.";
    }

abbrev pub pause_face : ScopeStore → Toggle
pause_face s =
    if s.is_paused
    then record { label = "Paused"; title = "Resume live kernel stream" }
    else record { label = "Live"; title = "Pause stream to freeze and inspect snapshot" }

abbrev pub status_name : ConnectionStatus → String
status_name connecting = "connecting"
status_name connected = "connected"
status_name reconnecting = "reconnecting"
status_name offline = "offline"

-- `status.toUpperCase()`
unfoldable pub status_text : ConnectionStatus → List ℕ
unfolding to_upper
status_text status = to_upper (codes (status_name status))

abbrev pub tab_name : TabType → String
tab_name story = "story"
tab_name basic = "basic"
tab_name medium = "medium"
tab_name advanced = "advanced"
tab_name complete = "complete"

-- Whether the header shows a control as switched on, or as the one that is chosen.
unfoldable pub is_on : Control → ScopeStore → Bool
is_on flicker_toggle s = s.anti_flicker
is_on pause_toggle s = s.is_paused
is_on (rate_option r) s = s.refresh_rate == rate_name r
is_on (range_button tr) s = s.time_range == tr
is_on (theme_option t) s = theme_name s.theme == theme_name t
is_on (tab_button t) s = tab_name s.active_tab == tab_name t
is_on (help_button id) s = false
