-- ===== src/Session/Parting.antt =====
-- What a page that was unmounted still hears.
use drishtiscope_oss.Common.{
  ◌≡◌, refl, sym, ◌∙◌, String, Option, true, false, List, [], ◌∷◌, length, drop,
}
use drishtiscope_oss.Protocol.{WsMessage, ConnectionStatus}
use drishtiscope_oss.Browser.{Browser}
use drishtiscope_oss.Client.{System}
use drishtiscope_oss.Client.Env.{Envs}
use drishtiscope_oss.Client.Quiet.{IsStill, disconnect_is_final}
use drishtiscope_oss.Store
use drishtiscope_oss.Store.Types.{ScopeStore}
use drishtiscope_oss.Store.Actions.{Action, step}
use drishtiscope_oss.App.{App, Readings, sync_rate, update_store}
use drishtiscope_oss.Session.{
  Session, hear_statuses, hear_messages, heard, mount, unmount, is_users, act, browses, acts,
  renders, answers, Steps, here, next,
}
use drishtiscope_oss.Session.Shown.{drop_all, Steps-Envs}

-- What the backend sent is the same in both.
abbrev pub SameTelemetry : ScopeStore → ScopeStore → Type 0
SameTelemetry s t =
    (t.snapshot ≡ s.snapshot) × (t.events ≡ s.events) × (t.hello ≡ s.hello) × (t.mode ≡ s.mode)

act-SameTelemetry :
    (a : Action) (s : ScopeStore) (app : App)
    → is_users a ≡ true
    → SameTelemetry s app.page.0
    → SameTelemetry s (act a app).page.0
unfolding step Store.set_refresh_rate Store.toggle_anti_flicker Store.set_theme Store.toggle_theme
    Store.add_scratch_graph Store.remove_scratch_graph Store.reset_scratch_graphs
act-SameTelemetry (Action.set_snapshot now x) s app h k = cc
act-SameTelemetry (Action.add_event e) s app h k = cc
act-SameTelemetry (Action.set_mode m) s app h k = cc
act-SameTelemetry (Action.set_hello x) s app h k = cc
act-SameTelemetry _ s app h k = k

hear_statuses-SameTelemetry :
    (cs : List ConnectionStatus) (s : ScopeStore) (app : App)
    → SameTelemetry s app.page.0
    → SameTelemetry s (hear_statuses cs app).page.0
unfolding hear_statuses
hear_statuses-SameTelemetry [] s app h = h
hear_statuses-SameTelemetry (c ∷ cs) s app h =
    hear_statuses-SameTelemetry cs s (update_store (Store.set_connection c) app) h

-- A client that hands nothing on changes only the connection.
heard-SameTelemetry :
    (now : Readings) (u t : System) (s : ScopeStore) (app : App)
    → t.received ≡ u.received
    → SameTelemetry s app.page.0
    → SameTelemetry s (heard now u t app).page.0
unfolding heard hear_messages
heard-SameTelemetry now u t s app e h =
    rw (e, drop_all u.received)
      (hear_statuses-SameTelemetry (drop (length u.statuses) t.statuses) s app h)

module _ {parse : String → Option WsMessage} (b : Browser) {s : Session} where
  quiet_after :
      {t : Session}
      → Steps parse is_users (mount b) s
      → s.client.timers ≡ []
      → Steps parse is_users (unmount s) t
      → IsStill s.client t.client
  unfolding mount unmount
  quiet_after {t = t} r e q =
      disconnect_is_final parse s.client t.client (Steps-Envs r Envs.here) e
        (Steps-Envs q Envs.here)

  -- After the page is unmounted at a time when no reconnection timer is pending and the first snapshot
  -- has come, no step of the browser or the user changes the snapshot, the events, the greeting or the
  -- mode of the store.
  pub unmounted-SameTelemetry :
      {t : Session}
      → Steps parse is_users (mount b) s
      → s.client.timers ≡ []
      → s.fetching ≡ false
      → Steps parse is_users (unmount s) t
      → (t.fetching ≡ false) × SameTelemetry s.app.page.0 t.app.page.0
  unfolding unmount sync_rate
  unmounted-SameTelemetry r e f here = (f, (refl, refl, refl, refl))
  unmounted-SameTelemetry r e f (next q (browses u now t v)) =
      let ih = unmounted-SameTelemetry r e f q in
      let same =
        (quiet_after r e (next q (browses u now t v))).same_received
        ∙ sym (quiet_after r e q).same_received in
      (ih.0, heard-SameTelemetry now u.client t s.app.page.0 u.app same ih.1)
  unmounted-SameTelemetry r e f (next q (acts u a h)) =
      (let ih = unmounted-SameTelemetry r e f q in
        (ih.0, act-SameTelemetry a s.app.page.0 u.app h ih.1))
  unmounted-SameTelemetry r e f (next q (renders u)) = unmounted-SameTelemetry r e f q
  unmounted-SameTelemetry r e f (next q (answers u now answer p)) =
      absurd (cc (p, (unmounted-SameTelemetry r e f q).0))
