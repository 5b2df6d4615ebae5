-- ===== src/Session/Waiting.antt =====
-- The screen that says that the page is connecting.
use drishtiscope_oss.Common.{
  ℕ, ◌≡◌, refl, String, Option, none, some, Bool, false, List, [], ◌∷◌, length, drop, arith,
}
use drishtiscope_oss.Protocol.{
  WsMessage, Snapshot, Payload, Kind, hello, snapshot, event, heartbeat, error, Mode,
  ConnectionStatus,
}
use drishtiscope_oss.Dashboard.{shows_connecting}
use drishtiscope_oss.Store
use drishtiscope_oss.Store.Actions.{Action, step}
use drishtiscope_oss.App.{
  App, Readings, sync_rate, update_store, with_mode, handle, on_snapshot, on_message, on_fetched,
  fetched,
}
use drishtiscope_oss.Session.{
  Session, hear_statuses, hear_messages, heard, act, Step, browses, acts, renders, answers, Steps,
  here, next,
}

abbrev pub Exists : Option Snapshot → Type 0
Exists none = ⊥
Exists (some s) = Unit

abbrev HasSnapshot : App → Type 0
HasSnapshot app = Exists app.page.0.snapshot

act-HasSnapshot : (a : Action) (app : App) → HasSnapshot app → HasSnapshot (act a app)
unfolding step Store.set_refresh_rate Store.toggle_anti_flicker Store.set_theme Store.toggle_theme
    Store.add_scratch_graph Store.remove_scratch_graph Store.reset_scratch_graphs Store.set_snapshot
    Store.add_event
act-HasSnapshot (Action.set_snapshot now x) app h = ground arith
act-HasSnapshot (Action.add_event e) app h = ground arith
act-HasSnapshot _ app h = h

on_snapshot-HasSnapshot :
    (now : Readings) (x : Snapshot) (app : App)
    → HasSnapshot app
    → HasSnapshot (on_snapshot now x app)
unfolding on_snapshot Store.set_snapshot
on_snapshot-HasSnapshot now x app h = ground arith

handle-HasSnapshot :
    (k : Kind) (p : Payload k) (now : Readings) (app : App)
    → HasSnapshot app
    → HasSnapshot (handle k p now app)
unfolding handle Store.add_event
handle-HasSnapshot hello p now app h = h
handle-HasSnapshot snapshot p now app h = on_snapshot-HasSnapshot now p app h
handle-HasSnapshot event p now app h = ground arith
handle-HasSnapshot heartbeat p now app h = h
handle-HasSnapshot error p now app h = h

with_mode-HasSnapshot :
    (m : Option Mode) (app : App) → HasSnapshot app → HasSnapshot (with_mode m app)
with_mode-HasSnapshot none app h = h
with_mode-HasSnapshot (some m) app h = h

hear_messages-HasSnapshot :
    (now : Readings) (msgs : List WsMessage) (app : App)
    → HasSnapshot app
    → HasSnapshot (hear_messages now msgs app)
unfolding hear_messages on_message
hear_messages-HasSnapshot now [] app h = h
hear_messages-HasSnapshot now (msg ∷ msgs) app h =
    hear_messages-HasSnapshot now msgs (on_message now msg app) (
      handle-HasSnapshot msg.kind msg.payload now (with_mode msg.mode app)
        (with_mode-HasSnapshot msg.mode app h))

hear_statuses-HasSnapshot :
    (cs : List ConnectionStatus) (app : App) → HasSnapshot app → HasSnapshot (hear_statuses cs app)
unfolding hear_statuses
hear_statuses-HasSnapshot [] app h = h
hear_statuses-HasSnapshot (c ∷ cs) app h =
    hear_statuses-HasSnapshot cs (update_store (Store.set_connection c) app) h

fetched-HasSnapshot :
    (k : Kind) (p : Payload k) (m : Option Mode) (now : ℕ) (app : App)
    → HasSnapshot app
    → HasSnapshot (fetched k p m now app)
unfolding Store.set_snapshot
fetched-HasSnapshot hello p m now app h = h
fetched-HasSnapshot snapshot p m now app h = ground arith
fetched-HasSnapshot event p m now app h = h
fetched-HasSnapshot heartbeat p m now app h = h
fetched-HasSnapshot error p m now app h = h

on_fetched-HasSnapshot :
    (now : ℕ) (answer : Option WsMessage) (app : App)
    → HasSnapshot app
    → HasSnapshot (on_fetched now answer app)
unfolding on_fetched
on_fetched-HasSnapshot now none app h = h
on_fetched-HasSnapshot now (some msg) app h =
    fetched-HasSnapshot msg.kind msg.payload msg.mode now app h

not_connecting :
    (o : Option Snapshot) (c : ConnectionStatus) → Exists o → shows_connecting o c ≡ false
not_connecting none c h = absurd h
not_connecting (some s) c h = refl

module _ {parse : String → Option WsMessage} {can : Action → Bool} where
  Step-HasSnapshot : {s t : Session} → Step parse can s t → HasSnapshot s.app → HasSnapshot t.app
  unfolding heard sync_rate
  Step-HasSnapshot (browses s now t e) h =
      hear_messages-HasSnapshot now (drop (length s.client.received) t.received)
        (hear_statuses (drop (length s.client.statuses) t.statuses) s.app)
        (hear_statuses-HasSnapshot (drop (length s.client.statuses) t.statuses) s.app h)
  Step-HasSnapshot (acts s a u) h = act-HasSnapshot a s.app h
  Step-HasSnapshot (renders s) h = h
  Step-HasSnapshot (answers s now answer p) h = on_fetched-HasSnapshot now answer s.app h

  Steps-HasSnapshot : {s t : Session} → Steps parse can s t → HasSnapshot s.app → HasSnapshot t.app
  Steps-HasSnapshot here h = h
  Steps-HasSnapshot (next r st) h = Step-HasSnapshot st (Steps-HasSnapshot r h)

  -- Once the store has a snapshot, it has one at every later step of a session, and the page never
  -- again shows that it is connecting, whatever happens to the connection.
  pub never_waits_again :
      {s t : Session}
      → Steps parse can s t
      → Exists s.app.page.0.snapshot
      → Exists t.app.page.0.snapshot
        × (shows_connecting t.app.page.0.snapshot t.app.page.0.connection ≡ false)
  never_waits_again {t = t} r h =
      let k = Steps-HasSnapshot r h in
      (k, not_connecting t.app.page.0.snapshot t.app.page.0.connection k)
