-- ===== src/Session/Manual.antt =====
-- The refresh rate "manual", and a snapshot that has come.
use drishtiscope_oss.Common.{
  ◌≡◌, refl, String, Option, Bool, true, false, List, [], ◌∷◌, length, drop, arith,
}
use drishtiscope_oss.Protocol.{
  WsMessage, Snapshot, Payload, Kind, hello, snapshot, event, heartbeat, error, Mode,
  ConnectionStatus,
}
use drishtiscope_oss.Store
use drishtiscope_oss.Store.Actions.{Action, step}
use drishtiscope_oss.App.{
  App, Readings, sync_rate, update_store, with_mode, handle, on_snapshot, on_message,
}
use drishtiscope_oss.Session.{
  Session, hear_statuses, hear_messages, heard, is_users, act, browses, acts, renders, answers,
  Steps, here, next,
}

-- What the user may do without choosing another refresh rate.
abbrev pub keeps_rate : Action → Bool
keeps_rate (Action.set_refresh_rate r) = false
keeps_rate a = is_users a

-- The page is in the manual mode and has the snapshot of s.
pub record IsManual (s : App) (t : App) : Type 0 where
  pub current : t.refresh_rate ≡ "manual"
  pub stored : t.page.0.refresh_rate ≡ "manual"
  pub same : t.page.0.snapshot ≡ s.page.0.snapshot
  pub same_time : t.page.0.last_snapshot_at ≡ s.page.0.last_snapshot_at

module _ (s : App) where
  act-IsManual :
      (a : Action) (app : App) → keeps_rate a ≡ true → IsManual s app → IsManual s (act a app)
  unfolding step Store.toggle_anti_flicker Store.set_theme Store.toggle_theme
      Store.add_scratch_graph Store.remove_scratch_graph Store.reset_scratch_graphs
  act-IsManual (Action.set_refresh_rate r) app h v = cc
  act-IsManual (Action.set_snapshot now x) app h v = cc
  act-IsManual (Action.add_event e) app h v = cc
  act-IsManual _ app h v = record {
    current = v.current;
    stored = v.stored;
    same = v.same;
    same_time = v.same_time;
  }

  on_snapshot_manual :
      (now : Readings) (x : Snapshot) (app : App)
      → app.refresh_rate ≡ "manual"
      → on_snapshot now x app ≡ app
  unfolding on_snapshot
  on_snapshot_manual now x app h = rw h refl

  handle-IsManual :
      (k : Kind) (p : Payload k) (now : Readings) (app : App)
      → IsManual s app
      → IsManual s (handle k p now app)
  unfolding handle Store.add_event
  handle-IsManual hello p now app v = record {
    current = v.current;
    stored = v.stored;
    same = v.same;
    same_time = v.same_time;
  }
  handle-IsManual snapshot p now app v = rw (on_snapshot_manual now p app v.current) v
  handle-IsManual event p now app v = ground arith
  handle-IsManual heartbeat p now app v = v
  handle-IsManual error p now app v = v

  with_mode-IsManual : (m : Option Mode) (app : App) → IsManual s app → IsManual s (with_mode m app)
  with_mode-IsManual m app v = ground arith

  hear_messages-IsManual :
      (now : Readings) (msgs : List WsMessage) (app : App)
      → IsManual s app
      → IsManual s (hear_messages now msgs app)
  unfolding hear_messages on_message
  hear_messages-IsManual now [] app v = v
  hear_messages-IsManual now (msg ∷ msgs) app v =
      hear_messages-IsManual now msgs (on_message now msg app) (
        handle-IsManual msg.kind msg.payload now (with_mode msg.mode app)
          (with_mode-IsManual msg.mode app v))

  hear_statuses-IsManual :
      (cs : List ConnectionStatus) (app : App) → IsManual s app → IsManual s (hear_statuses cs app)
  unfolding hear_statuses
  hear_statuses-IsManual [] app v = v
  hear_statuses-IsManual (c ∷ cs) app v =
      hear_statuses-IsManual cs (update_store (Store.set_connection c) app)
        (record { current = v.current; stored = v.stored; same = v.same; same_time = v.same_time })

-- While the refresh rate is manual, in the store and in the handler, and the first snapshot has
-- come, no message and nothing that the user does but choosing another rate changes the snapshot or its time.
pub Steps-IsManual :
    {parse : String → Option WsMessage} {s t : Session}
    → s.app.refresh_rate ≡ "manual"
    → s.app.page.0.refresh_rate ≡ "manual"
    → s.fetching ≡ false
    → Steps parse keeps_rate s t
    → (t.fetching ≡ false) × IsManual s.app t.app
unfolding heard sync_rate
Steps-IsManual h k f here = (f, record { current = h; stored = k; same = refl; same_time = refl })
Steps-IsManual {s = s} h k f (next q (browses u now t v)) =
    let (g, ih) = Steps-IsManual h k f q in
    (
      g,
      hear_messages-IsManual s.app now (drop (length u.client.received) t.received)
          (hear_statuses (drop (length u.client.statuses) t.statuses) u.app)
          (hear_statuses-IsManual s.app (drop (length u.client.statuses) t.statuses) u.app ih),
    )
Steps-IsManual {s = s} h k f (next q (acts u a p)) =
    let (g, ih) = Steps-IsManual h k f q in (g, act-IsManual s.app a u.app p ih)
Steps-IsManual h k f (next q (renders u)) =
    let (g, ih) = Steps-IsManual h k f q in
    (
      g,
      record { current = ih.stored; stored = ih.stored; same = ih.same; same_time = ih.same_time },
    )
Steps-IsManual h k f (next q (answers u now answer p)) =
    let (g, ih) = Steps-IsManual h k f q in absurd (cc (g, p))
