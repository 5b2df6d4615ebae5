-- ===== src/Examples/SessionRuns.antt =====
-- Sessions: the connection opens, the backend speaks, the user acts, the page is unmounted.
use drishtiscope_oss.Common.{ℕ, ◌≡◌, refl, String, Option, none, some, false, get_elem?, last}
use drishtiscope_oss.Protocol.{WsMessage, connected, connecting}
use drishtiscope_oss.Client.{
  System, open_now, closing, closed, connect, on_open, on_message, on_close, fresh, disconnect,
}
use drishtiscope_oss.Client.Env.{turn, opens, delivers, closes}
use drishtiscope_oss.Dashboard.{shows_connecting}
use drishtiscope_oss.Store
use drishtiscope_oss.Store.{create}
use drishtiscope_oss.Store.Actions.{Action, step}
use drishtiscope_oss.Store.Types.{manual}
use drishtiscope_oss.App
use drishtiscope_oss.App.{sync_rate, on_fetched}
use drishtiscope_oss.Session.{
  Session, heard, mount, unmount, is_users, act, browses, answers, Steps, here, next,
}
use drishtiscope_oss.Session.Shown.{connection_shown}
use drishtiscope_oss.Session.Parting.{SameTelemetry, unmounted-SameTelemetry}
use drishtiscope_oss.Session.Manual.{keeps_rate, IsManual, Steps-IsManual}
use drishtiscope_oss.Session.Waiting.{Exists, never_waits_again}
use drishtiscope_oss.Examples.Samples.{a_snapshot, read_at, snapshot_message, empty_browser}

-- A decoder that knows one snapshot.
abbrev parse_one : String → Option WsMessage
parse_one String.[] = none
parse_one (String.◌∷◌ c s) = some (snapshot_message 4)

abbrev before : Session
before = mount empty_browser

abbrev opened : System
opened = on_open (turn 0 open_now (connect fresh))

abbrev online : Session
online = record before {
  client = opened;
  app = heard (read_at 0) (connect fresh) opened before.app;
}

to_online : Steps parse_one is_users before online
unfolding mount connect
to_online = next here (browses before (read_at 0) opened (opens (connect fresh) 0 refl))

abbrev fed : Session
fed = record online {
  app = on_fetched 500 (some (snapshot_message 3)) online.app;
  fetching = false;
}

to_fed : Steps parse_one is_users before fed
unfolding mount
to_fed = next to_online (answers online 500 (some (snapshot_message 3)) refl)

abbrev by_hand : Session
by_hand = record fed { app = sync_rate (act (Action.set_refresh_rate manual) fed.app) }

abbrev told : System
told = on_message parse_one "{}" opened

-- A snapshot that comes in the manual mode.
abbrev deaf : Session
deaf = record by_hand { client = told; app = heard (read_at 9000) opened told by_hand.app }

to_deaf : Steps parse_one keeps_rate by_hand deaf
unfolding mount on_open connect
to_deaf = next here (browses by_hand (read_at 9000) told (delivers opened 0 "{}" refl))

deaf_test :
    (online.app.page.0.connection ≡ connected)
    × (before.app.page.0.connection ≡ connecting)
    × (fed.app.page.0.snapshot ≡ some (a_snapshot 3))
    × (deaf.app.page.0.snapshot ≡ some (a_snapshot 3))
unfolding mount heard on_open connect on_fetched Store.set_snapshot create sync_rate step on_message
    App.on_message Store.set_refresh_rate App.on_snapshot
deaf_test = (refl, refl, refl, refl)

connection_shown_example :
    (last opened.statuses ≡ some online.app.page.0.connection)
    × ((i : ℕ)
        → get_elem? opened.sockets i ≡ some open_now
        → (online.app.page.0.connection ≡ connected)
          × (shows_connecting online.app.page.0.snapshot online.app.page.0.connection ≡ false))
connection_shown_example = connection_shown empty_browser to_online

Steps-IsManual_example : (deaf.fetching ≡ false) × IsManual by_hand.app deaf.app
unfolding sync_rate step Store.set_refresh_rate
Steps-IsManual_example = Steps-IsManual refl refl refl to_deaf

never_waits_again_example :
    Exists deaf.app.page.0.snapshot
    × (shows_connecting deaf.app.page.0.snapshot deaf.app.page.0.connection ≡ false)
unfolding mount heard on_open connect on_fetched Store.set_snapshot create sync_rate step
    Store.set_refresh_rate
never_waits_again_example = never_waits_again to_deaf tt

abbrev left : System
left = on_close (turn 0 closed (disconnect opened))

abbrev gone : Session
gone = record (unmount fed) {
  client = left;
  app = heard (read_at 9000) (disconnect opened) left fed.app;
}

to_gone : Steps parse_one is_users (unmount fed) gone
unfolding mount unmount disconnect on_open connect
to_gone =
    next here
      (browses (unmount fed) (read_at 9000) left (closes (disconnect opened) 0 closing refl (cc)))

unmounted-SameTelemetry_example :
    (gone.fetching ≡ false) × SameTelemetry fed.app.page.0 gone.app.page.0
unfolding mount on_open connect
unmounted-SameTelemetry_example = unmounted-SameTelemetry empty_browser to_fed refl refl to_gone
