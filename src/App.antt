-- ===== src/App.antt =====
-- frontend/src/App.tsx: what the application does with each message of the WebSocket and with the
-- first snapshot that it fetches. Its two refs and the store with its browser are the state; the
-- clock readings of `Date.now()` are arguments: setSnapshot takes one of its own.
pub mod Number
pub mod Throttle
pub mod Sessions
use drishtiscope_oss.Common.{ℕ, String, Option, none, some, Bool, true, false, ◌==◌, if◌then◌else◌}
use drishtiscope_oss.Common.Int.{ℤ, pos, difference_at_least}
use drishtiscope_oss.Protocol.{
  WsMessage, Payload, Kind, hello, snapshot, event, heartbeat, error, Mode, Snapshot,
}
use drishtiscope_oss.Store
use drishtiscope_oss.Store.Types.{ScopeStore}
use drishtiscope_oss.Store.Actions.{Page}
use Number.{parse_int}

-- The clock readings of a snapshot: the handler's, and the one that setSnapshot takes after it.
pub record Readings : Type 0 where
  pub arrived : ℕ
  pub stored : ℕ

pub record App : Type 0 where
  pub page : Page
  pub last_update : ℕ  -- `lastUpdateRef.current`
  pub refresh_rate : String  -- `refreshRateRef.current`

-- The state when the component is mounted over a store.
abbrev pub mounted : Page → App
mounted page = record { page = page; last_update = 0; refresh_rate = page.0.refresh_rate }

-- The effect that runs when the store's refresh rate changed.
unfoldable pub sync_rate : App → App
sync_rate app = record app { refresh_rate = app.page.0.refresh_rate }

abbrev pub update_store : (ScopeStore → ScopeStore) → App → App
update_store f app = record app { page = (f app.page.0, app.page.1) }

-- `parseInt(rate, 10) || 2000`: not a number and 0 are falsy.
abbrev pub int_or_2000 : Option ℤ → ℤ
int_or_2000 none = pos 2000
int_or_2000 (some (pos ℕ.zero)) = pos 2000
int_or_2000 (some z) = z

unfoldable pub min_interval : String → ℤ
unfolding parse_int
min_interval rate = int_or_2000 (parse_int rate)

unfoldable pub on_snapshot : Readings → Snapshot → App → App
on_snapshot now s app =
    if app.refresh_rate == "manual"
    then app
    else if difference_at_least now.arrived app.last_update (min_interval app.refresh_rate)
    then update_store (Store.set_snapshot now.stored s) (record app { last_update = now.arrived })
    else app

-- The `switch` on the kind of the message.
unfoldable pub handle : (k : Kind) → Payload k → Readings → App → App
handle hello h now app = update_store (Store.set_hello h) app
handle snapshot s now app = on_snapshot now s app
handle event e now app = update_store (Store.add_event e) app
handle heartbeat _ now app = app
handle error _ now app = app

abbrev pub with_mode : Option Mode → App → App
with_mode none app = app
with_mode (some m) app = update_store (Store.set_mode (some m)) app

unfoldable pub on_message : Readings → WsMessage → App → App
unfolding handle
on_message now msg app = handle msg.kind msg.payload now (with_mode msg.mode app)

abbrev pub fetched : (k : Kind) → Payload k → Option Mode → ℕ → App → App
fetched snapshot s mode now app = with_mode mode (update_store (Store.set_snapshot now s) app)
fetched _ _ mode now app = app

-- The answer to `fetch('/api/snapshot')`: `none` where it failed or was not ok.
unfoldable pub on_fetched : ℕ → Option WsMessage → App → App
on_fetched now none app = app
on_fetched now (some data') app = fetched data'.kind data'.payload data'.mode now app
