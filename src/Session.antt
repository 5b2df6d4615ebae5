-- ===== src/Session.antt =====
-- A session of the page, from the effect of frontend/src/App.tsx that mounts it on: the WebSocket
-- client with its browser, the message handler and the store with what the user does to it, in any
-- interleaving. The second mount of `StrictMode`, which only a development build makes, is left out.
pub mod Shown
pub mod Parting
pub mod Manual
pub mod Waiting
use drishtiscope_oss.Common.{ℕ, ◌≡◌, String, Option, Bool, true, false, List, [], ◌∷◌, length, drop}
use drishtiscope_oss.Protocol.{WsMessage, ConnectionStatus}
use drishtiscope_oss.Browser.{Browser}
use drishtiscope_oss.Client.{System, fresh, connect, disconnect}
use drishtiscope_oss.Client.Env.{Env}
use drishtiscope_oss.Store.{create, set_connection}
use drishtiscope_oss.Store.Actions.{Action, step}
use drishtiscope_oss.App.{App, Readings, mounted, update_store, sync_rate, on_message, on_fetched}

pub record Session : Type 0 where
  pub client : System
  pub app : App
  pub fetching : Bool  -- whether the first snapshot is still to come

-- `(status) => setConnection(status)`, for each status that the client reported.
unfoldable pub hear_statuses : List ConnectionStatus → App → App
hear_statuses [] app = app
hear_statuses (c ∷ cs) app = hear_statuses cs (update_store (set_connection c) app)

-- `onMessage`, for each message that the client handed on.
unfoldable pub hear_messages : Readings → List WsMessage → App → App
hear_messages now [] app = app
hear_messages now (msg ∷ msgs) app = hear_messages now msgs (on_message now msg app)

-- What the page hears when the client goes from the state s to t. No callback of the client both
-- reports a status and hands a message on.
unfoldable pub heard : Readings → System → System → App → App
unfolding hear_statuses hear_messages
heard now s t app =
    let app' = hear_statuses (drop (length s.statuses) t.statuses) app in
    hear_messages now (drop (length s.received) t.received) app'

-- The mount: the first snapshot is asked for, the client is made and connects.
unfoldable pub mount : Browser → Session
unfolding heard
mount b = record {
  client = connect fresh;
  app = heard (record { arrived = 0; stored = 0 }) fresh (connect fresh) (mounted (create b));
  fetching = true;
}

-- The operations of the store that components call. `setSnapshot` stands in loadSnapshot of
-- Header.tsx too, which nothing calls.
abbrev pub is_users : Action → Bool
is_users (Action.set_snapshot now s) = false
is_users (Action.add_event e) = false
is_users (Action.set_connection c) = false
is_users (Action.set_mode m) = false
is_users (Action.set_hello h) = false
is_users _ = true

abbrev pub act : Action → App → App
act a app = record app { page = step a app.page }

-- `browses`: the browser sends the client an event, at a clock reading; `acts`: the user does something, of the kind `can`;
-- `renders`: the effect of the refresh rate runs; `answers`: the first snapshot comes, or fails.
pub data Step (parse : String → Option WsMessage) (can : Action → Bool)
    : Session → Session → Type 0 where
  browses :
      (s : Session) (now : Readings) (t : System)
      → Env parse s.client t
      → Step parse can s (record s { client = t; app = heard now s.client t s.app })
  acts :
      (s : Session) (a : Action) → can a ≡ true → Step parse can s (record s { app = act a s.app })
  renders : (s : Session) → Step parse can s (record s { app = sync_rate s.app })
  answers :
      (s : Session) (now : ℕ) (answer : Option WsMessage)
      → s.fetching ≡ true
      → Step parse can s (record s { app = on_fetched now answer s.app; fetching = false })

pub data Steps (parse : String → Option WsMessage) (can : Action → Bool) (s : Session)
    : Session → Type 0 where
  here : Steps parse can s s
  next : {t u : Session} → Steps parse can s t → Step parse can t u → Steps parse can s u

-- The cleanup of the effect.
unfoldable pub unmount : Session → Session
unmount s = record s { client = disconnect s.client }
