-- ===== src/Session/Shown.antt =====
-- The connection that the page shows is the one that the client has.
use drishtiscope_oss.Common.{
  ℕ, ◌≡◌, refl, sym, ap, ◌∙◌, String, Option, none, some, Bool, Bool-cases, inl, inr, true, false,
  List, [], ◌∷◌, ◌++◌, get_elem?, length, drop, last, last-append, arith,
}
use mathlib.Core.List.{append_assoc, append-nil}
use drishtiscope_oss.Protocol.{
  WsMessage, Payload, Kind, hello, snapshot, event, heartbeat, error, Mode, Snapshot,
  ConnectionStatus, connected, offline,
}
use drishtiscope_oss.Browser.{Browser}
use drishtiscope_oss.Client.{
  System, open_now, closed, connect, on_open, on_message, on_close, on_error, schedule_reconnect,
}
use drishtiscope_oss.Client.Env.{turn, Env, opens, delivers, fails, closes, fires, Envs}
use drishtiscope_oss.Client.Recovery.{status_of_open, on_message_keeps}
use drishtiscope_oss.Store
use drishtiscope_oss.Store.{create}
use drishtiscope_oss.Store.Actions.{Action, step}
use drishtiscope_oss.App
use drishtiscope_oss.App.{
  App, Readings, update_store, with_mode, handle, sync_rate, on_fetched, fetched,
}
use drishtiscope_oss.Dashboard.{shows_connecting}
use drishtiscope_oss.Session.{
  Session, hear_statuses, hear_messages, heard, mount, is_users, act, Step, browses, acts, renders,
  answers, Steps, here, next,
}

-- `later` is `earlier` with more at its end.
abbrev pub Extends {ℓ} : {A : Type ℓ} → List A → List A → Type ℓ
Extends {A = A} earlier later = (more : List A) × (later ≡ earlier ++ more)

Extends-self {ℓ} : {A : Type ℓ} (xs : List A) → Extends xs xs
Extends-self xs = ([], sym (append-nil xs))

on_close-Extends : (s : System) → Extends s.statuses (on_close s).statuses
unfolding on_close schedule_reconnect
on_close-Extends s = elim (Bool-cases s.client.intentional_disconnect) [
  | inl e ↦ rw e (offline ∷ [], refl)
  | inr e ↦ rw e (Extends-self s.statuses)
]

pub drop_all {ℓ} : {A : Type ℓ} (xs : List A) → drop (length xs) xs ≡ []
drop_all [] = refl
drop_all (x ∷ xs) = drop_all xs

drop-extension {ℓ} : {A : Type ℓ} (xs ys : List A) → drop (length xs) (xs ++ ys) ≡ ys
drop-extension [] ys = refl
drop-extension (x ∷ xs) ys = drop-extension xs ys

hear_statuses-last :
    (more old : List ConnectionStatus) (app : App)
    → last old ≡ some app.page.0.connection
    → last (old ++ more) ≡ some (hear_statuses more app).page.0.connection
unfolding hear_statuses
hear_statuses-last [] old app h = rw append-nil h
hear_statuses-last (c ∷ cs) old app h =
    ap last (sym (append_assoc old (c ∷ []) cs))
    ∙ hear_statuses-last cs (old ++ c ∷ []) (update_store (Store.set_connection c) app)
        (last-append old c)

-- What the store has after it heard what the client has added to its reports.
hear-more :
    (more old later : List ConnectionStatus) (app : App)
    → later ≡ old ++ more
    → last old ≡ some app.page.0.connection
    → last later ≡ some (hear_statuses (drop (length old) later) app).page.0.connection
hear-more more old later app e h =
    rw (e, drop-extension old more) (hear_statuses-last more old app h)

handle_connection :
    (k : Kind) (p : Payload k) (now : Readings) (app : App)
    → (handle k p now app).page.0.connection ≡ app.page.0.connection
unfolding handle App.on_snapshot Store.add_event Store.set_snapshot
handle_connection hello p now app = refl
handle_connection snapshot p now app = ground arith
handle_connection event p now app = ground arith
handle_connection heartbeat p now app = refl
handle_connection error p now app = refl

with_mode_connection :
    (m : Option Mode) (app : App) → (with_mode m app).page.0.connection ≡ app.page.0.connection
with_mode_connection m app = ground arith

on_message_connection :
    (now : Readings) (msg : WsMessage) (app : App)
    → (App.on_message now msg app).page.0.connection ≡ app.page.0.connection
unfolding App.on_message
on_message_connection now msg app =
    handle_connection msg.kind msg.payload now (with_mode msg.mode app)
    ∙ with_mode_connection msg.mode app

hear_messages_connection :
    (now : Readings) (msgs : List WsMessage) (app : App)
    → (hear_messages now msgs app).page.0.connection ≡ app.page.0.connection
unfolding hear_messages
hear_messages_connection now [] app = refl
hear_messages_connection now (msg ∷ msgs) app =
    hear_messages_connection now msgs (App.on_message now msg app)
    ∙ on_message_connection now msg app

fetched_connection :
    (k : Kind) (p : Payload k) (m : Option Mode) (now : ℕ) (app : App)
    → (fetched k p m now app).page.0.connection ≡ app.page.0.connection
unfolding Store.set_snapshot
fetched_connection hello p m now app = refl
fetched_connection snapshot p m now app = ground arith
fetched_connection event p m now app = refl
fetched_connection heartbeat p m now app = refl
fetched_connection error p m now app = refl

on_fetched_connection :
    (now : ℕ) (answer : Option WsMessage) (app : App)
    → (on_fetched now answer app).page.0.connection ≡ app.page.0.connection
unfolding on_fetched
on_fetched_connection now none app = refl
on_fetched_connection now (some msg) app = fetched_connection msg.kind msg.payload msg.mode now app

act_connection :
    (a : Action) (app : App)
    → is_users a ≡ true
    → (act a app).page.0.connection ≡ app.page.0.connection
unfolding step Store.set_refresh_rate Store.toggle_anti_flicker Store.set_theme Store.toggle_theme
    Store.add_scratch_graph Store.remove_scratch_graph Store.reset_scratch_graphs
act_connection (Action.set_snapshot now s) app h = cc
act_connection (Action.add_event e) app h = cc
act_connection (Action.set_connection c) app h = cc
act_connection _ app h = refl

-- A socket that closes by itself is not heard of: the page shows that it is connected until the
-- reconnection timer fires.
closing_unheard :
    (s : System) (i : ℕ) (now : Readings) (app : App)
    → s.client.intentional_disconnect ≡ false
    → heard now s (on_close (turn i closed s)) app ≡ app
unfolding heard on_close schedule_reconnect hear_statuses hear_messages
closing_unheard s i now app h = rw (h, drop_all s.statuses, drop_all s.received) refl

abbrev Agrees : Session → Type 0
Agrees s = last s.client.statuses ≡ some s.app.page.0.connection

some_injective : {c d : ConnectionStatus} → some c ≡ some d → c ≡ d
some_injective e = cc

shows-connected : (o : Option Snapshot) → shows_connecting o connected ≡ false
shows-connected none = refl
shows-connected (some s) = refl

module _ {parse : String → Option WsMessage} where
  -- An event of the browser adds to what the client has reported and handed on.
  Env-Extends : {s t : System} → Env parse s t → Extends s.statuses t.statuses
  unfolding on_open on_message on_close on_error connect schedule_reconnect
  Env-Extends (opens s i h) = (connected ∷ [], refl)
  Env-Extends (delivers s i text h) = rw (on_message_keeps parse text s).1 (Extends-self s.statuses)
  Env-Extends (fails s i v h k) = Extends-self s.statuses
  Env-Extends (closes s i v h k) = on_close-Extends (turn i closed s)
  Env-Extends (fires s k d h) = (_ ∷ [], refl)

  Step-Agrees : {s t : Session} → Step parse is_users s t → Agrees s → Agrees t
  unfolding heard sync_rate
  Step-Agrees (browses s now t e) h =
      let (more, grown) = Env-Extends e in
      hear-more more s.client.statuses t.statuses s.app grown h
      ∙ ap some (
          sym (
            hear_messages_connection now (drop (length s.client.received) t.received)
              (hear_statuses (drop (length s.client.statuses) t.statuses) s.app)))
  Step-Agrees (acts s a u) h = h ∙ ap some (sym (act_connection a s.app u))
  Step-Agrees (renders s) h = h
  Step-Agrees (answers s now answer p) h =
      h ∙ ap some (sym (on_fetched_connection now answer s.app))

  Steps-Agrees : {s t : Session} → Steps parse is_users s t → Agrees s → Agrees t
  Steps-Agrees here h = h
  Steps-Agrees (next r st) h = Step-Agrees st (Steps-Agrees r h)

  -- The client's part of a session.
  Step-Envs :
      {can : Action → Bool} {c : System} {s t : Session}
      → Step parse can s t
      → Envs parse c s.client
      → Envs parse c t.client
  Step-Envs (browses s now t e) r = Envs.next r e
  Step-Envs (acts s a u) r = r
  Step-Envs (renders s) r = r
  Step-Envs (answers s now answer p) r = r

  pub Steps-Envs :
      {can : Action → Bool} {c : System} {s t : Session}
      → Steps parse can s t
      → Envs parse c s.client
      → Envs parse c t.client
  Steps-Envs here q = q
  Steps-Envs (next r st) q = Step-Envs st (Steps-Envs r q)

  -- From the mount on and until the page is unmounted, whatever the browser and the user do: the
  -- connection that the store has is the status that the client reported last; and while a socket is
  -- open it is `connected`, and the page does not show that it is connecting.
  pub connection_shown :
      (b : Browser) {s : Session}
      → Steps parse is_users (mount b) s
      → (last s.client.statuses ≡ some s.app.page.0.connection)
        × ((i : ℕ)
            → get_elem? s.client.sockets i ≡ some open_now
            → (s.app.page.0.connection ≡ connected)
              × (shows_connecting s.app.page.0.snapshot s.app.page.0.connection ≡ false))
  unfolding mount
  connection_shown b {s} r = (agrees, λ i o. opened i o)
    where
      agrees : Agrees s
      agrees = Steps-Agrees r (unfold hear_statuses hear_messages heard connect in refl)

      opened :
          (i : ℕ)
          → get_elem? s.client.sockets i ≡ some open_now
          → (s.app.page.0.connection ≡ connected)
            × (shows_connecting s.app.page.0.snapshot s.app.page.0.connection ≡ false)
      opened i o =
          let e = some_injective (sym agrees ∙ status_of_open i (Steps-Envs r Envs.here) o) in
          (e, rw e (shows-connected s.app.page.0.snapshot))
