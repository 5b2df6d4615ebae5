-- ===== src/App/Sessions.antt =====
-- A run of messages: how many snapshots get through at each refresh rate, and that events always do.
use drishtiscope_oss.Common.{
  ℕ, ◌+◌, ◌*◌, ◌≤◌, ◌≡◌, ◌⊎◌, inl, inr, subst, leb, Bool-cases, refl, ◌∙◌, String, Option, none,
  some, List, [], ◌∷◌, arith, eq_iff, length, All,
}
use drishtiscope_oss.Protocol.{
  WsMessage, Payload, Kind, hello, snapshot, event, heartbeat, error, Mode, EventRow,
}
use drishtiscope_oss.Store
use drishtiscope_oss.Store.Types.{RefreshRate, rate_name}
use drishtiscope_oss.App.{App, Readings, on_snapshot, handle, with_mode, on_message}
use drishtiscope_oss.App.Throttle.{interval_ms, on_snapshot_timed}

-- A message with its clock readings.
abbrev pub Arrival : Type 0
Arrival = Readings × WsMessage

unfoldable pub feed : List Arrival → App → App
feed [] app = app
feed ((now, msg) ∷ msgs) app = feed msgs (on_message now msg app)

-- The snapshot that the store has, with its time, is the same.
abbrev pub SameSnapshot : App → App → Type 0
SameSnapshot a b =
    (b.page.0.snapshot ≡ a.page.0.snapshot)
    × (b.page.0.last_snapshot_at ≡ a.page.0.last_snapshot_at)

-- `ts` are readings of messages among which are all that changed the snapshot of the store.
pub data Changes : List Arrival → App → List ℕ → Type 0 where
  nothing : (app : App) → Changes [] app []
  kept :
      (now : Readings) (msg : WsMessage) (msgs : List Arrival) (app : App) (ts : List ℕ)
      → SameSnapshot app (on_message now msg app)
      → Changes msgs (on_message now msg app) ts
      → Changes ((now, msg) ∷ msgs) app ts
  changed :
      (now : Readings) (msg : WsMessage) (msgs : List Arrival) (app : App) (ts : List ℕ)
      → Changes msgs (on_message now msg app) ts
      → Changes ((now, msg) ∷ msgs) app (now.arrived ∷ ts)

-- Each reading is at least m later than the one before it, and the first than `last`.
abbrev pub Spaced : ℕ → ℕ → List ℕ → Type 0
Spaced m last [] = Unit
Spaced m last (t ∷ ts) = (last + m ≤ t) × Spaced m t ts

with_mode_keeps :
    (mode : Option Mode) (app : App)
    → ((with_mode mode app).refresh_rate ≡ app.refresh_rate)
      × ((with_mode mode app).last_update ≡ app.last_update)
      × ((with_mode mode app).page.0.snapshot ≡ app.page.0.snapshot)
with_mode_keeps mode app = ground arith

on_message_rate :
    (now : Readings) (msg : WsMessage) (app : App)
    → (on_message now msg app).refresh_rate ≡ app.refresh_rate
unfolding on_message
on_message_rate now msg app =
    go msg.kind msg.payload (with_mode msg.mode app) ∙ (with_mode_keeps msg.mode app).0
  where
    go : (k : Kind) (p : Payload k) (a : App) → (handle k p now a).refresh_rate ≡ a.refresh_rate
    go hello p a = refl
    go snapshot p a = unfold on_snapshot in ground arith
    go event p a = refl
    go heartbeat p a = refl
    go error p a = refl

module _ (r : RefreshRate) (m : ℕ) (timed : interval_ms r ≡ some m) where
  -- A message leaves the snapshot and the throttle's clock, or comes m after it and sets it.
  abbrev Throttled : Readings → App → App → Type 0
  Throttled now a b =
      (SameSnapshot a b × (b.last_update ≡ a.last_update))
      ⊎ ((a.last_update + m ≤ now.arrived) × (b.last_update ≡ now.arrived))

  handle-Throttled :
      (k : Kind) (p : Payload k) (now : Readings) (a : App)
      → a.refresh_rate ≡ rate_name r
      → Throttled now a (handle k p now a)
  unfolding handle Store.add_event
  handle-Throttled hello p now a e = inl ((refl, refl), refl)
  handle-Throttled snapshot p now a e =
      rw (on_snapshot_timed r m now p a timed e)
        (elim (Bool-cases (leb (a.last_update + m) now.arrived)) [
          | inl h ↦ rw h (inr (ground arith, refl))
          | inr h ↦ rw h (inl ((refl, refl), refl))
        ])
  handle-Throttled event p now a e = inl ((ground arith, ground arith), refl)
  handle-Throttled heartbeat p now a e = inl ((refl, refl), refl)
  handle-Throttled error p now a e = inl ((refl, refl), refl)

  on_message-Throttled :
      (now : Readings) (msg : WsMessage) (a : App)
      → a.refresh_rate ≡ rate_name r
      → Throttled now a (on_message now msg a)
  unfolding on_message
  on_message-Throttled now msg a e = go msg.mode
    where
      go :
          (mode : Option Mode)
          → Throttled now a (handle msg.kind msg.payload now (with_mode mode a))
      go none = handle-Throttled msg.kind msg.payload now a e
      go (some x) = handle-Throttled msg.kind msg.payload now (with_mode (some x) a) e

  -- Under a refresh rate of m milliseconds the messages that change the snapshot of the store arrive at
  -- clock readings that are at least m apart, and m after the last update before them, whatever messages
  -- arrive and whenever.
  pub Changes-Spaced :
      (msgs : List Arrival) (app : App)
      → app.refresh_rate ≡ rate_name r
      → (ts : List ℕ) × Changes msgs app ts × Spaced m app.last_update ts
  Changes-Spaced [] app e = ([], nothing app, tt)
  Changes-Spaced ((now, msg) ∷ msgs) app e =
      let (ts, c, s) =
        Changes-Spaced msgs (on_message now msg app) (on_message_rate now msg app ∙ e) in
      elim (on_message-Throttled now msg app e) [
        | inl (same, l) ↦ (ts, kept now msg msgs app ts same c, subst (λ t. Spaced m t ts) l s)
        | inr (late, l) ↦ (
          now.arrived ∷ ts,
          changed now msg msgs app ts c,
          (late, subst (λ t. Spaced m t ts) l s),
        )
      ]

  -- So at most (top - last) / m messages change it between the readings `last` and `top`.
  pub Spaced-length :
      (last top : ℕ) (ts : List ℕ)
      → last ≤ top
      → All (λ t. t ≤ top) ts
      → Spaced m last ts
      → length ts * m + last ≤ top
  Spaced-length last top [] h k s = omega arith
  Spaced-length last top (t ∷ ts) h (k, ks) (s, ss) =
      let ih = Spaced-length t top ts k ks ss in grind (arith, ih)

manual_step :
    (now : Readings) (msg : WsMessage) (a : App)
    → a.refresh_rate ≡ "manual"
    → ((on_message now msg a).page.0.snapshot ≡ a.page.0.snapshot)
      × ((on_message now msg a).last_update ≡ a.last_update)
unfolding on_message
manual_step now msg a e =
    let (rate, last, snap) = with_mode_keeps msg.mode a in
    let (s, l) = go msg.kind msg.payload (with_mode msg.mode a) (rate ∙ e) in (s ∙ snap, l ∙ last)
  where
    go :
        (k : Kind) (p : Payload k) (b : App)
        → b.refresh_rate ≡ "manual"
        → ((handle k p now b).page.0.snapshot ≡ b.page.0.snapshot)
          × ((handle k p now b).last_update ≡ b.last_update)
    go hello p b h = (refl, refl)
    go snapshot p b h = unfold on_snapshot in ground (arith, eq_iff b.refresh_rate "manual")
    go event p b h = unfold Store.add_event in ground arith
    go heartbeat p b h = (refl, refl)
    go error p b h = (refl, refl)

-- In manual mode no message changes the snapshot that is shown.
pub manual_ignores :
    (msgs : List Arrival) (app : App)
    → app.refresh_rate ≡ "manual"
    → (feed msgs app).page.0.snapshot ≡ app.page.0.snapshot
unfolding feed
manual_ignores [] app e = refl
manual_ignores ((now, msg) ∷ msgs) app e =
    manual_ignores msgs (on_message now msg app) (on_message_rate now msg app ∙ e)
    ∙ (manual_step now msg app e).0

-- An event reaches the store under every refresh rate, manual mode included.
pub event_always_added :
    (v : ℕ) (now : Readings) (ts : String) (mode : Option Mode) (e : EventRow) (app : App)
    → (on_message now
        (record { v = v; kind = event; ts = ts; mode = mode; payload = e })
        app).page.0.events
      ≡ (Store.add_event e app.page.0).events
unfolding on_message handle Store.add_event
event_always_added v now ts none e app = refl
event_always_added v now ts (some x) e app = ground arith
