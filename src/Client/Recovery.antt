-- ===== src/Client/Recovery.antt =====
-- The client can always get back: from any state that the browser's events lead to, some events
-- lead to an open socket. And the status it reported last is `connected` while a socket is open.
use drishtiscope_oss.Common.{
  ℕ, zero, suc, ◌≤◌, ◌≡◌, ◌≢◌, inl, inr, refl, sym, ap, ◌∙◌, String, Option, none, some, false,
  List, [], ◌∷◌, get_elem?, set, length, last, last-append, arith, get_elem?-append_end,
  get_elem?-append_one, get_elem?-set_self,
}
use drishtiscope_oss.Protocol.{WsMessage, connected}
use drishtiscope_oss.Client.{
  SocketState, opening, open_now, closing, closed, System, fresh, connect, on_open, on_message,
  on_close, on_error, close_at, close_ws, schedule_reconnect, delay_after,
}
use drishtiscope_oss.Client.Env.{
  remove_at, turn, Env, opens, delivers, fails, closes, fires, Envs, here, next,
}
use drishtiscope_oss.Client.Lifeline.{
  live, live-set, weight_of_ne, length-remove_at, on_close_wanted, HasLifeline, connect-HasLifeline,
  Envs-HasLifeline,
}

abbrev pub IsOnline : System → Type 0
IsOnline s = (i : ℕ) × (get_elem? s.sockets i ≡ some open_now)

IsOnline-on_open :
    (s : System) (i : ℕ) (u : SocketState)
    → get_elem? s.sockets i ≡ some u
    → IsOnline (on_open (turn i open_now s))
unfolding on_open
IsOnline-on_open s i u h = (i, get_elem?-set_self s.sockets i open_now h)

find_live :
    (xs : List SocketState)
    → 1 ≤ live xs
    → (i : ℕ) × (u : SocketState) × (get_elem? xs i ≡ some u) × (u ≢ closed)
find_live [] h = absurd (omega arith)
find_live (closed ∷ xs) h = let (i, u, e, k) = find_live xs (omega arith) in (suc i, u, e, k)
find_live (opening ∷ xs) h = (0, opening, refl, cc)
find_live (open_now ∷ xs) h = (0, open_now, refl, cc)
find_live (closing ∷ xs) h = (0, closing, refl, cc)

first_timer : (ts : List ℕ) → 1 ≤ length ts → (d : ℕ) × (get_elem? ts 0 ≡ some d)
first_timer [] h = absurd (omega arith)
first_timer (d ∷ ts) h = (d, refl)

module _ (parse : String → Option WsMessage) where
  abbrev pub Recovers : System → Type 0
  Recovers s = (t : System) × Envs parse s t × IsOnline t

  -- A pending timer leads back to an open socket.
  pub timer-Recovers : (s : System) (k d : ℕ) → get_elem? s.timers k ≡ some d → Recovers s
  unfolding connect
  timer-Recovers s k d h =
      let s' = connect (record s { timers = remove_at k s.timers }) in
      let i = length s.sockets in
      let new = get_elem?-append_end s.sockets opening in
      (
        on_open (turn i open_now s'),
        next (next here (fires s k d h)) (opens s' i new),
        IsOnline-on_open s' i opening new,
      )

  Envs-append : {s t u : System} → Envs parse s t → Envs parse t u → Envs parse s u
  Envs-append r here = r
  Envs-append r (next q e) = next (Envs-append r q) e

  closing-Recovers :
      (s : System) (i : ℕ)
      → s.client.intentional_disconnect ≡ false
      → get_elem? s.sockets i ≡ some closing
      → Recovers s
  unfolding schedule_reconnect
  closing-Recovers s i w h =
      let s' = turn i closed s in
      let (t, r, o) =
        timer-Recovers (schedule_reconnect s') (length s.timers)
          (delay_after s.client.reconnect_attempts) (get_elem?-append_end s.timers _) in
      let e : Env parse s (on_close s') = closes s i closing h (cc) in
      (t, Envs-append (next here (rw (on_close_wanted s' w) at e)) r, o)

  live-Recovers :
      (s : System) (i : ℕ) (u : SocketState)
      → s.client.intentional_disconnect ≡ false
      → get_elem? s.sockets i ≡ some u
      → u ≢ closed
      → Recovers s
  live-Recovers s i opening w h k =
      (on_open (turn i open_now s), next here (opens s i h), IsOnline-on_open s i opening h)
  live-Recovers s i open_now w h k = (s, here, (i, h))
  live-Recovers s i closing w h k = closing-Recovers s i w h
  live-Recovers s i closed w h k = absurd (k refl)

  HasLifeline-Recovers : (s : System) → HasLifeline s → Recovers s
  HasLifeline-Recovers s v = go s.timers refl
    where
      go : (ts : List ℕ) → s.timers ≡ ts → Recovers s
      go [] e =
          let (i, u, h, k) = find_live s.sockets (omega (arith, v.one, ap length e)) in
          live-Recovers s i u v.wanted h k
      go (d ∷ ts) e = timer-Recovers s 0 d (ap (λ l. get_elem? l 0) e)

  -- From `connect` on, until `disconnect` is called, every state can reach an open socket.
  pub never_gives_up :
      (s : System) → Envs parse (connect fresh) s → (t : System) × Envs parse s t × IsOnline t
  never_gives_up s r = HasLifeline-Recovers s (Envs-HasLifeline r connect-HasLifeline)

abbrev pub SaysOnline : System → Type 0
SaysOnline s = (i : ℕ) → get_elem? s.sockets i ≡ some open_now → last s.statuses ≡ some connected

live_of_open : (xs : List SocketState) (i : ℕ) → get_elem? xs i ≡ some open_now → 1 ≤ live xs
live_of_open [] i h = cc
live_of_open (x ∷ xs) zero h = ground arith
live_of_open (x ∷ xs) (suc i) h = omega (arith, live_of_open xs i h)

open_before :
    (j : ℕ) (xs : List SocketState) (i : ℕ)
    → get_elem? (close_at j xs) i ≡ some open_now
    → get_elem? xs i ≡ some open_now
open_before j [] i h = h
open_before zero (x ∷ xs) zero h = ground arith
open_before zero (x ∷ xs) (suc i) h = h
open_before (suc j) (x ∷ xs) zero h = h
open_before (suc j) (x ∷ xs) (suc i) h = open_before j xs i h

open_before_ws :
    (o : Option ℕ) (xs : List SocketState) (i : ℕ)
    → get_elem? (close_ws o xs) i ≡ some open_now
    → get_elem? xs i ≡ some open_now
open_before_ws none xs i h = h
open_before_ws (some j) xs i h = open_before j xs i h

pub on_message_keeps :
    (parse : String → Option WsMessage) (text : String) (s : System)
    → ((on_message parse text s).sockets ≡ s.sockets)
      × ((on_message parse text s).statuses ≡ s.statuses)
unfolding on_message
on_message_keeps parse text s = ground arith

module _ {parse : String → Option WsMessage} where
  Env-SaysOnline : {s t : System} → Env parse s t → HasLifeline s → SaysOnline s → SaysOnline t
  unfolding on_open on_error connect schedule_reconnect
  Env-SaysOnline (opens s i h) v q = λ j o. last-append s.statuses connected
  Env-SaysOnline (delivers s i text h) v q =
      let (sockets, statuses) = on_message_keeps parse text s in
      λ j o. ap last statuses ∙ q j (ap (λ l. get_elem? l j) (sym sockets) ∙ o)
  Env-SaysOnline (fails s i u h k) v q = λ j o. q j (open_before_ws s.client.ws s.sockets j o)
  Env-SaysOnline (closes s i u h k) v q = rw (on_close_wanted (turn i closed s) v.wanted) λ j o.
      absurd (
        omega (
          arith,
          v.one,
          live-set s.sockets i u closed h,
          weight_of_ne u k,
          live_of_open (set s.sockets i closed) j o,
        ))
  Env-SaysOnline (fires s k d h) v q = λ j o.
      elim (get_elem?-append_one s.sockets opening open_now j o) [
        | inl e ↦ cc
        | inr o' ↦
            absurd
              (omega (arith, v.one, length-remove_at k s.timers d h, live_of_open s.sockets j o'))
      ]

  Envs-SaysOnline : {s : System} → Envs parse (connect fresh) s → SaysOnline s
  Envs-SaysOnline here = unfold connect in (λ i o. absurd (none_open i o))
    where
      none_open : (i : ℕ) → get_elem? (opening ∷ []) i ≡ some open_now → ⊥
      none_open zero o = cc
      none_open (suc i) o = cc
  Envs-SaysOnline (next r e) =
      Env-SaysOnline e (Envs-HasLifeline r connect-HasLifeline) (Envs-SaysOnline r)

  -- While a socket is open, the status that was reported last is `connected`.
  pub status_of_open :
      {s : System} (i : ℕ)
      → Envs parse (connect fresh) s
      → get_elem? s.sockets i ≡ some open_now
      → last s.statuses ≡ some connected
  status_of_open i r h = Envs-SaysOnline r i h
