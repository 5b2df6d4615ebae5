-- ===== src/Client/Quiet.antt =====
-- `disconnect` while a socket is the lifeline: the client goes quiet for good.
use drishtiscope_oss.Common.{
  ℕ, zero, suc, ◌≤◌, ◌≡◌, ◌⊎◌, ◌≢◌, inl, inr, refl, sym, ap, ◌∙◌, subst, String, Option, none, some,
  true, List, [], ◌∷◌, ◌++◌, get_elem?, set, length, arith,
}
use drishtiscope_oss.Protocol.{WsMessage, offline}
use drishtiscope_oss.Client.{
  SocketState, opening, open_now, closed, System, fresh, connect, disconnect, on_open, on_message,
  on_close, on_error, close_at, close_ws, schedule_reconnect, report,
}
use drishtiscope_oss.Client.Env.{turn, Env, opens, delivers, fails, closes, fires, Envs, here, next}
use drishtiscope_oss.Client.Lifeline.{
  live, live-set, weight_of_ne, length-remove_at, on_close_wanted, HasLifeline, connect-HasLifeline,
  Envs-HasLifeline,
}

-- A socket that is not closed is the one that the client holds.
abbrev pub IsOwned : System → Type 0
IsOwned s =
    (i : ℕ) (u : SocketState) → get_elem? s.sockets i ≡ some u → u ≢ closed → s.client.ws ≡ some i

live_of_ne :
    (xs : List SocketState) (i : ℕ) (u : SocketState)
    → get_elem? xs i ≡ some u
    → u ≢ closed
    → suc zero ≤ live xs
live_of_ne [] i u h k = cc
live_of_ne (x ∷ xs) zero u h k = ground arith
live_of_ne (x ∷ xs) (suc i) u h k = omega (arith, live_of_ne xs i u h k)

-- Where socket i goes from one live state to another, the live sockets are those of before.
live_before :
    (xs : List SocketState) (i j : ℕ) (u v w : SocketState)
    → get_elem? xs i ≡ some u
    → u ≢ closed
    → get_elem? (set xs i v) j ≡ some w
    → w ≢ closed
    → (w' : SocketState) × (get_elem? xs j ≡ some w') × (w' ≢ closed)
live_before [] i j u v w h k o n = cc
live_before (x ∷ xs) zero zero u v w h k o n = (u, h, k)
live_before (x ∷ xs) zero (suc j) u v w h k o n = (w, o, n)
live_before (x ∷ xs) (suc i) zero u v w h k o n = (w, o, n)
live_before (x ∷ xs) (suc i) (suc j) u v w h k o n = live_before xs i j u v w h k o n

live_before_close :
    (i : ℕ) (xs : List SocketState) (j : ℕ) (w : SocketState)
    → get_elem? (close_at i xs) j ≡ some w
    → w ≢ closed
    → (w' : SocketState) × (get_elem? xs j ≡ some w') × (w' ≢ closed)
live_before_close i [] j w o n = (w, o, n)
live_before_close zero (x ∷ xs) zero w o n = (x, refl, λ e. n (ground arith))
live_before_close zero (x ∷ xs) (suc j) w o n = (w, o, n)
live_before_close (suc i) (x ∷ xs) zero w o n = (w, o, n)
live_before_close (suc i) (x ∷ xs) (suc j) w o n = live_before_close i xs j w o n

live_before_ws :
    (o : Option ℕ) (xs : List SocketState) (j : ℕ) (w : SocketState)
    → get_elem? (close_ws o xs) j ≡ some w
    → w ≢ closed
    → (w' : SocketState) × (get_elem? xs j ≡ some w') × (w' ≢ closed)
live_before_ws none xs j w o n = (w, o, n)
live_before_ws (some i) xs j w o n = live_before_close i xs j w o n

-- An item of a list with one more at its end stands at the end, or was there before.
at_end :
    (xs : List SocketState) (x v : SocketState) (j : ℕ)
    → get_elem? (xs ++ x ∷ []) j ≡ some v
    → (j ≡ length xs) ⊎ (get_elem? xs j ≡ some v)
at_end [] x v zero h = inl refl
at_end [] x v (suc j) h = cc
at_end (y ∷ xs) x v zero h = inr h
at_end (y ∷ xs) x v (suc j) h = elim (at_end xs x v j h) [ inl e ↦ inl (ap suc e) | inr o ↦ inr o ]

connect-IsOwned : IsOwned (connect fresh)
unfolding connect
connect-IsOwned zero u h k = refl
connect-IsOwned (suc i) u h k = cc

module _ {parse : String → Option WsMessage} where
  Env-IsOwned : {s t : System} → Env parse s t → HasLifeline s → IsOwned s → IsOwned t
  unfolding on_open on_message on_error connect schedule_reconnect
  Env-IsOwned (opens s i h) v q = λ j w o n.
      let (w', o', n') = live_before s.sockets i j opening open_now w h (cc) o n in q j w' o' n'
  Env-IsOwned (delivers s i text h) v q = ground (arith, q)
  Env-IsOwned (fails s i u h k) v q =
      λ j w o n. let (w', o', n') = live_before_ws s.client.ws s.sockets j w o n in q j w' o' n'
  Env-IsOwned (closes s i u h k) v q = rw (on_close_wanted (turn i closed s) v.wanted) λ j w o n.
      absurd (
        omega (
          arith,
          v.one,
          live-set s.sockets i u closed h,
          weight_of_ne u k,
          live_of_ne (set s.sockets i closed) j w o n,
        ))
  Env-IsOwned (fires s k d h) v q = λ j w o n. elim (at_end s.sockets opening w j o) [
    | inl e ↦ ap some (sym e)
    | inr o' ↦
        absurd
          (omega (arith, v.one, length-remove_at k s.timers d h, live_of_ne s.sockets j w o' n))
  ]

  Envs-IsOwned : {s : System} → Envs parse (connect fresh) s → IsOwned s
  Envs-IsOwned here = connect-IsOwned
  Envs-IsOwned (next r e) = Env-IsOwned e (Envs-HasLifeline r connect-HasLifeline) (Envs-IsOwned r)

-- Nothing is open or opening, no timer is set, and nothing was handed on or connected since `s`.
pub record IsStill (s t : System) : Type 0 where
  pub unwanted : t.client.intentional_disconnect ≡ true
  pub dropped : t.client.ws ≡ none
  pub no_timer : t.timers ≡ []
  pub no_socket :
      (i : ℕ) → (get_elem? t.sockets i ≢ some opening) × (get_elem? t.sockets i ≢ some open_now)
  pub same_sockets : length t.sockets ≡ length s.sockets
  pub same_received : t.received ≡ s.received

length-close_at : (i : ℕ) (xs : List SocketState) → length (close_at i xs) ≡ length xs
length-close_at i [] = refl
length-close_at zero (x ∷ xs) = refl
length-close_at (suc i) (x ∷ xs) = ap suc (length-close_at i xs)

length-close_ws : (o : Option ℕ) (xs : List SocketState) → length (close_ws o xs) ≡ length xs
length-close_ws none xs = refl
length-close_ws (some i) xs = length-close_at i xs

length-set : (xs : List SocketState) (i : ℕ) (v : SocketState) → length (set xs i v) ≡ length xs
length-set [] i v = refl
length-set (x ∷ xs) zero v = refl
length-set (x ∷ xs) (suc i) v = ap suc (length-set xs i v)

-- Closing socket i leaves no socket open or opening, if it was the only one.
closed_up :
    (i : ℕ) (xs : List SocketState)
    → ((j : ℕ) (u : SocketState) → get_elem? xs j ≡ some u → u ≢ closed → j ≡ i)
    → (j : ℕ)
    → (get_elem? (close_at i xs) j ≢ some opening) × (get_elem? (close_at i xs) j ≢ some open_now)
closed_up i [] only j = (cc, cc)
closed_up zero (x ∷ xs) only zero = ground arith
closed_up zero (x ∷ xs) only (suc j) = (
  λ o. absurd (ground (arith, only (suc j) opening o)),
  λ o. absurd (ground (arith, only (suc j) open_now o)),
)
closed_up (suc i) (x ∷ xs) only zero = (
  λ o. absurd (ground (arith, only zero opening o)),
  λ o. absurd (ground (arith, only zero open_now o)),
)
closed_up (suc i) (x ∷ xs) only (suc j) =
    closed_up i xs (λ k u o n. ground (arith, only (suc k) u o n)) j

closed_up_ws :
    (o : Option ℕ) (xs : List SocketState)
    → ((j : ℕ) (u : SocketState) → get_elem? xs j ≡ some u → u ≢ closed → o ≡ some j)
    → (j : ℕ)
    → (get_elem? (close_ws o xs) j ≢ some opening) × (get_elem? (close_ws o xs) j ≢ some open_now)
closed_up_ws none xs only j = (
  λ o. absurd (ground (arith, only j opening o)),
  λ o. absurd (ground (arith, only j open_now o)),
)
closed_up_ws (some i) xs only j = closed_up i xs (λ k u o n. ground (arith, only k u o n)) j

disconnect-IsStill : (s : System) → IsOwned s → s.timers ≡ [] → IsStill s (disconnect s)
unfolding disconnect
disconnect-IsStill s q e = record {
  unwanted = refl;
  dropped = refl;
  no_timer = e;
  no_socket = closed_up_ws s.client.ws s.sockets q;
  same_sockets = length-close_ws s.client.ws s.sockets;
  same_received = refl;
}

still_set :
    (xs : List SocketState) (i : ℕ)
    → ((j : ℕ) → (get_elem? xs j ≢ some opening) × (get_elem? xs j ≢ some open_now))
    → (j : ℕ)
    → (get_elem? (set xs i closed) j ≢ some opening)
      × (get_elem? (set xs i closed) j ≢ some open_now)
still_set [] i h j = h j
still_set (x ∷ xs) zero h zero = (cc, cc)
still_set (x ∷ xs) zero h (suc j) = h (suc j)
still_set (x ∷ xs) (suc i) h zero = h zero
still_set (x ∷ xs) (suc i) h (suc j) = still_set xs i (λ k. h (suc k)) j

on_close_unwanted :
    (s : System) → s.client.intentional_disconnect ≡ true → on_close s ≡ report offline s
unfolding on_close
on_close_unwanted s h = rw h

module _ {parse : String → Option WsMessage} (s : System) where
  Env-IsStill : {t u : System} → Env parse t u → IsStill s t → IsStill s u
  unfolding on_error
  Env-IsStill (opens t i h) v = absurd ((v.no_socket i).0 h)
  Env-IsStill (delivers t i text h) v = absurd ((v.no_socket i).1 h)
  Env-IsStill (fails t i u h k) v =
      subst (λ o. IsStill s (record t { sockets = close_ws o t.sockets })) (sym v.dropped) v
  Env-IsStill (closes t i u h k) v = rw (on_close_unwanted (turn i closed t) v.unwanted) (record {
    unwanted = v.unwanted;
    dropped = v.dropped;
    no_timer = v.no_timer;
    no_socket = still_set t.sockets i v.no_socket;
    same_sockets = length-set t.sockets i closed ∙ v.same_sockets;
    same_received = v.same_received;
  })
  Env-IsStill (fires t k d h) v = absurd (no_item k (ap (λ l. get_elem? l k) (sym v.no_timer) ∙ h))
    where
      no_item : (k : ℕ) → get_elem? {A = ℕ} [] k ≡ some d → ⊥
      no_item k e = cc

  Envs-IsStill : {t u : System} → Envs parse t u → IsStill s t → IsStill s u
  Envs-IsStill here v = v
  Envs-IsStill (next r e) v = Env-IsStill e (Envs-IsStill r v)

-- After a `disconnect` at a time when no reconnection timer is pending, whatever events the
-- browser still sends, no socket is made or open, no timer is set and no message is handed on.
pub disconnect_is_final :
    (parse : String → Option WsMessage) (s t : System)
    → Envs parse (connect fresh) s
    → s.timers ≡ []
    → Envs parse (disconnect s) t
    → IsStill s t
disconnect_is_final parse s t r e q = Envs-IsStill s q (disconnect-IsStill s (Envs-IsOwned r) e)
