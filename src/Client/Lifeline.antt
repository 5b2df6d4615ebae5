-- ===== src/Client/Lifeline.antt =====
-- While nobody disconnects, the client has exactly one lifeline: one socket that is not closed, or
-- one timer that will open one. It never runs two connections and it never gives up.
use drishtiscope_oss.Common.{
  ℕ, zero, suc, ◌+◌, ◌≡◌, ◌≢◌, refl, String, Option, none, some, false, List, [], ◌∷◌, ◌++◌,
  get_elem?, set, length, arith, length-append,
}
use drishtiscope_oss.Protocol.{WsMessage}
use drishtiscope_oss.Client.{
  SocketState, opening, open_now, closed, System, fresh, connect, on_open, on_message, on_close,
  on_error, close_state, close_at, close_ws, schedule_reconnect, delay_after,
}
use drishtiscope_oss.Client.Env.{
  remove_at, turn, Env, opens, delivers, fails, closes, fires, Envs, here, next,
}

abbrev pub weight : SocketState → ℕ
weight closed = 0
weight _ = 1

-- How many sockets are not closed.
abbrev pub live : List SocketState → ℕ
live [] = 0
live (x ∷ xs) = weight x + live xs

pub live-append : (xs ys : List SocketState) → live (xs ++ ys) ≡ live xs + live ys
live-append [] ys = omega arith
live-append (x ∷ xs) ys = omega (arith, live-append xs ys)

pub live-set :
    (xs : List SocketState) (i : ℕ) (u v : SocketState)
    → get_elem? xs i ≡ some u
    → live (set xs i v) + weight u ≡ live xs + weight v
live-set [] i u v h = cc
live-set (x ∷ xs) zero u v h = ground arith
live-set (x ∷ xs) (suc i) u v h = omega (arith, live-set xs i u v h)

weight-close_state : (x : SocketState) → weight (close_state x) ≡ weight x
weight-close_state x = ground arith

live-close_at : (i : ℕ) (xs : List SocketState) → live (close_at i xs) ≡ live xs
live-close_at i [] = refl
live-close_at zero (x ∷ xs) = omega (arith, weight-close_state x)
live-close_at (suc i) (x ∷ xs) = omega (arith, live-close_at i xs)

pub live-close_ws : (o : Option ℕ) (xs : List SocketState) → live (close_ws o xs) ≡ live xs
live-close_ws none xs = refl
live-close_ws (some i) xs = live-close_at i xs

pub length-remove_at :
    (k : ℕ) (xs : List ℕ) (d : ℕ)
    → get_elem? xs k ≡ some d
    → suc (length (remove_at k xs)) ≡ length xs
length-remove_at k [] d h = cc
length-remove_at zero (x ∷ xs) d h = refl
length-remove_at (suc k) (x ∷ xs) d h = omega (arith, length-remove_at k xs d h)

pub record HasLifeline (s : System) : Type 0 where
  pub wanted : s.client.intentional_disconnect ≡ false
  pub one : live s.sockets + length s.timers ≡ 1

pub connect-HasLifeline : HasLifeline (connect fresh)
unfolding connect
connect-HasLifeline = record { wanted = refl; one = refl }

pub weight_of_ne : (u : SocketState) → u ≢ closed → weight u ≡ 1
weight_of_ne u h = ground arith

pub on_close_wanted :
    (s : System) → s.client.intentional_disconnect ≡ false → on_close s ≡ schedule_reconnect s
unfolding on_close
on_close_wanted s h = rw h

module _ {parse : String → Option WsMessage} where
  pub Env-HasLifeline : {s t : System} → Env parse s t → HasLifeline s → HasLifeline t
  unfolding on_open on_message on_error connect schedule_reconnect
  Env-HasLifeline (opens s i h) v = record {
    wanted = v.wanted;
    one = omega (arith, v.one, live-set s.sockets i opening open_now h);
  }
  Env-HasLifeline (delivers s i text h) v = ground arith
  Env-HasLifeline (fails s i u h k) v = record {
    wanted = v.wanted;
    one = omega (arith, v.one, live-close_ws s.client.ws s.sockets);
  }
  Env-HasLifeline (closes s i u h k) v = rw (on_close_wanted (turn i closed s) v.wanted) (record {
    wanted = v.wanted;
    one = omega (
      arith,
      v.one,
      live-set s.sockets i u closed h,
      weight_of_ne u k,
      length-append s.timers (delay_after s.client.reconnect_attempts ∷ []),
    );
  })
  Env-HasLifeline (fires s k d h) v = record {
    wanted = refl;
    one =
        omega (arith, v.one, length-remove_at k s.timers d h, live-append s.sockets (opening ∷ []));
  }

  pub Envs-HasLifeline : {s t : System} → Envs parse s t → HasLifeline s → HasLifeline t
  Envs-HasLifeline here v = v
  Envs-HasLifeline (next r e) v = Env-HasLifeline e (Envs-HasLifeline r v)

  -- From `connect` on, whatever the browser does and until `disconnect` is called, there is at each
  -- time exactly one socket that is not closed or one pending timer, and never both.
  pub one_lifeline :
      {s : System} → Envs parse (connect fresh) s → live s.sockets + length s.timers ≡ 1
  one_lifeline r = (Envs-HasLifeline r connect-HasLifeline).one
