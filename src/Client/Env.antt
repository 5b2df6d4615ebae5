-- ===== src/Client/Env.antt =====
-- What the browser may do next with the client's sockets and timers: the WebSocket events in the
-- order that the platform allows for one socket (opens at most once, messages while it is open,
-- one close event), and the timers of `setTimeout`, in any interleaving.
use drishtiscope_oss.Common.{
  ℕ, zero, suc, ◌≡◌, ◌≢◌, String, Option, some, List, [], ◌∷◌, get_elem?, set,
}
use drishtiscope_oss.Protocol.{WsMessage}
use drishtiscope_oss.Client.{
  SocketState, opening, open_now, closed, System, connect, on_open, on_message, on_close, on_error,
}

abbrev pub remove_at : ℕ → List ℕ → List ℕ
remove_at i [] = []
remove_at zero (x ∷ xs) = xs
remove_at (suc i) (x ∷ xs) = x ∷ remove_at i xs

-- Socket i changes its state.
abbrev pub turn : ℕ → SocketState → System → System
turn i v s = record s { sockets = set s.sockets i v }

pub data Env (parse : String → Option WsMessage) : System → System → Type 0 where
  opens :
      (s : System) (i : ℕ)
      → get_elem? s.sockets i ≡ some opening
      → Env parse s (on_open (turn i open_now s))
  delivers :
      (s : System) (i : ℕ) (text : String)
      → get_elem? s.sockets i ≡ some open_now
      → Env parse s (on_message parse text s)
  fails :
      (s : System) (i : ℕ) (v : SocketState)
      → get_elem? s.sockets i ≡ some v
      → v ≢ closed
      → Env parse s (on_error s)
  closes :
      (s : System) (i : ℕ) (v : SocketState)
      → get_elem? s.sockets i ≡ some v
      → v ≢ closed
      → Env parse s (on_close (turn i closed s))
  fires :
      (s : System) (k delay : ℕ)
      → get_elem? s.timers k ≡ some delay
      → Env parse s (connect (record s { timers = remove_at k s.timers }))

pub data Envs (parse : String → Option WsMessage) (s : System) : System → Type 0 where
  here : Envs parse s s
  next : {t u : System} → Envs parse s t → Env parse t u → Envs parse s u
