-- ===== src/Client.antt =====
-- frontend/src/ws/client.ts: the WebSocket client. Its fields are a record; what it shares with the
-- browser stands beside them: the sockets it has made (socket i is the i-th), the reconnection
-- timers that are set, the statuses that it reported and the messages that it handed on. Each
-- callback is one operation, and all sockets share the client's fields, as the closures do.
-- `JSON.parse` is a parameter, `none` where it throws.
pub mod Env
pub mod Delay
pub mod Lifeline
pub mod Recovery
pub mod Quiet
pub mod Zombie
use drishtiscope_oss.Common.{
  ℕ, zero, suc, ◌+◌, String, Option, none, some, Bool, true, false, List, [], ◌∷◌, ◌++◌, length,
  get_elem?, set, nat_eq, leb, if◌then◌else◌,
}
use drishtiscope_oss.Protocol.{
  WsMessage, ConnectionStatus, connecting, connected, reconnecting, offline,
}

-- `readyState`
pub data SocketState : Type 0 where
  opening open_now closing closed : SocketState

pub record Client : Type 0 where
  pub reconnect_attempts : ℕ
  pub intentional_disconnect : Bool
  pub ws : Option ℕ

pub record System : Type 0 where
  pub client : Client
  pub sockets : List SocketState
  pub timers : List ℕ
  pub statuses : List ConnectionStatus
  pub received : List WsMessage

-- The constructor's fields, with nothing done yet.
abbrev pub fresh : System
fresh = record {
  client = record { reconnect_attempts = 0; intentional_disconnect = false; ws = none };
  sockets = [];
  timers = [];
  statuses = [];
  received = [];
}

-- `onStatusChange(status)`
abbrev pub report : ConnectionStatus → System → System
report c s = record s { statuses = s.statuses ++ c ∷ [] }

unfoldable pub connect : System → System
connect s =
    let attempt = if nat_eq s.client.reconnect_attempts 0 then connecting else reconnecting in
    record s {
      client = record (s.client) { intentional_disconnect = false; ws = some (length s.sockets) };
      sockets = s.sockets ++ opening ∷ [];
      statuses = s.statuses ++ attempt ∷ [];
    }

unfoldable pub on_open : System → System
on_open s =
    let t = report connected s in record t { client = record (t.client) { reconnect_attempts = 0 } }

unfoldable pub on_message : (String → Option WsMessage) → String → System → System
on_message parse text s = elim (parse text) [
  | none ↦ s
  | some msg ↦ record s { received = s.received ++ msg ∷ [] }
]

abbrev pub delay_after : ℕ → ℕ
delay_after attempts =
    if nat_eq attempts 1
    then 1000
    else if nat_eq attempts 2
    then 2000
    else if leb 3 attempts
    then 5000
    else 500

unfoldable pub schedule_reconnect : System → System
schedule_reconnect s = record s {
  client = record (s.client) { reconnect_attempts = s.client.reconnect_attempts + 1 };
  timers = s.timers ++ delay_after s.client.reconnect_attempts ∷ [];
}

unfoldable pub on_close : System → System
unfolding schedule_reconnect
on_close s = if s.client.intentional_disconnect then report offline s else schedule_reconnect s

-- `WebSocket.close()`: nothing on a socket that is closing or closed.
abbrev pub close_state : SocketState → SocketState
close_state opening = closing
close_state open_now = closing
close_state closing = closing
close_state closed = closed

abbrev pub close_at : ℕ → List SocketState → List SocketState
close_at i [] = []
close_at zero (x ∷ xs) = close_state x ∷ xs
close_at (suc i) (x ∷ xs) = x ∷ close_at i xs

-- `this.ws?.close()`
abbrev pub close_ws : Option ℕ → List SocketState → List SocketState
close_ws none sockets = sockets
close_ws (some i) sockets = close_at i sockets

unfoldable pub on_error : System → System
on_error s = record s { sockets = close_ws s.client.ws s.sockets }

unfoldable pub disconnect : System → System
disconnect s = record s {
  client = record (s.client) { intentional_disconnect = true; ws = none };
  sockets = close_ws s.client.ws s.sockets;
}
