-- ===== src/Client/Zombie.antt =====
-- `disconnect` while a reconnection timer is pending: `setTimeout` is not cleared, and `connect`
-- takes the disconnection back.
use drishtiscope_oss.Common.{ℕ, ◌≡◌, String, Option, some, get_elem?}
use drishtiscope_oss.Protocol.{WsMessage}
use drishtiscope_oss.Client.{System, disconnect}
use drishtiscope_oss.Client.Env.{Envs}
use drishtiscope_oss.Client.Recovery.{timer-Recovers, IsOnline}

-- Whenever a timer is pending, after `disconnect` the browser's events can still lead to an open
-- socket.
pub disconnect_with_timer :
    (parse : String → Option WsMessage) (s : System) (k delay : ℕ)
    → get_elem? s.timers k ≡ some delay
    → (t : System) × Envs parse (disconnect s) t × IsOnline t
unfolding disconnect
disconnect_with_timer parse s k delay h = timer-Recovers parse (disconnect s) k delay h
