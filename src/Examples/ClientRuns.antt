-- ===== src/Examples/ClientRuns.antt =====
-- The WebSocket client: a connection that opens, delivers, drops, and is made again.
use drishtiscope_oss.Common.{◌+◌, ◌≡◌, refl, false, [], ◌∷◌, length}
use drishtiscope_oss.Protocol.{connecting, connected, reconnecting, offline}
use drishtiscope_oss.Client.{
  System, opening, open_now, closed, fresh, connect, disconnect, on_open, on_message, on_close,
}
use drishtiscope_oss.Client.Env.{turn, remove_at, Envs, here, next, opens, delivers, closes, fires}
use drishtiscope_oss.Client.Lifeline.{live, one_lifeline}
use drishtiscope_oss.Client.Recovery.{IsOnline, never_gives_up}
use drishtiscope_oss.Client.Quiet.{IsStill, disconnect_is_final}
use drishtiscope_oss.Client.Zombie.{disconnect_with_timer}
use drishtiscope_oss.Examples.Samples.{parse_beat, beat}

abbrev online : System
online = on_open (turn 0 open_now (connect fresh))

to_online : Envs parse_beat (connect fresh) online
unfolding connect
to_online = next here (opens (connect fresh) 0 refl)

abbrev served : System
served = on_message parse_beat "{}" online

to_served : Envs parse_beat (connect fresh) served
unfolding connect on_open
to_served = next to_online (delivers online 0 "{}" refl)

abbrev waiting : System
waiting = on_close (turn 0 closed served)

to_waiting : Envs parse_beat (connect fresh) waiting
unfolding connect on_open on_message
to_waiting = next to_served (closes served 0 open_now refl (cc))

abbrev again : System
again = connect (record waiting { timers = remove_at 0 waiting.timers })

to_again : Envs parse_beat (connect fresh) again
unfolding connect on_open on_message on_close
to_again = next to_waiting (fires waiting 0 500 refl)

again_state :
    (again.statuses ≡ connecting ∷ connected ∷ reconnecting ∷ [])
    × (again.received ≡ beat ∷ [])
    × (again.sockets ≡ closed ∷ opening ∷ [])
unfolding connect on_open on_message on_close
again_state = (refl, refl, refl)

-- A client that is disconnected while it waits, and reconnects when its timer fires.
zombie_state :
    ((connect (record (disconnect waiting) { timers = [] })).client.intentional_disconnect ≡ false)
    × ((connect (record (disconnect waiting) { timers = [] })).sockets ≡ closed ∷ opening ∷ [])
unfolding connect on_open on_message on_close disconnect
zombie_state = (refl, refl)

-- A client that is disconnected while it is online, and hears the close event.
farewell :
    (on_close (turn 0 closed (disconnect online))).statuses ≡ connecting ∷ connected ∷ offline ∷ []
unfolding connect on_open on_close disconnect
farewell = refl

one_lifeline_example : live again.sockets + length again.timers ≡ 1
one_lifeline_example = one_lifeline to_again

never_gives_up_example : (t : System) × Envs parse_beat again t × IsOnline t
never_gives_up_example = never_gives_up parse_beat again to_again

disconnect_is_final_example : IsStill online (disconnect online)
unfolding connect on_open
disconnect_is_final_example =
    disconnect_is_final parse_beat online (disconnect online) to_online refl here

disconnect_with_timer_example : (t : System) × Envs parse_beat (disconnect waiting) t × IsOnline t
unfolding connect on_open on_message on_close
disconnect_with_timer_example = disconnect_with_timer parse_beat waiting 0 500 refl
