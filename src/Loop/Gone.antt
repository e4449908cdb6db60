-- ===== src/Loop/Gone.antt =====
-- src/io.rs: events and commands for a connection that has left the loop.
use xnet_socket.Base.{
  ℕ, ◌<◌, ◌≡◌, refl, Str, ◌≢◌, ◌⊎◌, inl, inr, none, some, done, panic, and_then, arith, ap,
}
use xnet_socket.Message.{Message}
use xnet_socket.Protocol.{CloseCode}
use xnet_socket.Communication.{Signal, queue_token, timer_token, all_token, system_token}
use xnet_socket.Connection.{Connection, Method, send_message, send_close}
use xnet_socket.Loop.Site.{Site}
use xnet_socket.Loop.Fields.{Running}
use xnet_socket.Loop.Turns.{reported}
use xnet_socket.Loop.Commands.{if_same, scheduled_one, handle_one, handle_queue}
use xnet_socket.Loop.Events.{half, handle_connection, handle_event}

module _ {e : Site} where
  handle_connection-vacant :
      (fuel t : ℕ) (events : e.p.Ready) (s : Running e)
      → e.slabs.get s.connections t ≡ none
      → handle_connection fuel t events s ≡ panic
  unfolding handle_connection half
  handle_connection-vacant fuel t events s g = rw g refl

  -- An event for a token that is none of the reserved ones and under which no connection is stored
  -- makes the loop panic, whatever it was for.
  pub vacant_panics :
      (fuel t : ℕ) (events : e.p.Ready) (s : Running e)
      → t < system_token e.p
      → e.slabs.get s.connections t ≡ none
      → handle_event fuel t events s ≡ panic
  unfolding handle_event queue_token timer_token all_token system_token
  vacant_panics fuel t events s b g = ground (arith, handle_connection-vacant fuel t events s g)

  -- No connection is stored under the token, or one with another connection id.
  abbrev pub Stale : (t id : ℕ) → Running e → Type 0
  Stale t id s =
      (e.slabs.get s.connections t ≡ none)
      ⊎ ((conn : Connection e.p e.h) × (e.slabs.get s.connections t ≡ some conn)
          × (conn.connection_id ≢ id))

  if_same-Stale :
      (t id : ℕ) (m : Method e.p e.h (Unit {0})) (s : Running e)
      → Stale t id s
      → if_same t id m s ≡ done tt s
  unfolding if_same
  if_same-Stale t id m s (inl g) = rw g refl
  if_same-Stale t id m s (inr (conn, g, n)) = rw g (ground (arith, n))

  -- A message or a close that is for a former connection, under whose token no connection is stored
  -- or one with another connection id, does exactly what a mere rescheduling of that token does. The
  -- token is none of the reserved ones.
  pub handle_queue-Stale :
      (t id : ℕ) (msg : Message) (code : CloseCode) (reason : Str) (s : Running e)
      → t < system_token e.p
      → Stale t id s
      → (handle_queue (record { token = t; signal = Signal.message msg; connection_id = id }) s
          ≡ scheduled_one t s)
        × (handle_queue
              (record { token = t; signal = Signal.close code reason; connection_id = id })
              s
            ≡ scheduled_one t s)
  unfolding handle_queue handle_one all_token system_token
  handle_queue-Stale t id msg code reason s b v = ground (
    arith,
    ap (λ o. and_then o (λ u. scheduled_one t))
        (if_same-Stale t id (reported (send_message msg)) s v),
    ap (λ o. and_then o (λ u. scheduled_one t))
        (if_same-Stale t id (reported (send_close code reason)) s v),
  )
