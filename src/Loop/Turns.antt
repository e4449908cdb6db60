-- ===== src/Loop/Turns.antt =====
-- src/io.rs: what the loop does with its connections after an event, on a timeout, and to end.
use xnet_socket.Base.{
  ℕ, Bool, true, false, ◌||◌, ◌==◌, Option, none, some, if◌then◌else◌, done, fail, panic, ◌>>=◌,
  ◌>>◌, or_else, ok, err,
}
use xnet_socket.Errors.{from_io, IoResult}
use xnet_socket.Platform.{Platform}
use xnet_socket.Handler.{Handler}
use xnet_socket.Stream.{evented}
use xnet_socket.Connection.{
  Connection, Method, consume, error, timeout_triggered, shutdown as shutdown_connection,
}
use xnet_socket.Loop.Site.{Site, Alarm}
use xnet_socket.Loop.Fields.{Activity, active, inactive, Turn, on_found, on_connection, on_each}

unfoldable pub is_active : Activity → Bool
is_active active = true
is_active inactive = false

-- The loop has no listener.
unfoldable pub is_client : {A : Type 0} → Option A → Bool
is_client none = true
is_client (some l) = false

module _ {p : Platform} {h : Handler p} where
  -- A connection waits for some event.
  abbrev pub waits : Connection p h → Bool
  waits conn = p.is_readable conn.events || p.is_writable conn.events

  -- `if let Err(err) = m { conn.error(err) }`.
  abbrev pub reported : Method p h (Unit {0}) → Method p h (Unit {0})
  reported m l = or_else (m l) error

  -- What the connection waits for, once it has dealt with the event.
  abbrev pub then_waits : Method p h (Unit {0}) → Method p h Bool
  then_waits m = m >>= λ u l. done (waits l.conn) l

module _ {e : Site} where
  open e use {p, h}

  -- `?` on an I/O result.
  abbrev pub give_io : {A : Type 0} → IoResult A → Turn e A
  give_io (ok a) s = done a s
  give_io (err x) s = fail (from_io x) s

  unfoldable pub schedule : Connection p h → Turn e (Unit {0})
  schedule conn s =
      let (res, w) = e.reregister (evented conn.socket) conn.token conn.events s.world in
      give_io res (record s { world = w })

  -- `connections.remove(token).unwrap().consume()`, and the factory's `connection_lost`.
  unfoldable pub remove_connection : ℕ → Turn e (Unit {0})
  remove_connection t s = elim (e.slabs.get s.connections t) [
    | none ↦ panic
    | some conn ↦
        let (f, w) = e.f.connection_lost (consume conn) s.factory s.world in
        done tt (record s {
          loop = record s.loop { connections = e.slabs.remove t s.connections; factory = f };
          world = w;
        })
  ]

  -- Where the poll refuses it, the connection hears of the error, and is removed.
  unfoldable pub rescheduled : ℕ → Turn e (Unit {0})
  unfolding schedule remove_connection on_connection
  rescheduled t s = elim (e.slabs.get s.connections t) [
    | none ↦ panic
    | some conn ↦ or_else (schedule conn s) (λ x. on_connection t (error x) >> remove_connection t)
  ]

  unfoldable pub check_active : Bool → ℕ → Turn e (Unit {0})
  unfolding remove_connection rescheduled
  check_active false t = remove_connection t
  check_active true t = rescheduled t

  unfoldable pub told_shutdown : Turn e (Unit {0})
  told_shutdown s =
      let (f, w) = e.f.on_shutdown s.factory s.world in
      done tt (record s { loop = record s.loop { factory = f; state = inactive }; world = w })

  unfoldable pub shutdown : Turn e (Unit {0})
  unfolding on_each told_shutdown
  shutdown s =
      (on_each (e.slabs.keys s.connections) shutdown_connection >> told_shutdown >> λ t.
      if t.settings.panic_on_shutdown then panic else done tt t)
        s

  unfoldable pub check_count : Turn e (Unit {0})
  unfolding is_active is_client told_shutdown
  check_count s =
      if e.slabs.count s.connections == 0
      then (if is_active s.state
          then (if is_client s.listener then told_shutdown s else done tt s)
          else done tt s)
      else done tt s

  unfoldable pub handle_timeout : Alarm → Turn e (Unit {0})
  unfolding check_active
  handle_timeout a s = elim (e.slabs.get s.connections a.connection) [
    | none ↦ done tt s
    | some conn ↦
        (on_found a.connection conn (then_waits (reported (timeout_triggered a.event)))
            >>= λ active. check_active active a.connection)
          s
  ]
