-- ===== src/Loop/Entry.antt =====
-- src/io.rs: how connections get into the loop.
use xnet_socket.Base.{
  ℕ, ◌+◌, ◌%◌, none, some, List, [], ◌∷◌, ◌++◌, Str, str, if◌then◌else◌, Outcome, done, fail, panic,
  out_of_fuel, pure, ◌>>=◌, ◌>>◌, or_else, ok, err,
}
use mathlib.Core.List.{reverse}
use xnet_socket.Errors.{Error, Kind, new_error, IoResult}
use xnet_socket.Stream.{evented}
use xnet_socket.Communication.Senders.{Sender, new_sender}
use xnet_socket.Connection.{Connection, Live, new, open_connection, as_server, as_client, error}
use xnet_socket.Loop.Site.{Site}
use xnet_socket.Loop.Fields.{Running, Turn, update, on_connection}
use xnet_socket.Loop.Turns.{give_io, remove_connection}

abbrev pub full : Error
full = new_error Kind.capacity (str "Unable to add another connection to the event loop.")

module _ {e : Site} where
  open e use {p, h}

  -- The next connection id, an `u32`, wraps around.
  abbrev pub numbered : Running e → Running e
  numbered s =
      update (λ l. record l { next_connection_id = (l.next_connection_id + 1) % 4294967296 }) s

  -- The factory makes a handler, for a sender to the connection under this token.
  abbrev pub handed : (Sender e.c → e.f.F → p.World → h.H × e.f.F × p.World) → ℕ → Turn e h.H
  handed makes tok s =
      let sender = new_sender {c = e.c} tok s.queue_tx s.next_connection_id in
      let (handler, f, w) = makes sender s.factory s.world in
      done handler (record (update (λ l. record l { factory = f }) (numbered s)) { world = w })

  unfoldable pub lost : h.H → Turn e (Unit {0})
  lost handler s =
      let (f, w) = e.f.connection_lost handler s.factory s.world in
      done tt (record (update (λ l. record l { factory = f }) s) { world = w })

  -- `entry.insert(conn)`.
  unfoldable pub inserted : ℕ → Connection p h → Turn e (Unit {0})
  inserted tok conn s =
      done tt (update (λ l. record l { connections = e.slabs.insert tok conn l.connections }) s)

  -- A new connection that has been opened; whether that succeeded is not looked at.
  unfoldable pub opened : Outcome (Live p h) Error (Unit {0}) → ℕ → Turn e (Unit {0})
  unfolding inserted
  opened (done u l) tok s = inserted tok l.conn (record s { world = l.world })
  opened (fail x l) tok s = inserted tok l.conn (record s { world = l.world })
  opened panic tok s = panic
  opened out_of_fuel tok s = out_of_fuel

  unfoldable pub nodelay : p.Socket → Turn e (Unit {0})
  nodelay sock s =
      if s.settings.tcp_nodelay
      then (let (res, w) = e.set_nodelay sock s.world in give_io res (record s { world = w }))
      else done tt s

  unfoldable pub dialled_one : p.Socket → ℕ → (id : ℕ) → h.H → Turn e (Unit {0})
  unfolding opened nodelay
  dialled_one sock tok id handler = nodelay sock >> λ s.
      opened
        (open_connection (record { conn = new tok sock handler s.settings id; world = s.world }))
        tok s

  unfoldable pub answered_dial :
      IoResult p.Socket
      → Turn e (List p.Addr)
      → List p.Addr
      → ℕ
      → (id : ℕ) → h.H
      → Turn e (List p.Addr)
  unfolding dialled_one
  answered_dial (ok sock) next rest tok id handler = dialled_one sock tok id handler >> pure rest
  answered_dial (err x) next rest tok id handler = next

  -- The loop over the addresses, from the last of them, here the first of the list; it returns
  -- those that are left.
  unfoldable pub dialled : List p.Addr → Str → ℕ → (id : ℕ) → h.H → Turn e (List p.Addr)
  unfolding answered_dial lost
  dialled [] url tok id handler s =
      (lost handler
          >> fail (new_error Kind.internal (str "Unable to obtain any socket address for " ++ url)))
        s
  dialled (addr ∷ rest) url tok id handler s =
      let (res, w) = p.tcp_connect addr s.world in
      answered_dial res (dialled rest url tok id handler) rest tok id handler
        (record s { world = w })

  -- Removes the connection again, and returns the error.
  unfoldable pub dropped : ℕ → Error → Turn e (Unit {0})
  unfolding remove_connection
  dropped tok x = remove_connection tok >> fail x

  unfoldable pub registered : ℕ → Turn e (Unit {0})
  registered tok s = elim (e.slabs.get s.connections tok) [
    | none ↦ panic
    | some conn ↦
        let (res, w) = e.register (evented conn.socket) conn.token conn.events s.world in
        give_io res (record s { world = w })
  ]

  -- A connection as a client, once its socket is connected.
  unfoldable pub joined : ℕ → Str → List p.Addr → Turn e (Unit {0})
  unfolding registered dropped on_connection
  joined tok url rest s =
      ((λ t. or_else (on_connection tok (as_client url rest) t) (dropped tok)) >> λ t.
      or_else (registered tok t) (dropped tok))
        s

  -- The addresses, which the lookup gives, with the last first; `unwrap` panics on an error.
  unfoldable pub reached : IoResult (List p.Addr) → Str → ℕ → (id : ℕ) → h.H → Turn e (Unit {0})
  unfolding dialled joined
  reached (err x) url tok id handler = λ s. panic
  reached (ok addrs) url tok id handler =
      dialled (reverse addrs) url tok id handler >>= λ rest. joined tok url (reverse rest)

  unfoldable pub looked_up : Str → ℕ → (id : ℕ) → h.H → Turn e (Unit {0})
  unfolding reached
  looked_up url tok id handler s =
      let (addrs, w) = e.to_socket_addrs url s.world in
      reached addrs url tok id handler (record s { world = w })

  unfoldable pub connect : Str → Turn e (Unit {0})
  unfolding looked_up new_sender
  connect url s = elim (e.slabs.vacant_entry s.connections) [
    | none ↦ fail full s
    | some tok ↦ (handed e.f.client_connected tok >>= looked_up url tok s.next_connection_id) s
  ]

  -- An error of a new connection is told to it, and may be set to panic.
  abbrev pub told : ℕ → Error → Turn e (Unit {0})
  told tok x = on_connection tok (error x) >> λ s.
      if s.settings.panic_on_new_connection then panic else done tt s

  unfoldable pub welcomed : ℕ → Turn e (Unit {0})
  unfolding on_connection registered
  welcomed tok = on_connection tok as_server >> (λ s. or_else (registered tok s) (told tok)) >> λ s.
      or_else (on_connection tok open_connection s) (told tok)

  unfoldable pub accept : p.Socket → Turn e (Unit {0})
  unfolding nodelay inserted welcomed new_sender
  accept sock = nodelay sock >> λ s. elim (e.slabs.vacant_entry s.connections) [
    | none ↦ fail full s
    | some tok ↦
        (handed e.f.server_connected tok >>= λ handler.
        inserted tok (new tok sock handler s.settings s.next_connection_id) >> welcomed tok)
          s
  ]
