-- ===== src/Lifecycle/Reactions.antt =====
-- What an error and a close do to a connection that is past connecting.
use xnet_socket.Base.{◌≡◌, true, false, Str, arith}
use xnet_socket.Errors.{Error, Kind}
use xnet_socket.Buffer.{unread}
use xnet_socket.Protocol.{CloseCode}
use xnet_socket.Platform.{Platform, Lawful}
use xnet_socket.Handler.{Handler}
use xnet_socket.Connection.{
  State, is_connecting, Live, check_events, watched, disconnect, send_close, error,
  error_established,
}
use xnet_socket.Valid.Invariant.{IsValid, Ends}
use xnet_socket.Valid.Closing.{panic_flag}

module _ {p : Platform} {h : Handler p} where
  -- The connection waits for the peer's close, and goes on reading.
  abbrev pub Waits : Live p h → Type 0
  Waits t = (t.state ≡ State.awaiting_close) × (p.is_readable t.events ≡ true)

  -- The poll is asked for nothing, after which the event loop drops the connection.
  abbrev pub Dropped : Live p h → Live p h → Type 0
  Dropped s t =
      (t.state ≡ s.state) × (p.is_readable t.events ≡ false) × (p.is_writable t.events ≡ false)

  abbrev pub Untouched : Live p h → Live p h → Type 0
  Untouched s t = (t.state ≡ s.state) × (t.events ≡ s.events)

  abbrev pub Reaction : Kind → Live p h → Live p h → Type 0
  Reaction Kind.internal s t = Waits t
  Reaction Kind.capacity s t = Waits t
  Reaction Kind.protocol s t = Waits t
  Reaction (Kind.encoding e) s t = Waits t
  Reaction (Kind.io e) s t = Dropped s t
  Reaction (Kind.http e) s t = Dropped s t
  Reaction (Kind.custom e) s t = Untouched s t
  Reaction (Kind.timer e) s t = Untouched s t
  Reaction (Kind.queue e) s t = Untouched s t

  -- Closing leaves everything but the state and the interest in events alone.
  abbrev pub Silent : Live p h → Live p h → Type 0
  Silent s t =
      (unread t.out_buffer ≡ unread s.out_buffer) × (t.handler ≡ s.handler) × (t.world ≡ s.world)

module _ {p : Platform} {h : Handler p} (l : Lawful p) where
  established-Reaction :
      (k : Kind) (e : Error) (s : Live p h)
      → IsValid s.conn
      → is_connecting s.state ≡ false
      → panic_flag k s.settings ≡ false
      → Ends ⊥ (Reaction k s) (error_established k e s)
  unfolding error_established send_close check_events disconnect is_connecting watched
  established-Reaction Kind.internal e s v n f = ground (
    arith,
    l.insert_readable s.events p.readable,
    l.readable_readable,
    l.writable_readable,
    l.insert_readable (p.insert s.events p.readable) p.writable,
  )
  established-Reaction (Kind.io x) e s v n f = ground (arith, l.none_readable, l.none_writable)
  established-Reaction (Kind.http x) e s v n f = ground (arith, l.none_readable, l.none_writable)
  established-Reaction _ e s v n f = ground (
    arith,
    l.insert_readable s.events p.readable,
    l.readable_readable,
    l.writable_readable,
    l.insert_readable (p.insert s.events p.readable) p.writable,
  )

  -- A close of a valid connection past connecting tells the peer nothing: what is to be written is
  -- the same, and neither the handler nor the world is touched. The connection then waits for the
  -- peer's close, and goes on reading.
  pub send_close-Silent :
      (code : CloseCode) (reason : Str) (s : Live p h)
      → IsValid s.conn
      → is_connecting s.state ≡ false
      → Ends ⊥ (λ t. Silent s t × Waits t) (send_close code reason s)
  unfolding send_close check_events is_connecting watched
  send_close-Silent code reason s v n = ground (
    arith,
    l.insert_readable s.events p.readable,
    l.readable_readable,
    l.writable_readable,
    l.insert_readable (p.insert s.events p.readable) p.writable,
  )

  -- An error of a valid connection past connecting whose kind is not set to panic: an internal,
  -- capacity, protocol or encoding error makes it wait for the peer's close and go on reading; an
  -- I/O or HTTP error makes it ask the poll for nothing; any other leaves its state and its interest
  -- in events alone.
  pub error-Reaction :
      (e : Error) (s : Live p h)
      → IsValid s.conn
      → is_connecting s.state ≡ false
      → panic_flag e.kind s.settings ≡ false
      → Ends ⊥ (Reaction e.kind s) (error e s)
  unfolding error is_connecting
  error-Reaction e s v n f = ground (arith, established-Reaction e.kind e s v n f)
