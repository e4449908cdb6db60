-- ===== src/Valid/Closing.antt =====
-- Closing a connection, and its errors, keep the invariant.
use xnet_socket.Base.{◌≡◌, Bool, true, false, Str, arith}
use xnet_socket.Errors.{Error, Kind}
use xnet_socket.Protocol.{CloseCode}
use xnet_socket.Settings.{Settings}
use xnet_socket.Platform.{Platform}
use xnet_socket.Handler.{Handler}
use xnet_socket.Connection.{
  is_connecting, Connection, Live, check_events, disconnect, send_close, error, error_connecting,
  error_established, shutdown,
}
use xnet_socket.Valid.Invariant.{IsValid, Ends, Keeps, Never}

-- The setting that turns an error of that kind into a panic.
abbrev pub panic_flag : Kind → Settings → Bool
panic_flag Kind.internal c = c.panic_on_internal
panic_flag Kind.capacity c = c.panic_on_capacity
panic_flag Kind.protocol c = c.panic_on_protocol
panic_flag (Kind.encoding e) c = c.panic_on_encoding
panic_flag (Kind.io e) c = c.panic_on_io
panic_flag (Kind.http e) c = false
panic_flag (Kind.queue e) c = c.panic_on_queue
panic_flag (Kind.timer e) c = c.panic_on_timeout
panic_flag (Kind.custom e) c = false

module _ {p : Platform} {h : Handler p} where
  pub check_events-Keeps : Keeps {p = p} {h = h} Never check_events
  unfolding check_events
  check_events-Keeps s v = ground arith

  pub disconnect-Keeps : Keeps {p = p} {h = h} Never disconnect
  unfolding disconnect
  disconnect-Keeps s v = ground arith

  -- A close of a connection that is not open yet fails the debug assertion.
  abbrev pub TooEarly : Connection p h → Type 0
  TooEarly c = (is_connecting c.state ≡ true) × (p.debug_assertions ≡ true)

  pub send_close-Keeps : (code : CloseCode) (reason : Str) → Keeps TooEarly (send_close code reason)
  unfolding send_close is_connecting
  send_close-Keeps code reason s v = ground arith

  abbrev pub PanicsOn : Error → Connection p h → Type 0
  PanicsOn e c = (is_connecting c.state ≡ false) × (panic_flag e.kind c.settings ≡ true)

  error_established-Keeps :
      (k : Kind) (e : Error) (s : Live p h)
      → is_connecting s.state ≡ false
      → IsValid s.conn
      → Ends (panic_flag k s.settings ≡ true) (λ t. IsValid t.conn) (error_established k e s)
  unfolding error_established send_close disconnect is_connecting
  error_established-Keeps Kind.internal e s n v = ground arith
  error_established-Keeps _ e s n v = ground arith

  pub error-Keeps : (e : Error) → Keeps (PanicsOn e) (error e)
  unfolding error error_connecting is_connecting
  error-Keeps e s v = ground (arith, error_established-Keeps e.kind e s)

  pub shutdown-Keeps : Keeps TooEarly shutdown
  unfolding shutdown send_close is_connecting disconnect
  shutdown-Keeps s v = ground arith
