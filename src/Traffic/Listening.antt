-- ===== src/Traffic/Listening.antt =====
-- src/connection.rs: the methods that take nothing from the socket and give the handler no message.
use xnet_socket.Base.{ℕ, ◌≡◌, List, [], ◌∷◌, ◌++◌, Option, Str, str, arith}
use xnet_socket.Errors.{Error, Kind}
use xnet_socket.Protocol.{CloseCode}
use xnet_socket.Message.{Message, into_data}
use xnet_socket.Platform.{Platform, ReceivedLog}
use xnet_socket.Handler.{Handler}
use xnet_socket.Buffer.{Cursor}
use xnet_socket.Stream.{Stream, evented, tcp, try_write_buf}
use xnet_socket.Connection.{
  Live, Method, open_connection, as_client, reset, shutdown, new_timeout, timeout_triggered, error,
  disconnect, write, send_message, send_close, check_events, error_connecting, error_established,
  is_connecting, is_client, remove_event, check_buffer_out, buffered, put_out, wrote, write_out,
  ended,
}
use xnet_socket.Valid.Invariant.{IsValid, Ends, and_then-Ends, give_io-Ends}
use xnet_socket.Traffic.Gaining.{given}

module _ {p : Platform} where
  -- A handler that keeps the messages that it is given, whose callbacks take nothing from a socket,
  -- on a network where a write takes nothing from one.
  pub record Attentive (h : Handler p) (log : ReceivedLog p) : Type 0 where
    pub heard : h.H → List Message
    pub message_heard :
        (m : Message) (x : h.H) (w : p.World) → heard (h.on_message m x w).1 ≡ heard x ++ m ∷ []
    pub message_deaf :
        (s : p.Socket) (m : Message) (x : h.H) (w : p.World)
        → log.received s (h.on_message m x w).2 ≡ log.received s w
    pub shutdown_heard : (x : h.H) (w : p.World) → heard (h.on_shutdown x w).0 ≡ heard x
    pub shutdown_deaf :
        (s : p.Socket) (x : h.H) (w : p.World)
        → log.received s (h.on_shutdown x w).1 ≡ log.received s w
    pub close_heard :
        (code : CloseCode) (reason : Str) (x : h.H) (w : p.World)
        → heard (h.on_close code reason x w).0 ≡ heard x
    pub close_deaf :
        (s : p.Socket) (code : CloseCode) (reason : Str) (x : h.H) (w : p.World)
        → log.received s (h.on_close code reason x w).1 ≡ log.received s w
    pub error_heard : (e : Error) (x : h.H) (w : p.World) → heard (h.on_error e x w).0 ≡ heard x
    pub error_deaf :
        (s : p.Socket) (e : Error) (x : h.H) (w : p.World)
        → log.received s (h.on_error e x w).1 ≡ log.received s w
    pub timeout_heard :
        (event : ℕ) (x : h.H) (w : p.World) → heard (h.on_timeout event x w).1 ≡ heard x
    pub timeout_deaf :
        (s : p.Socket) (event : ℕ) (x : h.H) (w : p.World)
        → log.received s (h.on_timeout event x w).2 ≡ log.received s w
    pub new_timeout_heard :
        (event : ℕ) (t : p.Timeout) (x : h.H) (w : p.World)
        → heard (h.on_new_timeout event t x w).1 ≡ heard x
    pub new_timeout_deaf :
        (s : p.Socket) (event : ℕ) (t : p.Timeout) (x : h.H) (w : p.World)
        → log.received s (h.on_new_timeout event t x w).2 ≡ log.received s w
    pub write_deaf :
        (s t : p.Socket) (d : Str) (w : p.World)
        → log.received s (p.tcp_write t d w).1 ≡ log.received s w

module _ {p : Platform} {h : Handler p} (log : ReceivedLog p) (q : Attentive h log)
    (o : Live p h) where
  -- What came in, what of it is still to be read, and what the handler has heard are as in `o`.
  abbrev pub Same : Live p h → Type 0
  Same s =
      (log.received (evented o.socket) s.world ≡ given log o)
      × (s.socket ≡ o.socket)
      × (s.in_buffer ≡ o.in_buffer)
      × (q.heard s.handler ≡ q.heard o.handler)

  abbrev pub Ignores : {A : Type 0} → Method p h A → Type 0
  Ignores m = (s : Live p h) → Same s → Ends Unit Same (m s)

  pub disconnect-Ignores : Ignores disconnect
  unfolding disconnect
  disconnect-Ignores s i = ground (
    arith,
    i,
    q.close_deaf (evented o.socket) CloseCode.abnormal (str "") s.handler s.world,
    q.close_heard CloseCode.abnormal (str "") s.handler s.world,
  )

  pub send_close-Ignores : (code : CloseCode) (reason : Str) → Ignores (send_close code reason)
  unfolding send_close check_events
  send_close-Ignores code reason s i = ground (arith, i)

  pub shutdown-Ignores : Ignores shutdown
  unfolding shutdown send_close check_events
  shutdown-Ignores s i = ground (
    arith,
    i,
    q.shutdown_deaf (evented o.socket) s.handler s.world,
    q.shutdown_heard s.handler s.world,
  )

  established-Ignores : (k : Kind) (e : Error) → Ignores (error_established k e)
  unfolding error_established send_close check_events disconnect
  established-Ignores k e s i =
      let (handler, w) = h.on_error e s.handler s.world in
      ground (
        arith,
        i,
        q.error_deaf (evented o.socket) e s.handler s.world,
        q.error_heard e s.handler s.world,
        q.close_deaf (evented o.socket) CloseCode.abnormal (str "") handler w,
        q.close_heard CloseCode.abnormal (str "") handler w,
      )

  pub error-Ignores : (e : Error) → Ignores (error e)
  unfolding error error_connecting
  error-Ignores e s i = ground (
    arith,
    i,
    q.error_deaf (evented o.socket) e s.handler s.world,
    q.error_heard e s.handler s.world,
    established-Ignores e.kind e s i,
  )

  pub open_connection-Ignores : Ignores open_connection
  unfolding open_connection
  open_connection-Ignores s i = ground (arith, i)

  pub as_client-Ignores : (url : Str) (addrs : List p.Addr) → Ignores (as_client url addrs)
  unfolding as_client
  as_client-Ignores url addrs s i = ground (arith, i)

  pub new_timeout-Ignores : (event : ℕ) (t : p.Timeout) → Ignores (new_timeout event t)
  unfolding new_timeout
  new_timeout-Ignores event t s i = ground (
    arith,
    i,
    q.new_timeout_deaf (evented o.socket) event t s.handler s.world,
    q.new_timeout_heard event t s.handler s.world,
  )

  pub timeout_triggered-Ignores : (event : ℕ) → Ignores (timeout_triggered event)
  unfolding timeout_triggered
  timeout_triggered-Ignores event s i = ground (
    arith,
    i,
    q.timeout_deaf (evented o.socket) event s.handler s.world,
    q.timeout_heard event s.handler s.world,
  )

  -- A valid connection is never reset.
  pub reset-Ignores : (s : Live p h) → IsValid s.conn → Same s → Ends Unit Same (reset s)
  unfolding reset is_connecting is_client
  reset-Ignores s v i = ground (arith, v, i)

  check_buffer_out-Ignores : (frame : Str) → Ignores (check_buffer_out frame)
  unfolding check_buffer_out
  check_buffer_out-Ignores frame s i = ground (arith, i)

  buffered-Ignores : (m : Message) → Ignores (buffered m)
  unfolding buffered check_events
  buffered-Ignores m s i =
      and_then-Ends Unit Same (check_buffer_out (into_data m) s) _
        (check_buffer_out-Ignores (into_data m) s i) (λ _ t w. ground (arith, w))

  pub send_message-Ignores : (m : Message) → Ignores (send_message m)
  unfolding send_message
  send_message-Ignores m s i = ground (arith, i, buffered-Ignores m s i)

  try_write_buf-deaf :
      (s : Stream p.Socket) (c : Cursor) (w : p.World)
      → log.received (evented o.socket) (try_write_buf p s c w).2
        ≡ log.received (evented o.socket) w
  unfolding try_write_buf evented
  try_write_buf-deaf (tcp sock) c w = q.write_deaf (evented o.socket) sock (p.chunk c) w

  put_out-Ignores : Ignores put_out
  unfolding put_out
  put_out-Ignores s i =
      give_io-Ends Unit Same _ _
        (ground (arith, i, try_write_buf-deaf s.socket s.out_buffer s.world))

  wrote-Ignores : (n : Option ℕ) → Ignores (wrote n)
  unfolding wrote check_events
  wrote-Ignores n s i = ground (arith, i)

  write_out-Ignores : Ignores write_out
  unfolding write_out
  write_out-Ignores s i = ground (
    arith,
    i,
    and_then-Ends Unit Same (put_out (remove_event p.writable s)) wrote
        (put_out-Ignores (remove_event p.writable s) i) wrote-Ignores,
  )

  pub write-Ignores : Ignores write
  unfolding write
  write-Ignores s i = ground (arith, i, write_out-Ignores s i)

  pub ended-Ignores : (n : ℕ) → Ignores (ended n)
  unfolding ended
  ended-Ignores n s i = ground (arith, i, disconnect-Ignores s i)
