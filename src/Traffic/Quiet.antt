-- ===== src/Traffic/Quiet.antt =====
-- src/connection.rs: the methods that neither write to the socket nor add to what is to be written.
use xnet_socket.Base.{
  ℕ, zero, suc, ◌≡◌, ap, ◌∙◌, List, Option, none, some, Str, str, ◌++◌, ◌>>=◌, arith,
}
use xnet_socket.Errors.{Error, Kind}
use xnet_socket.Protocol.{CloseCode}
use xnet_socket.Message.{Message, from_utf8}
use xnet_socket.Platform.{Platform, SentLog}
use xnet_socket.Handler.{Handler}
use xnet_socket.Buffer.{Vec, unread, read_to_end}
use xnet_socket.Stream.{Stream, tcp, evented, try_read_buf}
use xnet_socket.Connection.{
  Live, Method, open_connection, as_client, shutdown, new_timeout, timeout_triggered, error,
  disconnect, read, send_close, check_events, error_connecting, error_established, Round, again,
  return, looped, set_in, take_in, took, buffer_in, read_data, ended, received, is_connecting,
  is_client, reset,
}
use xnet_socket.Valid.Invariant.{IsValid, Ends, and_then-Ends, give_io-Ends, give-Ends}
use xnet_socket.Traffic.Writing.{output}

module _ {p : Platform} where
  -- A handler whose callbacks write to no socket, on a network where a read writes to none.
  pub record Quiet (h : Handler p) (log : SentLog p) : Type 0 where
    pub shutdown_quiet :
        (s : p.Socket) (x : h.H) (w : p.World) → log.sent s (h.on_shutdown x w).1 ≡ log.sent s w
    pub message_quiet :
        (s : p.Socket) (m : Message) (x : h.H) (w : p.World)
        → log.sent s (h.on_message m x w).2 ≡ log.sent s w
    pub close_quiet :
        (s : p.Socket) (code : CloseCode) (reason : Str) (x : h.H) (w : p.World)
        → log.sent s (h.on_close code reason x w).1 ≡ log.sent s w
    pub error_quiet :
        (s : p.Socket) (e : Error) (x : h.H) (w : p.World)
        → log.sent s (h.on_error e x w).1 ≡ log.sent s w
    pub timeout_quiet :
        (s : p.Socket) (event : ℕ) (x : h.H) (w : p.World)
        → log.sent s (h.on_timeout event x w).2 ≡ log.sent s w
    pub new_timeout_quiet :
        (s : p.Socket) (event : ℕ) (t : p.Timeout) (x : h.H) (w : p.World)
        → log.sent s (h.on_new_timeout event t x w).2 ≡ log.sent s w
    pub read_quiet :
        (s t : p.Socket) (n : ℕ) (w : p.World) → log.sent s (p.tcp_read t n w).1 ≡ log.sent s w

module _ {p : Platform} {h : Handler p} (log : SentLog p) (q : Quiet h log) (x : Str) where
  -- `x` has gone out or is still to go out.
  abbrev pub At : Live p h → Type 0
  At s = output log s ≡ x

  abbrev pub Stays : {A : Type 0} → Method p h A → Type 0
  Stays m = (s : Live p h) → At s → Ends Unit At (m s)

  pub disconnect-Stays : Stays disconnect
  unfolding disconnect
  disconnect-Stays s i =
      ground
        (arith, i, q.close_quiet (evented s.socket) CloseCode.abnormal (str "") s.handler s.world)

  pub send_close-Stays : (code : CloseCode) (reason : Str) → Stays (send_close code reason)
  unfolding send_close check_events
  send_close-Stays code reason s i = ground arith

  pub shutdown-Stays : Stays shutdown
  unfolding shutdown send_close check_events
  shutdown-Stays s i = ground (arith, i, q.shutdown_quiet (evented s.socket) s.handler s.world)

  established-Stays : (k : Kind) (e : Error) → Stays (error_established k e)
  unfolding error_established send_close check_events disconnect
  established-Stays k e s i =
      let (handler, w) = h.on_error e s.handler s.world in
      ground (
        arith,
        i,
        q.error_quiet (evented s.socket) e s.handler s.world,
        q.close_quiet (evented s.socket) CloseCode.abnormal (str "") handler w,
      )

  pub error-Stays : (e : Error) → Stays (error e)
  unfolding error error_connecting
  error-Stays e s i = ground (
    arith,
    i,
    q.error_quiet (evented s.socket) e s.handler s.world,
    established-Stays e.kind e s i,
  )

  pub open_connection-Stays : Stays open_connection
  unfolding open_connection
  open_connection-Stays s i = ground arith

  pub as_client-Stays : (url : Str) (addrs : List p.Addr) → Stays (as_client url addrs)
  unfolding as_client
  as_client-Stays url addrs s i = ground arith

  pub new_timeout-Stays : (event : ℕ) (t : p.Timeout) → Stays (new_timeout event t)
  unfolding new_timeout
  new_timeout-Stays event t s i =
      ground (arith, i, q.new_timeout_quiet (evented s.socket) event t s.handler s.world)

  pub timeout_triggered-Stays : (event : ℕ) → Stays (timeout_triggered event)
  unfolding timeout_triggered
  timeout_triggered-Stays event s i =
      ground (arith, i, q.timeout_quiet (evented s.socket) event s.handler s.world)

  -- A valid connection is never reset.
  pub reset-Stays : (s : Live p h) → IsValid s.conn → At s → Ends Unit At (reset s)
  unfolding reset is_connecting is_client
  reset-Stays s v i = ground (arith, v)

  try_read_buf-quiet :
      (s : Stream p.Socket) (b : Vec) (w : p.World)
      → log.sent (evented s) (try_read_buf p s b w).2 ≡ log.sent (evented s) w
  unfolding try_read_buf evented
  try_read_buf-quiet (tcp sock) b w = q.read_quiet sock sock (p.window b) w

  take_in-Stays : Stays take_in
  unfolding take_in
  take_in-Stays s i =
      let (res, b, w) = try_read_buf p s.socket s.in_buffer.inner s.world in
      give_io-Ends Unit At res (record (set_in (record s.in_buffer { inner = b }) s) { world = w })
        (ap (λ z. z ++ unread s.out_buffer) (try_read_buf-quiet s.socket s.in_buffer.inner s.world)
          ∙ i)

  took-Stays : (n : Option ℕ) → Stays (took n)
  unfolding took
  took-Stays none s i = i
  took-Stays (some n) s i = ground arith

  looped-Stays :
      (rounds : Method p h (Option ℕ)) → Stays rounds → (r : Round) → Stays (looped rounds r)
  looped-Stays rounds stays again s i = stays s i
  looped-Stays rounds stays (return n) s i = i

  buffer_in-Stays : (fuel : ℕ) → Stays (buffer_in fuel)
  unfolding buffer_in
  buffer_in-Stays zero s i = tt
  buffer_in-Stays (suc fuel) s i =
      and_then-Ends Unit At ((take_in >>= took) s) _
        (and_then-Ends Unit At (take_in s) took (take_in-Stays s i) took-Stays)
        (looped-Stays (buffer_in fuel) (buffer_in-Stays fuel))

  read_data-Stays : Stays read_data
  unfolding read_data
  read_data-Stays s i =
      let (bytes, rest) = read_to_end s.in_buffer in
      and_then-Ends Unit At _ _ (give-Ends Unit At (from_utf8 p.utf8_error bytes) (set_in rest s) i)
        (λ text t w. give-Ends Unit At _ _ (
          ap (λ z. z ++ unread t.out_buffer)
            (q.message_quiet (evented t.socket) (Message.text text) t.handler t.world)
          ∙ w))

  ended-Stays : (n : ℕ) → Stays (ended n)
  unfolding ended
  ended-Stays n s i = ground (arith, disconnect-Stays s i)

  received-Stays : (n : Option ℕ) → Stays (received n)
  unfolding received
  received-Stays none s i = i
  received-Stays (some n) s i =
      and_then-Ends Unit At (read_data s) _ (read_data-Stays s i) (λ _ t w. ended-Stays n t w)

  pub read-Stays : (fuel : ℕ) → Stays (read fuel)
  unfolding read
  read-Stays fuel s i = ground (
    arith,
    and_then-Ends Unit At (buffer_in fuel s) received (buffer_in-Stays fuel s i) received-Stays,
  )
