-- ===== src/Valid/Names.antt =====
-- What no method of src/connection.rs changes: the token, the connection id and the settings.
use xnet_socket.Base.{ℕ, zero, suc, List, Option, none, some, Str, ◌>>=◌, arith}
use xnet_socket.Errors.{Error, Kind}
use xnet_socket.Protocol.{CloseCode}
use xnet_socket.Settings.{Settings}
use xnet_socket.Message.{Message, into_data, from_utf8}
use xnet_socket.Platform.{Platform}
use xnet_socket.Handler.{Handler}
use xnet_socket.Buffer.{read_to_end}
use xnet_socket.Stream.{try_read_buf, try_write_buf}
use xnet_socket.Connection.{
  Live, Method, open_connection, as_server, as_client, reset, shutdown, new_timeout,
  timeout_triggered, error, disconnect, read, write, send_message, send_close, check_events,
  error_connecting, error_established, Round, again, return, looped, set_in, set_out, take_in, took,
  buffer_in, read_data, ended, received, check_buffer_out, buffered, put_out, wrote, write_out,
  remove_event,
}
use xnet_socket.Valid.Invariant.{Ends, and_then-Ends, give_io-Ends, give-Ends}
use xnet_socket.Valid.History.{
  Call, perform, errs, opens, serves, resets, shuts_down, writes, disconnects, connects, hears,
  times_out, reads, sends, closes,
}

module _ {p : Platform} {h : Handler p} (Q : ℕ → ℕ → Settings → Type 0) where
  abbrev Of : Live p h → Type 0
  Of s = Q s.token s.connection_id s.settings

  -- A method keeps what is said of the three fields alone.
  abbrev Holds : {A : Type 0} → Method p h A → Type 0
  Holds m = (s : Live p h) → Of s → Ends Unit Of (m s)

  check_events-Holds : Holds check_events
  unfolding check_events
  check_events-Holds s i = ground arith

  disconnect-Holds : Holds disconnect
  unfolding disconnect
  disconnect-Holds s i = ground arith

  send_close-Holds : (code : CloseCode) (x : Str) → Holds (send_close code x)
  unfolding send_close
  send_close-Holds code x s i = ground arith

  shutdown-Holds : Holds shutdown
  unfolding shutdown send_close disconnect
  shutdown-Holds s i = ground arith

  established-Holds : (k : Kind) (x : Error) → Holds (error_established k x)
  unfolding error_established send_close disconnect
  established-Holds Kind.internal x s i = ground arith
  established-Holds _ x s i = ground arith

  error-Holds : (x : Error) → Holds (error x)
  unfolding error error_connecting
  error-Holds x s i = ground (arith, established-Holds x.kind x s)

  open_connection-Holds : Holds open_connection
  unfolding open_connection
  open_connection-Holds s i = ground arith

  as_client-Holds : (url : Str) (addrs : List p.Addr) → Holds (as_client url addrs)
  unfolding as_client
  as_client-Holds url addrs s i = ground arith

  reset-Holds : Holds reset
  unfolding reset
  reset-Holds s i = ground arith

  new_timeout-Holds : (event : ℕ) (t : p.Timeout) → Holds (new_timeout event t)
  unfolding new_timeout
  new_timeout-Holds event t s i = ground arith

  timeout_triggered-Holds : (event : ℕ) → Holds (timeout_triggered event)
  unfolding timeout_triggered
  timeout_triggered-Holds event s i = ground arith

  take_in-Holds : Holds take_in
  unfolding take_in
  take_in-Holds s i =
      let (res, b, w) = try_read_buf p s.socket s.in_buffer.inner s.world in
      give_io-Ends Unit Of res (record (set_in (record s.in_buffer { inner = b }) s) { world = w })
        i

  took-Holds : (n : Option ℕ) → Holds (took n)
  unfolding took
  took-Holds none s i = i
  took-Holds (some n) s i = ground arith

  looped-Holds :
      (rounds : Method p h (Option ℕ)) → Holds rounds → (r : Round) → Holds (looped rounds r)
  looped-Holds rounds keeps again s i = keeps s i
  looped-Holds rounds keeps (return n) s i = i

  buffer_in-Holds : (fuel : ℕ) → Holds (buffer_in fuel)
  unfolding buffer_in
  buffer_in-Holds zero s i = tt
  buffer_in-Holds (suc fuel) s i =
      and_then-Ends Unit Of ((take_in >>= took) s) _
        (and_then-Ends Unit Of (take_in s) took (take_in-Holds s i) took-Holds)
        (looped-Holds (buffer_in fuel) (buffer_in-Holds fuel))

  read_data-Holds : Holds read_data
  unfolding read_data
  read_data-Holds s i =
      let (bytes, rest) = read_to_end s.in_buffer in
      and_then-Ends Unit Of _ _ (give-Ends Unit Of (from_utf8 p.utf8_error bytes) (set_in rest s) i)
        (λ text t w. give-Ends Unit Of _ _ w)

  ended-Holds : (n : ℕ) → Holds (ended n)
  unfolding ended
  ended-Holds n s i = ground (arith, disconnect-Holds s i)

  received-Holds : (n : Option ℕ) → Holds (received n)
  unfolding received
  received-Holds none s i = i
  received-Holds (some n) s i =
      and_then-Ends Unit Of (read_data s) _ (read_data-Holds s i) (λ _ t w. ended-Holds n t w)

  read-Holds : (fuel : ℕ) → Holds (read fuel)
  unfolding read
  read-Holds fuel s i = ground (
    arith,
    and_then-Ends Unit Of (buffer_in fuel s) received (buffer_in-Holds fuel s i) received-Holds,
  )

  check_buffer_out-Holds : (frame : Str) → Holds (check_buffer_out frame)
  unfolding check_buffer_out
  check_buffer_out-Holds frame s i = ground arith

  buffered-Holds : (m : Message) → Holds (buffered m)
  unfolding buffered
  buffered-Holds m s i =
      and_then-Ends Unit Of (check_buffer_out (into_data m) s) _
        (check_buffer_out-Holds (into_data m) s i) (λ _ t w. check_events-Holds _ w)

  send_message-Holds : (m : Message) → Holds (send_message m)
  unfolding send_message
  send_message-Holds m s i = ground (arith, buffered-Holds m s i)

  put_out-Holds : Holds put_out
  unfolding put_out
  put_out-Holds s i =
      let (res, c, w) = try_write_buf p s.socket s.out_buffer s.world in
      give_io-Ends Unit Of res (record (set_out c s) { world = w }) i

  wrote-Holds : (n : Option ℕ) → Holds (wrote n)
  unfolding wrote check_events
  wrote-Holds n s i = ground arith

  write_out-Holds : Holds write_out
  unfolding write_out
  write_out-Holds s i = ground (
    arith,
    and_then-Ends Unit Of (put_out (remove_event p.writable s)) wrote
        (put_out-Holds (remove_event p.writable s) i) wrote-Holds,
  )

  write-Holds : Holds write
  unfolding write
  write-Holds s i = ground (arith, write_out-Holds s i)

  pub perform-Holds : (call : Call p) → Holds (perform call)
  unfolding as_server
  perform-Holds opens = open_connection-Holds
  perform-Holds serves = λ s i. i
  perform-Holds resets = reset-Holds
  perform-Holds shuts_down = shutdown-Holds
  perform-Holds writes = write-Holds
  perform-Holds disconnects = disconnect-Holds
  perform-Holds (connects url addrs) = as_client-Holds url addrs
  perform-Holds (hears event timeout) = new_timeout-Holds event timeout
  perform-Holds (times_out event) = timeout_triggered-Holds event
  perform-Holds (errs e) = error-Holds e
  perform-Holds (reads fuel) = read-Holds fuel
  perform-Holds (sends m) = send_message-Holds m
  perform-Holds (closes code reason) = send_close-Holds code reason
