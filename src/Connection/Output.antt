-- ===== src/Connection/Output.antt =====
-- src/connection.rs: messages into the output buffer, and the output buffer onto the socket.
use xnet_socket.Base.{
  ℕ, ◌+◌, Str, str, Bool, true, false, Option, none, some, length, leb, ◌==◌, not, ◌&&◌,
  if◌then◌else◌, done, fail, panic, pure, ◌>>=◌, ◌>>◌,
}
use xnet_socket.Errors.{Kind, new_error}
use xnet_socket.Buffer.{Cursor, cursor_length, seek_end, seek_start, write_at}
use xnet_socket.Message.{Message, into_data}
use xnet_socket.Platform.{Platform}
use xnet_socket.Handler.{Handler}
use xnet_socket.Stream.{is_negotiating, clear_negotiating, try_write_buf}
use xnet_socket.Connection.Fields.{
  State, Endpoint, is_connecting, is_closing, is_server, Live, Method, set_out, set_events,
  insert_event, remove_event, give, give_io, step,
}
use xnet_socket.Connection.Closing.{check_events}
use xnet_socket.Connection.Growth.{Renewal, fresh, maxed_out, out_of_range, renewed}

-- Seeks to the end, writes, and seeks back; none of these fails on a vector.
unfoldable pub appended : (ℕ → ℕ → ℕ) → Str → Cursor → Cursor
appended grown bytes c = seek_start c.position (write_at grown bytes (seek_end c))

-- `FinishedClose if self.is_server()`.
closes_after_write : State → Endpoint → Bool
closes_after_write State.finished_close e = is_server e
closes_after_write _ e = false

module _ {p : Platform} {h : Handler p} where
  abbrev replace_out : Renewal → Method p h (Unit {0})
  replace_out (fresh c) s = done tt (set_out c s)
  replace_out maxed_out s =
      fail (new_error Kind.capacity (str "Maxed out output buffer for connection.")) s
  replace_out out_of_range s = panic

  unfoldable pub check_buffer_out : Str → Method p h (Unit {0})
  check_buffer_out frame s =
      let out = s.out_buffer in
      let settings = s.settings in
      if leb out.inner.capacity (cursor_length out + length frame)
      then replace_out (renewed p.grown settings.out_buffer_grow settings.out_buffer_capacity out) s
      else done tt s

  unfoldable pub buffered : Message → Method p h (Unit {0})
  buffered msg = do
    let bytes = into_data msg
    check_buffer_out bytes
    step λ s. set_out (appended p.grown bytes s.out_buffer) s
    check_events

  unfoldable pub send_message : Message → Method p h (Unit {0})
  unfolding buffered
  send_message msg s = if is_closing s.state then done tt s else buffered msg s

  -- After the socket took some bytes, or would have blocked; `true` is the early return.
  unfoldable pub wrote : Option ℕ → Method p h Bool
  unfolding closes_after_write
  wrote none s = (check_events >> pure false) s
  wrote (some n) s =
      if n == 0 && closes_after_write s.state s.endpoint
      then done true (set_events p.none_ready s)
      else (check_events >> pure false) s

  unfoldable pub put_out : Method p h (Option ℕ)
  put_out s =
      let (res, out, w) = try_write_buf p s.socket s.out_buffer s.world in
      give_io res (record (set_out out s) { world = w })

  unfoldable pub write_out : Method p h Bool
  write_out s =
      if is_connecting s.state
      then fail (new_error Kind.internal (str "connect state not change")) s
      else (step (remove_event p.writable) >> (put_out >>= wrote)) s

  -- A stream that still negotiates waits for bytes to read, unless `write` has returned already.
  unfoldable pub renegotiated : Bool → Live p h → Live p h
  renegotiated early s =
      if not early && is_negotiating s.socket
      then insert_event p.readable (remove_event p.writable s)
      else s

  unfoldable pub write : Method p h (Unit {0})
  unfolding renegotiated
  write s =
      if is_negotiating s.socket
      then give (clear_negotiating s.socket) s
      else (write_out >>= λ early. step (renegotiated early)) s
