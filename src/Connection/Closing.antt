-- ===== src/Connection/Closing.antt =====
-- src/connection.rs: what the connection waits for, closing it, and what an error does to it.
use xnet_socket.Base.{
  ℕ, Bool, true, false, Str, str, ◌++◌, ltb, if◌then◌else◌, done, panic, pure, ◌>>=◌, ◌>>◌, or_else,
  ◌∷◌, [],
}
use xnet_socket.Errors.{Error, Kind, display}
use xnet_socket.Buffer.{Cursor, cursor_length, clear, extend}
use xnet_socket.Protocol.{CloseCode}
use xnet_socket.Platform.{Platform}
use xnet_socket.Handler.{Handler}
use xnet_socket.Connection.Fields.{
  State, Endpoint, is_connecting, Live, Method, set_state, set_events, insert_event, remove_event,
  step, call_error, call_close, call_shutdown,
}

closes_silently : State → Bool
closes_silently State.responding_close = true
closes_silently State.finished_close = true
closes_silently (State.connecting req res) = true
closes_silently _ = false

failure_line : Kind → Str
failure_line Kind.protocol = str "Bad Request"
failure_line _ = str "Internal Server Error"

-- "\r\n\r\n".
abbrev blank_line : Str
blank_line = 13 ∷ 10 ∷ 13 ∷ 10 ∷ []

-- The text that a server leaves in its response buffer; `write!` to a vector cannot fail.
response : (ℕ → ℕ → ℕ) → Kind → Error → Cursor → Cursor
unfolding failure_line
response grown kind e res = record res {
  inner = extend grown (failure_line kind ++ (blank_line ++ display e)) (clear res.inner);
}

module _ {p : Platform} {h : Handler p} where
  -- `&mut self` without a result, and without an early return.
  unfoldable pub watched : Live p h → Live p h
  unfolding is_connecting
  watched s =
      if is_connecting s.state
      then s
      else let t = insert_event p.readable s in
        if ltb t.out_buffer.position (cursor_length t.out_buffer)
        then insert_event p.writable t
        else t

  unfoldable pub check_events : Method p h (Unit {0})
  unfolding watched
  check_events = step watched

  announced : State → Method p h (Unit {0})
  unfolding closes_silently
  announced q = if closes_silently q then pure tt else call_close CloseCode.abnormal (str "")

  unfoldable pub disconnect : Method p h (Unit {0})
  unfolding announced
  disconnect = do q ← λ s. done s.state s; announced q; step (set_events p.none_ready)

  -- The reason is only logged: no frame is written.
  unfoldable pub send_close : CloseCode → Str → Method p h (Unit {0})
  unfolding check_events
  send_close code reason s = elim s.state [
    | State.responding_close ↦ check_events (set_state State.finished_close s)
    | State.awaiting_close ↦ check_events s
    | State.finished_close ↦ check_events s
    | State.opened ↦ check_events (set_state State.awaiting_close s)
    | State.connecting req res ↦ if p.debug_assertions then panic else check_events s
  ]

  -- `on_error`, then a close with the error as its reason.
  report_and_close : CloseCode → Error → Method p h (Unit {0})
  report_and_close code e = do
    call_error e
    λ s. or_else (send_close code (display e) s) (λ e'. call_error e' >> disconnect)

  report_and_disconnect : Error → Method p h (Unit {0})
  report_and_disconnect e = call_error e >> disconnect

  abbrev unless : Bool → Method p h (Unit {0}) → Method p h (Unit {0})
  unless flag m s = if flag then panic else m s

  -- The match on the kind of an error of a connection that is not connecting.
  unfoldable pub error_established : Kind → Error → Method p h (Unit {0})
  unfolding report_and_close report_and_disconnect
  error_established Kind.internal e s =
      unless s.settings.panic_on_internal (report_and_close CloseCode.error e) s
  error_established Kind.capacity e s =
      unless s.settings.panic_on_capacity (report_and_close CloseCode.size e) s
  error_established Kind.protocol e s =
      unless s.settings.panic_on_protocol (report_and_close CloseCode.protocol e) s
  error_established (Kind.encoding _) e s =
      unless s.settings.panic_on_encoding (report_and_close CloseCode.invalid e) s
  error_established (Kind.http _) e s = report_and_disconnect e s
  error_established (Kind.custom _) e s = call_error e s
  error_established (Kind.timer _) e s = unless s.settings.panic_on_timeout (call_error e) s
  error_established (Kind.queue _) e s = unless s.settings.panic_on_queue (call_error e) s
  error_established (Kind.io _) e s = unless s.settings.panic_on_io (report_and_disconnect e) s

  refused : Endpoint → Cursor → Cursor → Error → Live p h → Live p h
  unfolding response
  refused Endpoint.server req res e s =
      insert_event p.writable (
        remove_event p.readable
          (set_state (State.connecting req (response p.grown e.kind e res)) s))
  refused (Endpoint.client url) req res e s = set_events p.none_ready s

  -- The branch of a connection that is still connecting.
  unfoldable pub error_connecting : Cursor → Cursor → Error → Method p h (Unit {0})
  unfolding refused
  error_connecting req res e = do call_error e; λ s. done tt (refused s.endpoint req res e s)

  unfoldable pub error : Error → Method p h (Unit {0})
  unfolding error_connecting error_established
  error e s = elim s.state [
    | State.connecting req res ↦ error_connecting req res e s
    | _ ↦ error_established e.kind e s
  ]

  unfoldable pub shutdown : Method p h (Unit {0})
  shutdown = do
    call_shutdown
    λ s.
        or_else (send_close CloseCode.away (str "Shutting down.") s)
          (λ e. call_error e >> disconnect)
