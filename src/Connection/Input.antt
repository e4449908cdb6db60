-- ===== src/Connection/Input.antt =====
-- src/connection.rs: the socket into the input buffer, and the input buffer to the handler.
use xnet_socket.Base.{
  ℕ, zero, suc, str, Option, none, some, ◌==◌, if◌then◌else◌, done, fail, panic, out_of_fuel, pure,
  and_then, ◌>>=◌, ◌>>◌,
}
use xnet_socket.Errors.{Kind, new_error}
use xnet_socket.Buffer.{cursor_length, read_to_end}
use xnet_socket.Message.{Message, from_utf8}
use xnet_socket.Platform.{Platform}
use xnet_socket.Handler.{Handler}
use xnet_socket.Stream.{is_negotiating, clear_negotiating, try_read_buf}
use xnet_socket.Connection.Fields.{
  is_connecting, Method, set_in, remove_event, give, give_io, call_message,
}
use xnet_socket.Connection.Closing.{disconnect}
use xnet_socket.Connection.Growth.{Renewal, fresh, maxed_out, out_of_range, renewed}

-- What a round of the loop of `buffer_in` decides.
pub data Round : Type 0 where
  again : Round
  return : Option ℕ → Round

module _ {p : Platform} {h : Handler p} where
  abbrev pub replace_in : Renewal → Method p h Round
  replace_in (fresh c) s = done again (set_in c s)
  replace_in maxed_out s =
      fail (new_error Kind.capacity (str "Maxed out input buffer for connection")) s
  replace_in out_of_range s = panic

  unfoldable pub take_in : Method p h (Option ℕ)
  take_in s =
      let (res, v, w) = try_read_buf p s.socket s.in_buffer.inner s.world in
      give_io res (record (set_in (record s.in_buffer { inner = v }) s) { world = w })

  -- The body of the loop, after `try_read_buf` has given its count.
  unfoldable pub took : Option ℕ → Method p h Round
  took none s = done (return none) s
  took (some n) s =
      let total = cursor_length s.in_buffer in
      let settings = s.settings in
      if n == 0
      then done (return (some total)) s
      else if total == s.in_buffer.inner.capacity
      then replace_in
          (renewed p.grown settings.in_buffer_grow settings.in_buffer_capacity s.in_buffer) s
      else done (return (some total)) s

  -- The next rounds, unless this one returns.
  abbrev pub looped : Method p h (Option ℕ) → Round → Method p h (Option ℕ)
  looped rounds again = rounds
  looped rounds (return n) = pure n

  unfoldable pub buffer_in : (fuel : ℕ) → Method p h (Option ℕ)
  buffer_in zero s = out_of_fuel
  buffer_in (suc fuel) s = and_then ((take_in >>= took) s) (looped (buffer_in fuel))

  unfoldable pub read_data : Method p h (Unit {0})
  read_data s =
      let (bytes, rest) = read_to_end s.in_buffer in
      (give (from_utf8 p.utf8_error bytes) >>= λ text. call_message (Message.text text))
        (set_in rest s)

  -- After the handler has had its message: a length of zero means that the peer has closed.
  unfoldable pub ended : ℕ → Method p h (Unit {0})
  ended n s =
      if n == 0
      then (if p.is_writable s.events then done tt (remove_event p.readable s) else disconnect s)
      else done tt s

  unfoldable pub received : Option ℕ → Method p h (Unit {0})
  unfolding ended
  received none = pure tt
  received (some n) = read_data >> ended n

  unfoldable pub read : (fuel : ℕ) → Method p h (Unit {0})
  unfolding received
  read fuel s =
      if is_negotiating s.socket
      then give (clear_negotiating s.socket) s
      else if is_connecting s.state
      then fail (new_error Kind.internal (str "connect state not change")) s
      else (buffer_in fuel >>= received) s
