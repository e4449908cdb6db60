-- ===== src/Traffic/Sending.antt =====
-- A message goes to the end of what is to be written.
use xnet_socket.Base.{
  ◌<◌, ◌≡◌, refl, sym, subst, ap, ◌∙◌, true, false, ◌||◌, Str, str, ◌++◌, ltb, length, done, fail,
  panic, out_of_fuel, Outcome, and_then, arith,
}
use xnet_socket.Errors.{Error, Kind, new_error}
use xnet_socket.Buffer.{unread, cursor_length}
use xnet_socket.Buffer.Fits.{Fits, length-unread, unread-appended}
use xnet_socket.Message.{Message, into_data}
use xnet_socket.Platform.{Platform, Lawful}
use xnet_socket.Handler.{Handler}
use xnet_socket.Connection.{
  is_connecting, is_closing, Live, set_events, set_out, check_events, watched, check_buffer_out,
  appended, buffered, send_message,
}
use xnet_socket.Valid.Rooms.{renewed-Renews}
use xnet_socket.Traffic.Interest.{check_events_lem}

module _ {p : Platform} {h : Handler p} where
  -- Room was made: what is unread is the same, and so is all else; or there may be none.
  abbrev pub Rooms : Live p h → Outcome (Live p h) Error (Unit {0}) → Type 0
  Rooms s (done _ t) =
      (unread t.out_buffer ≡ unread s.out_buffer) × Fits t.out_buffer × (t ≡ set_out t.out_buffer s)
  Rooms s (fail e t) =
      (t ≡ s)
      × (e ≡ new_error Kind.capacity (str "Maxed out output buffer for connection."))
      × (s.settings.out_buffer_grow ≡ false)
      × (s.out_buffer.position ≡ 0)
      × (cursor_length s.out_buffer ≡ s.out_buffer.inner.capacity)
  Rooms s panic = ⊥
  Rooms s out_of_fuel = ⊥

  -- The bytes are behind what was to be written; nothing else but the interest in events has
  -- changed, which has become reading, and writing where bytes are left to write. Or the call was
  -- refused, and nothing has changed: growth is off, and unwritten bytes fill the buffer.
  abbrev pub Sends : Live p h → Str → Outcome (Live p h) Error (Unit {0}) → Type 0
  Sends s bytes (done _ t) =
      (unread t.out_buffer ≡ unread s.out_buffer ++ bytes)
      × (t ≡ set_events t.events (set_out t.out_buffer s))
      × (p.is_readable t.events ≡ true)
      × (p.is_writable t.events
          ≡ p.is_writable s.events || ltb t.out_buffer.position (cursor_length t.out_buffer))
  Sends s bytes (fail e t) = Rooms s (fail e t)
  Sends s bytes panic = ⊥
  Sends s bytes out_of_fuel = ⊥

module _ {p : Platform} {h : Handler p} (l : Lawful p) where
  pub check_buffer_out-Rooms :
      (s : Live p h) (frame : Str) → Fits s.out_buffer → Rooms s (check_buffer_out frame s)
  unfolding check_buffer_out
  check_buffer_out-Rooms s frame f = ground (
    arith,
    renewed-Renews p.grown l.grown_fits s.settings.out_buffer_grow s.settings.out_buffer_capacity
        s.out_buffer f,
  )

  then_buffered :
      (s : Live p h) (bytes : Str) (r : Outcome (Live p h) Error (Unit {0}))
      → is_connecting s.state ≡ false
      → Rooms s r
      → Sends s bytes
          (and_then r (λ _ t. check_events (set_out (appended p.grown bytes t.out_buffer) t)))
  unfolding appended
  then_buffered s bytes (done _ t) ready (same, f, e) =
      let u = set_out (appended p.grown bytes t.out_buffer) t in
      let (c, r, w, k) =
        check_events_lem l u (subst (λ x. is_connecting x.state ≡ false) (sym e) ready) in
      let left = ltb u.out_buffer.position (cursor_length u.out_buffer) in
      rw c (
        rw k (
          unread-appended p.grown bytes t.out_buffer f ∙ ap (λ z. z ++ bytes) same,
          ap (λ x. set_events (watched u).events (set_out u.out_buffer x)) e,
          r,
          w ∙ ap (λ x. p.is_writable x.events || left) e,
        ))
  then_buffered s bytes (fail e t) ready r = r
  then_buffered s bytes panic ready r = r
  then_buffered s bytes out_of_fuel ready r = r

  buffered-Sends :
      (s : Live p h) (m : Message)
      → is_connecting s.state ≡ false
      → Fits s.out_buffer
      → Sends s (into_data m) (buffered m s)
  unfolding buffered
  buffered-Sends s m ready f =
      then_buffered s (into_data m) (check_buffer_out (into_data m) s) ready
        (check_buffer_out-Rooms s (into_data m) f)

  -- A message that is sent on a connection past connecting and not closing goes, byte for byte, to
  -- the end of what is to be written. The connection then asks for reading, and asks for writing
  -- where it did or where bytes are left to write; nothing else changes. The only refusal is the
  -- capacity error, which changes nothing, and comes only where growth is off, nothing of the buffer
  -- has been written out, and its bytes fill it.
  pub send_message-Sends :
      (s : Live p h) (m : Message)
      → is_connecting s.state ≡ false
      → is_closing s.state ≡ false
      → Fits s.out_buffer
      → Sends s (into_data m) (send_message m s)
  unfolding send_message
  send_message-Sends s m ready stays f = rw stays (buffered-Sends s m ready f)

  -- Whatever the setting for growth, a message of any length is taken by a connection past
  -- connecting and not closing whose unwritten bytes do not fill its output buffer: the whole
  -- message is behind them, so the setting bounds nothing.
  pub send_message_unbounded :
      (s : Live p h) (m : Message)
      → is_connecting s.state ≡ false
      → is_closing s.state ≡ false
      → Fits s.out_buffer
      → length (unread s.out_buffer) < s.out_buffer.inner.capacity
      → (t : Live p h) × (send_message m s ≡ done tt t)
        × (unread t.out_buffer ≡ unread s.out_buffer ++ into_data m)
  send_message_unbounded s m ready stays f less =
      taken (send_message m s) refl (send_message-Sends s m ready stays f)
    where
      taken :
          (o : Outcome (Live p h) Error (Unit {0}))
          → send_message m s ≡ o
          → Sends s (into_data m) o
          → (t : Live p h) × (send_message m s ≡ done tt t)
            × (unread t.out_buffer ≡ unread s.out_buffer ++ into_data m)
      taken (done u t) e r = (t, e, r.0)
      taken (fail x t) e r = absurd (omega (arith, length-unread s.out_buffer, less, r))
      taken panic e r = absurd r
      taken out_of_fuel e r = absurd r
