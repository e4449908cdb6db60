-- ===== src/Traffic/Interest.antt =====
-- What a connection asks the poll to watch for.
use xnet_socket.Base.{◌≡◌, true, false, ◌||◌, ltb, done, arith}
use xnet_socket.Buffer.{cursor_length}
use xnet_socket.Platform.{Platform, Lawful}
use xnet_socket.Handler.{Handler}
use xnet_socket.Connection.{is_connecting, Live, set_events, check_events, watched}

module _ {p : Platform} {h : Handler p} (l : Lawful p) where
  -- `check_events` of a connection past connecting always asks for reading, and asks for writing
  -- where bytes are left to write; it never takes a request back.
  pub check_events_lem :
      (s : Live p h)
      → is_connecting s.state ≡ false
      → let t = watched s in
        (check_events s ≡ done tt t)
        × (p.is_readable t.events ≡ true)
        × (p.is_writable t.events
            ≡ p.is_writable s.events || ltb s.out_buffer.position (cursor_length s.out_buffer))
        × (t ≡ set_events t.events s)
  unfolding check_events watched
  check_events_lem s e = ground (
    arith,
    l.insert_readable s.events p.readable,
    l.insert_writable s.events p.readable,
    l.readable_readable,
    l.readable_writable,
    l.writable_writable,
    l.writable_readable,
    l.insert_readable (p.insert s.events p.readable) p.writable,
    l.insert_writable (p.insert s.events p.readable) p.writable,
  )
