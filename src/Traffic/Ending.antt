-- ===== src/Traffic/Ending.antt =====
-- The end of the peer's stream, and a buffer that is filled to its end: what is not noticed.
use xnet_socket.Base.{
  ℕ, suc, ◌≡◌, ◌≢◌, refl, sym, subst, ap, ◌∙◌, false, [], some, ok, length, done, arith, append-nil,
}
use xnet_socket.Message.{from_utf8}
use xnet_socket.Buffer.{cursor_length, read_to_end}
use xnet_socket.Platform.{Platform, Lawful}
use xnet_socket.Handler.{Handler}
use xnet_socket.Stream.{evented, try_read_buf}
use xnet_socket.Stream.Transfers.{never_negotiating, Fills, try_read_buf-Fills}
use xnet_socket.Connection.{
  is_connecting, Live, set_in, take_in, took, buffer_in, read_data, ended, received, read,
}
use xnet_socket.Valid.Invariant.{Ends, and_then-Ends, give-Ends}

module _ {p : Platform} {h : Handler p} where
  -- The interest in events, and the state, are what they were.
  abbrev pub SameWatch : Live p h → Live p h → Type 0
  SameWatch s t = (t.events ≡ s.events) × (t.state ≡ s.state)

  -- The state after `try_read_buf`.
  abbrev after_take : Live p h → Live p h
  after_take s =
      let (res, v, w) = try_read_buf p s.socket s.in_buffer.inner s.world in
      record (set_in (record s.in_buffer { inner = v }) s) { world = w }

  read_data-SameWatch : (s : Live p h) → Ends ⊥ (SameWatch s) (read_data s)
  unfolding read_data
  read_data-SameWatch s =
      let (bytes, rest) = read_to_end s.in_buffer in
      and_then-Ends ⊥ (SameWatch s) _ _
        (give-Ends ⊥ (SameWatch s) (from_utf8 p.utf8_error bytes) (set_in rest s) (refl, refl))
        (λ text t w. give-Ends ⊥ (SameWatch s) _ _ w)

  received-SameWatch :
      (s t : Live p h) (n : ℕ) → n ≢ 0 → SameWatch s t → Ends ⊥ (SameWatch s) (received (some n) t)
  unfolding received ended
  received-SameWatch s t n more (e, q) =
      and_then-Ends ⊥ (SameWatch s) (read_data t) _ (rw (← e, ← q) (read_data-SameWatch t))
        (λ _ u w. ground arith)

module _ {p : Platform} {h : Handler p} (l : Lawful p) where
  empty_take :
      (fuel : ℕ) (s : Live p h)
      → (p.tcp_read (evented s.socket) (p.window s.in_buffer.inner) s.world).0 ≡ ok []
      → (buffer_in (suc fuel) s
          ≡ done (some (cursor_length (after_take s).in_buffer)) (after_take s))
        × (cursor_length (after_take s).in_buffer ≡ cursor_length s.in_buffer)
  unfolding buffer_in take_in took
  empty_take fuel s e =
      let res = (try_read_buf p s.socket s.in_buffer.inner s.world).0 in
      let v = (try_read_buf p s.socket s.in_buffer.inner s.world).1 in
      let (r, b, _) =
        subst (λ a. Fills s.in_buffer.inner a res v) e
          (try_read_buf-Fills l s.socket s.in_buffer.inner s.world) in
      (rw (r, take_in) refl, ap length (b ∙ append-nil s.in_buffer.inner.bytes))

  -- A peer that closes its end is not noticed once any byte has been received: reading the end of
  -- the stream of a connection past connecting, with bytes in its input buffer, returns with the
  -- interest in events and the state that it had, so the connection is not closed.
  pub eof_unseen :
      (fuel : ℕ) (s : Live p h)
      → is_connecting s.state ≡ false
      → cursor_length s.in_buffer ≢ 0
      → (p.tcp_read (evented s.socket) (p.window s.in_buffer.inner) s.world).0 ≡ ok []
      → Ends ⊥ (SameWatch s) (read (suc fuel) s)
  unfolding read
  eof_unseen fuel s ready some_bytes e =
      let (r, n) = empty_take fuel s e in
      rw (never_negotiating s.socket, ready)
        (rw r (received-SameWatch s (after_take s) _ (λ z. some_bytes (sym n ∙ z)) (refl, refl)))
