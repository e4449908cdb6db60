-- ===== src/Stream/Transfers.antt =====
-- src/stream.rs: what a read and a write that do not block return, and leave in the buffers.
use xnet_socket.Base.{
  ℕ, ◌+◌, ◌≤◌, ◌≡◌, ◌≢◌, ◌⊎◌, refl, sym, ◌∙◌, ap, ◌++◌, false, Option, none, some, Str, ok, err,
  length, take, take-append-drop, drop-drop, length-append, arith,
}
use xnet_socket.Errors.{IoKind, IoError, IoResult}
use xnet_socket.Buffer.{Vec, Cursor, unread}
use xnet_socket.Platform.{Platform, Lawful}
use xnet_socket.Stream.{
  Stream, evented, tcp, is_negotiating, filled, drained, map_non_block, try_read_buf, try_write_buf,
}

-- A TCP stream negotiates nothing.
pub never_negotiating : {Socket : Type 0} (s : Stream Socket) → is_negotiating s ≡ false
unfolding is_negotiating
never_negotiating (tcp sock) = refl

-- An error that only says that the call would block is no error; any other is passed on.
abbrev pub Refuses : {A : Type 0} → IoError → IoResult (Option A) → Type 0
Refuses e res =
    ((e.kind ≡ IoKind.would_block) × (res ≡ ok none))
    ⊎ ((e.kind ≢ IoKind.would_block) × (res ≡ err e))

-- By the socket's answer: the bytes that it took are gone from the front of what was to be written,
-- and are counted; or nothing in the buffer has changed.
abbrev pub Drains : Cursor → IoResult ℕ → IoResult (Option ℕ) → Cursor → Type 0
Drains c (ok n) res c' =
    (res ≡ ok (some n))
    × (unread c ≡ take n (unread c) ++ unread c')
    × (n ≤ length (unread c))
    × (c' ≡ record c { position = c.position + n })
Drains c (err e) res c' = Refuses e res × (c' ≡ c)

-- By the socket's answer: the bytes that it gave are behind those that were there, and are counted;
-- or the bytes are the same. All are within the capacity.
abbrev pub Fills : Vec → IoResult Str → IoResult (Option ℕ) → Vec → Type 0
Fills v (ok d) res v' =
    (res ≡ ok (some (length d))) × (v'.bytes ≡ v.bytes ++ d) × (length v'.bytes ≤ v'.capacity)
Fills v (err e) res v' = Refuses e res × (v'.bytes ≡ v.bytes) × (length v'.bytes ≤ v'.capacity)

module _ {p : Platform} (l : Lawful p) where
  after_write :
      (c : Cursor) (r : IoResult ℕ)
      → ((n : ℕ) → r ≡ ok n → n ≤ length (unread c))
      → Drains c r (map_non_block r) (drained p (map_non_block r) c)
  unfolding map_non_block drained
  after_write c (ok n) fits =
      let m = fits n refl in
      rw (l.advance_position c n m) (
        refl,
        sym (take-append-drop n (unread c))
            ∙ ap (λ t. take n (unread c) ++ t) (drop-drop c.position n c.inner.bytes),
        m,
        refl,
      )
  after_write c (err e) fits = ground arith

  -- A write that does not block, by the socket's answer: the bytes that the socket took are gone
  -- from the front of what was to be written, their number is returned, and the vector is the same;
  -- an error leaves the buffer as it was, and is returned unless it is `WouldBlock`, which gives
  -- `None`.
  pub try_write_buf-Drains :
      (s : Stream p.Socket) (c : Cursor) (w : p.World)
      → let answer = (p.tcp_write (evented s) (p.chunk c) w).0 in
        let (res, c', w') = try_write_buf p s c w in Drains c answer res c'
  unfolding try_write_buf evented
  try_write_buf-Drains (tcp sock) c w =
      after_write c (p.tcp_write sock (p.chunk c) w).0
        (λ n e. rw (← ap length (l.chunk_unread c)) (l.write_fits sock (p.chunk c) w n e))

  after_read :
      (v : Vec) (r : IoResult Str)
      → ((d : Str) → r ≡ ok d → length d ≤ p.window v)
      → let (res, v') = filled p (map_non_block r) (p.bytes_mut v) in Fills v r res v'
  unfolding map_non_block filled
  after_read v (ok d) fits =
      let m = fits d refl in
      (
        refl,
        l.advance_mut_bytes v d m,
        rw (l.advance_mut_capacity v d m, l.advance_mut_bytes v d m)
            (omega (arith, length-append v.bytes d, l.window_fits v)),
      )
  after_read v (err e) fits =
      ground (arith, l.bytes_mut_bytes v, l.window_fits v, ap length (l.bytes_mut_bytes v))

  -- A read that does not block, by the socket's answer: the bytes that the socket gave are appended
  -- to the vector and counted; an error leaves the bytes as they were, and is returned unless it is
  -- `WouldBlock`, which gives `None`. The bytes stay within the vector's capacity.
  pub try_read_buf-Fills :
      (s : Stream p.Socket) (v : Vec) (w : p.World)
      → let answer = (p.tcp_read (evented s) (p.window v) w).0 in
        let (res, v', w') = try_read_buf p s v w in Fills v answer res v'
  unfolding try_read_buf evented
  try_read_buf-Fills (tcp sock) v w =
      after_read v (p.tcp_read sock (p.window v) w).0 (λ d e. l.read_fits sock (p.window v) w d e)
