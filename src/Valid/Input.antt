-- ===== src/Valid/Input.antt =====
-- Reading keeps the invariant.
use xnet_socket.Base.{
  ℕ, zero, suc, ap, Option, none, some, Str, ok, err, length, length-append, arith, ◌>>=◌,
}
use xnet_socket.Errors.{IoResult}
use xnet_socket.Message.{from_utf8}
use xnet_socket.Platform.{Platform, Lawful}
use xnet_socket.Handler.{Handler}
use xnet_socket.Buffer.{Vec, Cursor, read_to_end}
use xnet_socket.Buffer.Fits.{Fits, length-unread}
use xnet_socket.Stream.{try_read_buf}
use xnet_socket.Stream.Transfers.{Fills, try_read_buf-Fills}
use xnet_socket.Connection.{
  Live, Method, Round, again, return, looped, set_in, take_in, took, buffer_in, read_data, ended,
  received, read,
}
use xnet_socket.Valid.Rooms.{renewed-Renews}
use xnet_socket.Valid.Closing.{disconnect-Keeps}
use xnet_socket.Valid.Invariant.{IsValid, Keeps, Never, and_then-Ends, give_io-Ends, give-Ends}

Fills-Fits :
    (c : Cursor) (answer : IoResult Str) (res : IoResult (Option ℕ)) (v : Vec)
    → Fills c.inner answer res v
    → Fits c
    → Fits (record c { inner = v })
Fills-Fits c (ok d) res v (_, e, m) f = omega (arith, f, ap length e, length-append c.inner.bytes d)
Fills-Fits c (err e) res v (_, b, m) f = omega (arith, f, ap length b)

pub with_in :
    {p : Platform} {h : Handler p} (s : Live p h) (c : Cursor)
    → IsValid s.conn
    → Fits c
    → IsValid (set_in c s).conn
with_in s c v f = record {
  entered = v.entered;
  client_open = v.client_open;
  in_fits = f;
  out_fits = v.out_fits;
}

module _ {p : Platform} {h : Handler p} (l : Lawful p) where
  pub take_in-Keeps : Keeps {p = p} {h = h} Never take_in
  unfolding take_in
  take_in-Keeps s v =
      let (res, b, w) = try_read_buf p s.socket s.in_buffer.inner s.world in
      give_io-Ends ⊥ (λ t. IsValid t.conn) res
        (record (set_in (record s.in_buffer { inner = b }) s) { world = w })
        (with_in s _ v (
          Fills-Fits s.in_buffer _ res b (try_read_buf-Fills l s.socket s.in_buffer.inner s.world)
            v.in_fits))

  pub took-Keeps : (n : Option ℕ) → Keeps {p = p} {h = h} Never (took n)
  unfolding took
  took-Keeps none s v = v
  took-Keeps (some n) s v = ground (
    arith,
    renewed-Renews p.grown l.grown_fits s.settings.in_buffer_grow s.settings.in_buffer_capacity
        s.in_buffer v.in_fits,
  )

  looped-Keeps :
      (rounds : Method p h (Option ℕ))
      → Keeps Never rounds
      → (r : Round) → Keeps Never (looped rounds r)
  looped-Keeps rounds keeps again s v = keeps s v
  looped-Keeps rounds keeps (return n) s v = v

  pub buffer_in-Keeps : (fuel : ℕ) → Keeps {p = p} {h = h} Never (buffer_in fuel)
  unfolding buffer_in
  buffer_in-Keeps zero s v = tt
  buffer_in-Keeps (suc fuel) s v =
      and_then-Ends ⊥ (λ t. IsValid t.conn) ((take_in >>= took) s) _
        (and_then-Ends ⊥ (λ t. IsValid t.conn) (take_in s) took (take_in-Keeps s v) took-Keeps)
        (looped-Keeps (buffer_in fuel) (buffer_in-Keeps fuel))

  read_data-Keeps : Keeps {p = p} {h = h} Never read_data
  unfolding read_data
  read_data-Keeps s v =
      let (bytes, rest) = read_to_end s.in_buffer in
      and_then-Ends ⊥ (λ t. IsValid t.conn) _ _
        (give-Ends ⊥ (λ t. IsValid t.conn) (from_utf8 p.utf8_error bytes) (set_in rest s)
          (with_in s rest v (omega (arith, v.in_fits, length-unread s.in_buffer))))
        (λ text t w.
          give-Ends ⊥ (λ t. IsValid t.conn) _ _
            (record {
              entered = w.entered;
              client_open = w.client_open;
              in_fits = w.in_fits;
              out_fits = w.out_fits;
            }))

  ended-Keeps : (n : ℕ) → Keeps {p = p} {h = h} Never (ended n)
  unfolding ended
  ended-Keeps n s v = ground (arith, disconnect-Keeps s v)

  received-Keeps : (n : Option ℕ) → Keeps {p = p} {h = h} Never (received n)
  unfolding received
  received-Keeps none s v = v
  received-Keeps (some n) s v =
      and_then-Ends ⊥ (λ t. IsValid t.conn) (read_data s) _ (read_data-Keeps s v)
        (λ _ t w. ended-Keeps n t w)

  read_in-Keeps : (fuel : ℕ) → Keeps {p = p} {h = h} Never (buffer_in fuel >>= received)
  read_in-Keeps fuel s v =
      and_then-Ends ⊥ (λ t. IsValid t.conn) (buffer_in fuel s) received (buffer_in-Keeps fuel s v)
        received-Keeps

  pub read-Keeps : (fuel : ℕ) → Keeps {p = p} {h = h} Never (read fuel)
  unfolding read
  read-Keeps fuel s v = ground (arith, read_in-Keeps fuel s v)
