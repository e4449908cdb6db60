-- ===== src/Buffer/Fits.antt =====
-- Cursors whose position lies within their bytes, and whose bytes lie within their capacity.
use xnet_socket.Base.{
  ℕ, ◌+◌, ◌-◌, ◌≤◌, ◌≡◌, refl, Str, ◌++◌, append-nil, some, length, length-append, length-drop,
  drop-append, drop_past, take-length, arith,
}
use xnet_socket.Buffer.{Cursor, cursor_length, unread, unread_slice, seek_end, seek_start, write_at}

pub record Fits (c : Cursor) : Type 0 where
  pub position_in : c.position ≤ cursor_length c
  pub within_capacity : cursor_length c ≤ c.inner.capacity

pub unread_slice-some : (c : Cursor) → Fits c → unread_slice c ≡ some (unread c)
unread_slice-some c f = ground arith

pub length-unread : (c : Cursor) → length (unread c) ≡ cursor_length c - c.position
length-unread c = length-drop c.position c.inner.bytes

module _ (grown : ℕ → ℕ → ℕ) (xs : Str) (c : Cursor) where
  -- At the end, `write` appends.
  pub write_at_end : (write_at grown xs (seek_end c)).inner.bytes ≡ c.inner.bytes ++ xs
  write_at_end =
      rw
        (
          take-length c.inner.bytes,
          drop_past (cursor_length c + length xs) c.inner.bytes (omega arith),
          append-nil,
        )
        refl

  pub unread-appended :
      Fits c → unread (seek_start c.position (write_at grown xs (seek_end c))) ≡ unread c ++ xs
  unread-appended f = rw write_at_end (drop-append c.position c.inner.bytes xs f.position_in)

  pub appended-Fits :
      ((old need : ℕ) → need ≤ grown old need)
      → Fits c
      → Fits (seek_start c.position (write_at grown xs (seek_end c)))
  appended-Fits grown_fits f = record {
    position_in = rw write_at_end (omega (arith, f, length-append c.inner.bytes xs));
    within_capacity = rw write_at_end (
        ground (
          arith,
          length-append c.inner.bytes xs,
          grown_fits c.inner.capacity (cursor_length c + length xs),
        ));
  }
