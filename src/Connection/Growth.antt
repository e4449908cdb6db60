-- ===== src/Connection/Growth.antt =====
-- src/connection.rs, lines 517 to 526 and 541 to 550: the two copies of the code that makes room in
-- a buffer.
use xnet_socket.Base.{ℕ, Bool, Str, none, some, length, ◌==◌, if◌then◌else◌}
use xnet_socket.Buffer.{Cursor, with_capacity, new_cursor, unread_slice, reserve, extend}

-- What the code comes to: a new cursor, the error "Maxed out", or a panic of the slice.
pub data Renewal : Type 0 where
  fresh : Cursor → Renewal
  maxed_out : Renewal
  out_of_range : Renewal

module _ (grown : ℕ → ℕ → ℕ) (may_grow : Bool) (more : ℕ) where
  -- A new vector of the old capacity with the unread bytes; it grows if they fill it.
  repacked : ℕ → Str → Renewal
  repacked capacity bytes =
      let new = extend grown bytes (with_capacity capacity) in
      if length new.bytes == new.capacity
      then (if may_grow then fresh (new_cursor (reserve grown more new)) else maxed_out)
      else fresh (new_cursor new)

  unfoldable pub renewed : Cursor → Renewal
  unfolding repacked
  renewed c = elim (unread_slice c) [
    | none ↦ out_of_range
    | some bytes ↦ repacked c.inner.capacity bytes
  ]
