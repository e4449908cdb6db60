-- ===== src/Valid/Rooms.antt =====
-- Making room in a buffer keeps what is unread.
use xnet_socket.Base.{ℕ, ◌+◌, ◌≤◌, ◌≡◌, Bool, false, length, arith}
use xnet_socket.Buffer.{Cursor, cursor_length, unread}
use xnet_socket.Buffer.Fits.{Fits, length-unread, unread_slice-some}
use xnet_socket.Connection.{Renewal, fresh, maxed_out, out_of_range, renewed}

-- What is unread is kept, in a buffer that is read from its start. It is refused only where growth
-- is off and what is unread fills the buffer; the slice is never out of range.
abbrev pub Renews : Bool → Cursor → Renewal → Type 0
Renews may_grow c (fresh d) = (unread d ≡ unread c) × (d.position ≡ 0) × Fits d
Renews may_grow c maxed_out =
    (may_grow ≡ false) × (c.position ≡ 0) × (cursor_length c ≡ c.inner.capacity)
Renews may_grow c out_of_range = ⊥

module _ (grown : ℕ → ℕ → ℕ) (grown_fits : (old need : ℕ) → need ≤ grown old need) where
  pub renewed-Renews :
      (may_grow : Bool) (more : ℕ) (c : Cursor)
      → Fits c
      → Renews may_grow c (renewed grown may_grow more c)
  unfolding renewed
  renewed-Renews may_grow more c f = ground (
    arith,
    length-unread c,
    unread_slice-some c f,
    grown_fits c.inner.capacity (length (unread c)),
    grown_fits c.inner.capacity (length (unread c) + more),
  )
