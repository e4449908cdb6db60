-- ===== src/Traffic/Delivery.antt =====
-- What the handler is told of the bytes that were received.
use xnet_socket.Base.{
  ◌+◌, ◌≡◌, refl, true, false, Str, [], ◌++◌, length, fail, arith, Bool-cases, inl, inr, ◌⊎◌,
  drop_past,
}
use xnet_socket.Errors.{from_utf8_error}
use xnet_socket.Message.{Message, from_utf8}
use xnet_socket.Message.Utf8.{is_utf8, is_utf8-cut}
use xnet_socket.Buffer.{unread, read_to_end}
use xnet_socket.Buffer.Fits.{Fits, length-unread}
use xnet_socket.Platform.{Platform}
use xnet_socket.Handler.{Handler}
use xnet_socket.Connection.{Live, set_in, answered, read_data}

module _ {p : Platform} {h : Handler p} where
  -- All that was to be read has been.
  abbrev pub consumed : Live p h → Live p h
  consumed s = set_in (read_to_end s.in_buffer).1 s

  pub unread-consumed : (s : Live p h) → Fits s.in_buffer → unread (consumed s).in_buffer ≡ []
  unread-consumed s f =
      drop_past (s.in_buffer.position + length (unread s.in_buffer)) s.in_buffer.inner.bytes
        (omega (arith, length-unread s.in_buffer))

  -- What is to be read is judged as a whole: UTF-8 becomes one text message for the handler, whose
  -- answer is returned, and anything else becomes the encoding error, of which the handler is told
  -- nothing here. In both cases nothing is left to be read.
  pub read_data_lem :
      (s : Live p h)
      → Fits s.in_buffer
      → let bytes = unread s.in_buffer in
        let done_message = h.on_message (Message.text bytes) s.handler s.world in
        (unread (consumed s).in_buffer ≡ [])
        × (((is_utf8 bytes ≡ true) × (read_data s ≡ answered done_message (consumed s)))
            ⊎ ((is_utf8 bytes ≡ false)
                × (read_data s ≡ fail (from_utf8_error (p.utf8_error bytes)) (consumed s))))
  unfolding read_data from_utf8
  read_data_lem s f = (
    unread-consumed s f,
    elim (Bool-cases (is_utf8 (unread s.in_buffer))) [
      | inl good ↦ inl (good, rw good refl)
      | inr bad ↦ inr (bad, rw bad refl)
    ],
  )

  -- A text that arrives in two pieces, cut within a character, is lost: reading its first piece
  -- ends in the encoding error and leaves nothing of the piece to be read later, and so does reading
  -- its second piece.
  pub split_text :
      (s t : Live p h) (first second : Str)
      → Fits s.in_buffer
      → Fits t.in_buffer
      → unread s.in_buffer ≡ first
      → unread t.in_buffer ≡ second
      → is_utf8 (first ++ second) ≡ true
      → is_utf8 first ≡ false
      → (read_data s ≡ fail (from_utf8_error (p.utf8_error first)) (consumed s))
        × (unread (consumed s).in_buffer ≡ [])
        × (read_data t ≡ fail (from_utf8_error (p.utf8_error second)) (consumed t))
        × (unread (consumed t).in_buffer ≡ [])
  unfolding read_data from_utf8
  split_text s t first second f g e d whole cut =
      ground (arith, unread-consumed s f, unread-consumed t g, is_utf8-cut first second)
