-- ===== src/Traffic/Hearing.antt =====
-- src/connection.rs: what a connection has to write after a message has been sent on it.
use xnet_socket.Base.{
  ◌≡◌, ◌⊎◌, inl, inr, sym, ◌∙◌, ap, false, [], Str, ◌++◌, append-nil, if◌then◌else◌, Outcome, done,
  fail, panic, out_of_fuel, and_then, arith, Bool-cases,
}
use xnet_socket.Errors.{Error}
use xnet_socket.Buffer.{unread, cursor_length}
use xnet_socket.Buffer.Fits.{Fits, unread-appended}
use xnet_socket.Message.{Message, into_data}
use xnet_socket.Platform.{Platform, Lawful}
use xnet_socket.Handler.{Handler}
use xnet_socket.Connection.{
  Connection, Live, is_closing, watched, set_out, check_events, check_buffer_out, appended,
  buffered, send_message,
}
use xnet_socket.Valid.Invariant.{Ends}
use xnet_socket.Traffic.Sending.{Rooms, check_buffer_out-Rooms}

module _ {p : Platform} {h : Handler p} where
  -- The output buffer is full, and must not grow.
  abbrev pub Full : Connection p h → Type 0
  Full c =
      (c.settings.out_buffer_grow ≡ false)
      × (c.out_buffer.position ≡ 0)
      × (cursor_length c.out_buffer ≡ c.out_buffer.inner.capacity)

  -- The bytes are at the end of what is to be written, once; or what is to be written is as it was,
  -- and there was no room.
  abbrev pub Gets : Str → Connection p h → Connection p h → Type 0
  Gets xs c d =
      (unread d.out_buffer ≡ unread c.out_buffer ++ xs)
      ⊎ ((unread d.out_buffer ≡ unread c.out_buffer) × Full c)

  -- The bytes of a message, for a connection that is not closing.
  abbrev pub for_open : Message → Connection p h → Str
  for_open m c = if is_closing c.state then [] else into_data m

  unread-watched : (s : Live p h) → unread (watched s).out_buffer ≡ unread s.out_buffer
  unfolding watched
  unread-watched s = ground arith

  abbrev Heard : Str → Live p h → Outcome (Live p h) Error (Unit {0}) → Type 0
  Heard xs s r = Ends ⊥ (λ t. Gets xs s.conn t.conn) r

  then-Heard :
      (s : Live p h) (m : Message) (r : Outcome (Live p h) Error (Unit {0}))
      → Rooms s r
      → Heard (into_data m) s (
          and_then r
            (λ _ t. check_events (set_out (appended p.grown (into_data m) t.out_buffer) t)))
  unfolding check_events appended
  then-Heard s m (done u t) (same, f, e) = inl (
      unread-watched (set_out (appended p.grown (into_data m) t.out_buffer) t)
      ∙ (unread-appended p.grown (into_data m) t.out_buffer f ∙ ap (λ z. z ++ into_data m) same))
  then-Heard s m (fail x t) (same, a, b, c, d) = inr (ap (λ z. unread z.out_buffer) same, (b, c, d))
  then-Heard s m panic r = r
  then-Heard s m out_of_fuel r = tt

  pub send_message-Heard :
      Lawful p
      → (m : Message) (s : Live p h) → Fits s.out_buffer
      → Heard (for_open m s.conn) s (send_message m s)
  unfolding send_message buffered
  send_message-Heard l m s f = elim (Bool-cases (is_closing s.state)) [
    | inl on ↦ rw on (inl (sym (append-nil (unread s.out_buffer))))
    | inr off ↦ rw off (
        then-Heard s m (check_buffer_out (into_data m) s)
          (check_buffer_out-Rooms l s (into_data m) f))
  ]
