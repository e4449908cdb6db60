-- ===== src/Traffic/Writing.antt =====
-- What is to be written goes out from its front.
use xnet_socket.Base.{
  ℕ, ◌≡◌, refl, sym, ap, ◌∙◌, Str, ◌++◌, append_assoc, Option, ok, err, take, arith, Bool-cases,
  inl, inr,
}
use xnet_socket.Errors.{IoResult}
use xnet_socket.Buffer.{Cursor, unread}
use xnet_socket.Platform.{Platform, Lawful, SentLog}
use xnet_socket.Handler.{Handler}
use xnet_socket.Stream.{Stream, evented, tcp, try_write_buf}
use xnet_socket.Stream.Transfers.{Drains, try_write_buf-Drains}
use xnet_socket.Connection.{
  is_connecting, Live, remove_event, check_events, put_out, wrote, write_out, write,
}
use xnet_socket.Valid.Invariant.{Ends, and_then-Ends, give_io-Ends}

-- What has gone out and what is still to go out.
abbrev pub output : {p : Platform} {h : Handler p} → SentLog p → Live p h → Str
output log s = log.sent (evented s.socket) s.world ++ unread s.out_buffer

module _ {p : Platform} (l : Lawful p) (log : SentLog p) where
  after_drain :
      (sock : p.Socket) (c c' : Cursor) (w : p.World) (res : IoResult (Option ℕ))
      (answer : IoResult ℕ)
      → (p.tcp_write sock (p.chunk c) w).0 ≡ answer
      → Drains c answer res c'
      → log.sent sock (p.tcp_write sock (p.chunk c) w).1 ++ unread c' ≡ log.sent sock w ++ unread c
  after_drain sock c c' w res (ok n) e (_, split, _, _) =
      rw (log.taken sock (p.chunk c) w n e, l.chunk_unread c)
        (append_assoc (log.sent sock w) (take n (unread c)) (unread c')
          ∙ ap (λ z. log.sent sock w ++ z) (sym split))
  after_drain sock c c' w res (err x) e (_, same) =
      rw (log.not_taken sock (p.chunk c) w x e, same) refl

  try_write_buf-output :
      (s : Stream p.Socket) (c : Cursor) (w : p.World)
      → let (res, c', w') = try_write_buf p s c w in
        log.sent (evented s) w' ++ unread c' ≡ log.sent (evented s) w ++ unread c
  unfolding evented try_write_buf
  try_write_buf-output (tcp sock) c w =
      let (res, c', w') = try_write_buf p (tcp sock) c w in
      after_drain sock c c' w res _ refl (try_write_buf-Drains l (tcp sock) c w)

module _ {p : Platform} {h : Handler p} (l : Lawful p) (log : SentLog p) where
  put_out-output : (s : Live p h) → Ends ⊥ (λ t. output log t ≡ output log s) (put_out s)
  unfolding put_out
  put_out-output s =
      give_io-Ends ⊥ (λ t. output log t ≡ output log s) _ _
        (try_write_buf-output l log s.socket s.out_buffer s.world)

  wrote-output :
      (n : Option ℕ) (s t : Live p h)
      → output log t ≡ output log s
      → Ends ⊥ (λ u. output log u ≡ output log s) (wrote n t)
  unfolding wrote check_events
  wrote-output n s t e = ground arith

  write_out-output : (s : Live p h) → Ends ⊥ (λ t. output log t ≡ output log s) (write_out s)
  unfolding write_out
  write_out-output s = elim (Bool-cases (is_connecting s.state)) [
    | inl early ↦ rw early refl
    | inr ready ↦ rw ready (
        and_then-Ends ⊥ (λ t. output log t ≡ output log s) (put_out (remove_event p.writable s))
          wrote (put_out-output (remove_event p.writable s)) (λ n t e. wrote-output n s t e))
  ]

  -- However a write ends, the bytes that the socket has taken, followed by those that are still to
  -- be written, are the same as before: none is lost, doubled or moved.
  pub write-output : (s : Live p h) → Ends ⊥ (λ t. output log t ≡ output log s) (write s)
  unfolding write
  write-output s = ground (arith, write_out-output s)
