-- ===== src/Valid/Output.antt =====
-- Sending and writing keep the invariant.
use xnet_socket.Base.{ℕ, Option, ok, err, Str, arith, Bool-cases, inl, inr}
use xnet_socket.Message.{Message, into_data}
use xnet_socket.Platform.{Platform, Lawful}
use xnet_socket.Handler.{Handler}
use xnet_socket.Buffer.{Cursor}
use xnet_socket.Stream.{try_write_buf}
use xnet_socket.Stream.Transfers.{Drains, try_write_buf-Drains}
use xnet_socket.Valid.Closing.{check_events-Keeps}
use xnet_socket.Errors.{IoResult}
use xnet_socket.Buffer.Fits.{Fits, appended-Fits, length-unread}
use xnet_socket.Connection.{
  is_connecting, check_events, check_buffer_out, appended, send_message, write, buffered, put_out,
  wrote, write_out, check_events, set_out, remove_event,
}
use xnet_socket.Valid.Rooms.{renewed-Renews}
use xnet_socket.Valid.Invariant.{IsValid, Keeps, Never, and_then-Ends, give_io-Ends}

Drains-Fits :
    (c : Cursor) (answer : IoResult ℕ) (res : IoResult (Option ℕ)) (c' : Cursor)
    → Drains c answer res c'
    → Fits c
    → Fits c'
Drains-Fits c (ok n) res c' (_, _, m, e) f = rw e (omega (arith, f, length-unread c))
Drains-Fits c (err e) res c' d f = rw d.1 f

module _ {p : Platform} {h : Handler p} (l : Lawful p) where
  check_buffer_out-Keeps : (frame : Str) → Keeps {p = p} {h = h} Never (check_buffer_out frame)
  unfolding check_buffer_out
  check_buffer_out-Keeps frame s v = ground (
    arith,
    renewed-Renews p.grown l.grown_fits s.settings.out_buffer_grow s.settings.out_buffer_capacity
        s.out_buffer v.out_fits,
  )

  buffered-Keeps : (m : Message) → Keeps {p = p} {h = h} Never (buffered m)
  unfolding buffered appended
  buffered-Keeps m s v =
      and_then-Ends ⊥ (λ t. IsValid t.conn) _ _ (check_buffer_out-Keeps (into_data m) s v)
        (λ _ t w. check_events-Keeps _ (record {
          entered = w.entered;
          client_open = w.client_open;
          in_fits = w.in_fits;
          out_fits = appended-Fits p.grown (into_data m) t.out_buffer l.grown_fits w.out_fits;
        }))

  pub send_message-Keeps : (m : Message) → Keeps {p = p} {h = h} Never (send_message m)
  unfolding send_message
  send_message-Keeps m s v = ground (arith, buffered-Keeps m s v)

  put_out-Keeps : Keeps {p = p} {h = h} Never put_out
  unfolding put_out
  put_out-Keeps s v =
      let (res, c, w) = try_write_buf p s.socket s.out_buffer s.world in
      give_io-Ends ⊥ (λ t. IsValid t.conn) res (record (set_out c s) { world = w })
        (record {
          entered = v.entered;
          client_open = v.client_open;
          in_fits = v.in_fits;
          out_fits =
              Drains-Fits s.out_buffer _ res c
                (try_write_buf-Drains l s.socket s.out_buffer s.world) v.out_fits;
        })

  wrote-Keeps : (n : Option ℕ) → Keeps {p = p} {h = h} Never (wrote n)
  unfolding wrote check_events
  wrote-Keeps n s v = ground arith

  write_out-Keeps : Keeps {p = p} {h = h} Never write_out
  unfolding write_out
  write_out-Keeps s v = elim (Bool-cases (is_connecting s.state)) [
    | inl early ↦ rw early v
    | inr ready ↦ rw ready (
        and_then-Ends ⊥ (λ t. IsValid t.conn) (put_out (remove_event p.writable s)) wrote
          (put_out-Keeps _ (record {
            entered = v.entered;
            client_open = v.client_open;
            in_fits = v.in_fits;
            out_fits = v.out_fits;
          }))
          (λ n t w. wrote-Keeps n t w))
  ]

  pub write-Keeps : Keeps {p = p} {h = h} Never write
  unfolding write
  write-Keeps s v = ground (arith, write_out-Keeps s v)
