-- ===== src/Traffic/Replay.antt =====
-- src/connection.rs: over any sequence of calls, a connection's output is a log that only grows by
-- the messages it accepts.
use xnet_socket.Base.{
  ◌≡◌, refl, ap, ◌∙◌, sym, subst, [], Str, ◌++◌, append-nil, append_assoc, if◌then◌else◌, Outcome,
  done, fail, panic, out_of_fuel, and_then, arith, Bool-cases, inl, inr,
}
use xnet_socket.Errors.{Error}
use xnet_socket.Message.{Message, into_data}
use xnet_socket.Buffer.{unread}
use xnet_socket.Buffer.Fits.{Fits, unread-appended}
use xnet_socket.Platform.{Platform, Lawful, SentLog}
use xnet_socket.Handler.{Handler}
use xnet_socket.Stream.{evented}
use xnet_socket.Connection.{
  is_closing, Live, set_out, watched, check_events, check_buffer_out, appended, buffered,
  send_message, as_server,
}
use xnet_socket.Valid.Invariant.{IsValid, Ends}
use xnet_socket.Valid.History.{
  Call, perform, perform-IsValid, Risk, errs, opens, serves, resets, shuts_down, writes,
  disconnects, connects, hears, times_out, reads, sends, closes,
}
use xnet_socket.Traffic.Sending.{Rooms, check_buffer_out-Rooms}
use xnet_socket.Traffic.Writing.{output, write-output}
use xnet_socket.Traffic.Quiet.{
  Quiet, disconnect-Stays, send_close-Stays, shutdown-Stays, error-Stays, open_connection-Stays,
  as_client-Stays, new_timeout-Stays, timeout_triggered-Stays, reset-Stays, read-Stays,
}

module _ {p : Platform} {h : Handler p} where
  -- What a call that returns without an error adds to the log: a message that is sent to a
  -- connection that is not closing.
  abbrev pub accepted : Call p → Live p h → Str
  accepted (sends m) s = if is_closing s.state then [] else into_data m
  accepted _ s = []

  module _ (log : SentLog p) where
    -- A sequence of calls on a connection, with the bytes that are accepted in it, from a state to
    -- another. Between two calls the world may change by whatever writes nothing to the
    -- connection's socket.
    pub data Replay : Live p h → Str → Live p h → Type 0 where
      over : (s : Live p h) → Replay s [] s
      elsewhere :
          (s u : Live p h) (w : p.World) (xs : Str)
          → log.sent (evented s.socket) w ≡ log.sent (evented s.socket) s.world
          → Replay (record s { world = w }) xs u
          → Replay s xs u
      returned :
          (s t u : Live p h) (call : Call p) (xs : Str)
          → perform call s ≡ done tt t
          → Replay t xs u
          → Replay s (accepted call s ++ xs) u
      refused :
          (s t u : Live p h) (e : Error) (call : Call p) (xs : Str)
          → perform call s ≡ fail e t
          → Replay t xs u
          → Replay s xs u

    -- The bytes come to the end of the log, or the result is an error and the log is as it was.
    abbrev Adds : Live p h → Str → Outcome (Live p h) Error (Unit {0}) → Type 0
    Adds s ys (done u t) = output log t ≡ output log s ++ ys
    Adds s ys (fail e t) = output log t ≡ output log s
    Adds s ys panic = Unit
    Adds s ys out_of_fuel = Unit

    Adds-none :
        (P : Type 0) (s : Live p h) (r : Outcome (Live p h) Error (Unit {0}))
        → Ends P (λ t. output log t ≡ output log s) r
        → Adds s [] r
    Adds-none P s (done u t) i = i ∙ sym (append-nil (output log s))
    Adds-none P s (fail e t) i = i
    Adds-none P s panic i = tt
    Adds-none P s out_of_fuel i = tt

    output-watched : (s : Live p h) → output log (watched s) ≡ output log s
    unfolding watched
    output-watched s = ground arith

    then_buffered :
        (s : Live p h) (m : Message) (r : Outcome (Live p h) Error (Unit {0}))
        → Rooms s r
        → Adds s (into_data m) (
            and_then r
              (λ _ t. check_events (set_out (appended p.grown (into_data m) t.out_buffer) t)))
    unfolding check_events appended
    then_buffered s m (done u t) (same, f, e) =
        output-watched (set_out (appended p.grown (into_data m) t.out_buffer) t)
        ∙ (ap
              (λ z.
                log.sent (evented z.socket) z.world
                ++ unread (appended p.grown (into_data m) t.out_buffer))
              e
            ∙ (ap (λ z. log.sent (evented s.socket) s.world ++ z)
                  (unread-appended p.grown (into_data m) t.out_buffer f
                    ∙ ap (λ z. z ++ into_data m) same)
                ∙ sym (append_assoc _ (unread s.out_buffer) (into_data m))))
    then_buffered s m (fail x t) (same, a, b, c, d) = ap (output log) same
    then_buffered s m panic r = tt
    then_buffered s m out_of_fuel r = tt

    module _ (l : Lawful p) (q : Quiet h log) where
      send_message-Adds :
          (m : Message) (s : Live p h)
          → Fits s.out_buffer
          → Adds s (accepted (sends m) s) (send_message m s)
      unfolding send_message buffered
      send_message-Adds m s f = elim (Bool-cases (is_closing s.state)) [
        | inl on ↦ rw on (sym (append-nil (output log s)))
        | inr off ↦ rw off (
            then_buffered s m (check_buffer_out (into_data m) s)
              (check_buffer_out-Rooms l s (into_data m) f))
      ]

      perform-Adds :
          (call : Call p) (s : Live p h)
          → IsValid s.conn
          → Adds s (accepted call s) (perform call s)
      unfolding as_server
      perform-Adds opens s v = Adds-none Unit s _ (open_connection-Stays log q _ s refl)
      perform-Adds serves s v = Adds-none Unit s (as_server s) refl
      perform-Adds resets s v = Adds-none Unit s _ (reset-Stays log q _ s v refl)
      perform-Adds shuts_down s v = Adds-none Unit s _ (shutdown-Stays log q _ s refl)
      perform-Adds writes s v = Adds-none ⊥ s _ (write-output l log s)
      perform-Adds disconnects s v = Adds-none Unit s _ (disconnect-Stays log q _ s refl)
      perform-Adds (connects url addrs) s v =
          Adds-none Unit s _ (as_client-Stays log q _ url addrs s refl)
      perform-Adds (hears event timeout) s v =
          Adds-none Unit s _ (new_timeout-Stays log q _ event timeout s refl)
      perform-Adds (times_out event) s v =
          Adds-none Unit s _ (timeout_triggered-Stays log q _ event s refl)
      perform-Adds (errs e) s v = Adds-none Unit s _ (error-Stays log q _ e s refl)
      perform-Adds (reads fuel) s v = Adds-none Unit s _ (read-Stays log q _ fuel s refl)
      perform-Adds (sends m) s v = send_message-Adds m s v.out_fits
      perform-Adds (closes code reason) s v =
          Adds-none Unit s _ (send_close-Stays log q _ code reason s refl)

      -- Over any sequence of calls on a valid connection, whose handler writes to no socket itself,
      -- what the socket has taken followed by what is still to be written is what it was, followed
      -- by the messages that were accepted, in the order of the calls. A connection is thus a log to which
      -- accepted messages are appended: no read, write, error, timeout or close removes, repeats or
      -- reorders a byte of it.
      pub replay-output :
          {s u : Live p h} {xs : Str}
          → IsValid s.conn
          → Replay s xs u
          → output log u ≡ output log s ++ xs
      replay-output v (over s) = sym (append-nil (output log s))
      replay-output v (elsewhere s u w xs same r) =
          replay-output v r ∙ ap (λ z. (z ++ unread s.out_buffer) ++ xs) same
      replay-output v (returned s t u call xs e r) =
          replay-output
            (subst (Ends (Risk call s.conn) (λ t. IsValid t.conn)) e (perform-IsValid l call s v)) r
          ∙ (ap (λ z. z ++ xs) (subst (Adds s (accepted call s)) e (perform-Adds call s v))
              ∙ append_assoc (output log s) (accepted call s) xs)
      replay-output v (refused s t u x call xs e r) =
          replay-output
            (subst (Ends (Risk call s.conn) (λ t. IsValid t.conn)) e (perform-IsValid l call s v)) r
          ∙ ap (λ z. z ++ xs) (subst (Adds s (accepted call s)) e (perform-Adds call s v))
