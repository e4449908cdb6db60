-- ===== src/Traffic/Intake.antt =====
-- src/connection.rs: over any sequence of calls, what a socket gives comes to the handler in order.
use xnet_socket.Base.{
  ℕ, ◌≡◌, refl, ap, ◌∙◌, sym, subst, List, [], ◌∷◌, Str, ◌++◌, append-nil, Option, none, some,
  Outcome, done, fail, panic, out_of_fuel, and_then, Bool-cases, inl, inr,
}
use mathlib.Core.List.{flatten}
use xnet_socket.Errors.{Error}
use xnet_socket.Message.{Message}
use xnet_socket.Buffer.{unread}
use xnet_socket.Platform.{Platform, Lawful, ReceivedLog}
use xnet_socket.Handler.{Handler}
use xnet_socket.Stream.{evented, is_negotiating}
use xnet_socket.Connection.{
  is_connecting, Live, buffer_in, read, read_data, received, ended, as_server,
}
use xnet_socket.Valid.Invariant.{IsValid, Ends, Ends-both, Ends-map, and_then-Ends, give-Ends}
use xnet_socket.Valid.Input.{buffer_in-Keeps}
use xnet_socket.Valid.History.{
  Call, perform, perform-IsValid, Risk, errs, opens, serves, resets, shuts_down, writes,
  disconnects, connects, hears, times_out, reads, sends, closes,
}
use xnet_socket.Traffic.Gaining.{given, Gains}
use xnet_socket.Traffic.Receiving.{buffer_in-Gains}
use xnet_socket.Traffic.Delivery.{consumed, read_data_lem}
use xnet_socket.Traffic.Listening.{
  Attentive, Same, disconnect-Ignores, send_close-Ignores, shutdown-Ignores, error-Ignores,
  open_connection-Ignores, as_client-Ignores, new_timeout-Ignores, timeout_triggered-Ignores,
  reset-Ignores, send_message-Ignores, write-Ignores, ended-Ignores,
}
use xnet_socket.Traffic.Pieces.{
  texts, pulled, drawn, Intake, over, elsewhere, returned, refused, Delivers, Same-Delivers,
  Delivers-trans, Gains-Delivers,
}

module _ {p : Platform} {h : Handler p} (log : ReceivedLog p) (q : Attentive h log) where
  consumed-Delivers :
      (s t : Live p h)
      → given log t ≡ given log s
      → unread t.in_buffer ≡ []
      → q.heard t.handler ≡ q.heard s.handler ++ texts (unread s.in_buffer ∷ [])
      → Delivers log q s (unread s.in_buffer ∷ []) t
  unfolding flatten
  consumed-Delivers s t g b k = record {
    gained = [];
    from_socket = g ∙ sym (append-nil (given log s));
    in_order =
        ap (λ z. z ++ []) (sym (append-nil (unread s.in_buffer)))
        ∙ ap (λ z. (unread s.in_buffer ++ []) ++ z) (sym b);
    told = k;
  }

  read_data-Delivers :
      (s : Live p h)
      → IsValid s.conn
      → Ends Unit (Delivers log q s (unread s.in_buffer ∷ [])) (read_data s)
  unfolding texts
  read_data-Delivers s v =
      let (empty, cases) = read_data_lem s v.in_fits in
      let message = Message.text (unread s.in_buffer) in
      elim cases [
        | inl (good, e) ↦ subst (Ends Unit (Delivers log q s (unread s.in_buffer ∷ []))) (sym e) (
            give-Ends Unit (Delivers log q s (unread s.in_buffer ∷ [])) _ _ (
              consumed-Delivers s _ (q.message_deaf (evented s.socket) message s.handler s.world)
                empty (rw good (q.message_heard message s.handler s.world))))
        | inr (bad, e) ↦ subst (Ends Unit (Delivers log q s (unread s.in_buffer ∷ []))) (sym e) (
            consumed-Delivers s (consumed s) refl empty
              (rw bad (sym (append-nil (q.heard s.handler)))))
      ]

  module _ (l : Lawful p) where
    received-Delivers :
        (s t : Live p h) (n : Option ℕ)
        → Gains log s t
        → IsValid t.conn
        → Ends Unit (Delivers log q s (pulled (done n t))) (received n t)
    unfolding received
    received-Delivers s t none g v = Gains-Delivers log q s t g
    received-Delivers s t (some n) g v =
        and_then-Ends Unit (Delivers log q s (unread t.in_buffer ∷ [])) (read_data t) _
          (Ends-map Unit (Delivers log q t (unread t.in_buffer ∷ [])) _ (read_data t)
            (λ u d.
              Delivers-trans log q [] (unread t.in_buffer ∷ []) (Gains-Delivers log q s t g) d)
            (read_data-Delivers t v))
          (λ _ u d.
            Ends-map Unit (Same log q u) _ (ended n u)
              (λ w same.
                subst (λ z. Delivers log q s z w) (append-nil (unread t.in_buffer ∷ []))
                  (Delivers-trans log q (unread t.in_buffer ∷ []) [] d
                    (Same-Delivers log q u w same)))
              (ended-Ignores log q u n u (refl, refl, refl, refl)))

    buffered-Delivers :
        (s : Live p h) (o : Outcome (Live p h) Error (Option ℕ))
        → Ends ⊥ (λ t. Gains log s t × IsValid t.conn) o
        → Ends Unit (Delivers log q s (pulled o)) (and_then o received)
    buffered-Delivers s (done n t) (g, v) = received-Delivers s t n g v
    buffered-Delivers s (fail e t) (g, v) = Gains-Delivers log q s t g
    buffered-Delivers s panic g = tt
    buffered-Delivers s out_of_fuel g = tt

    read-Delivers :
        (fuel : ℕ) (s : Live p h)
        → IsValid s.conn
        → Ends Unit (Delivers log q s (drawn (reads fuel) s)) (read fuel s)
    unfolding read
    read-Delivers fuel s v = elim (Bool-cases (is_negotiating s.socket)) [
      | inl on ↦ rw on (
          give-Ends Unit (Delivers log q s []) _ s
            (Same-Delivers log q s s (refl, refl, refl, refl)))
      | inr off ↦ rw off (elim (Bool-cases (is_connecting s.state)) [
        | inl early ↦ rw early (Same-Delivers log q s s (refl, refl, refl, refl))
        | inr past ↦ rw past (
            buffered-Delivers s (buffer_in fuel s) (
              Ends-both ⊥ (λ t. Gains log s t) (λ t. IsValid t.conn) (buffer_in fuel s)
                (buffer_in-Gains l log fuel s v) (buffer_in-Keeps l fuel s v)))
      ])
    ]

    Ignores-Delivers :
        (s : Live p h) (o : Outcome (Live p h) Error (Unit {0}))
        → Ends Unit (Same log q s) o
        → Ends Unit (Delivers log q s []) o
    Ignores-Delivers s o =
        Ends-map Unit (Same log q s) (Delivers log q s []) o (Same-Delivers log q s)

    perform-Delivers :
        (call : Call p) (s : Live p h)
        → IsValid s.conn
        → Ends Unit (Delivers log q s (drawn call s)) (perform call s)
    unfolding as_server
    perform-Delivers opens s v =
        Ignores-Delivers s _ (open_connection-Ignores log q s s (refl, refl, refl, refl))
    perform-Delivers serves s v = Same-Delivers log q s _ (refl, refl, refl, refl)
    perform-Delivers resets s v =
        Ignores-Delivers s _ (reset-Ignores log q s s v (refl, refl, refl, refl))
    perform-Delivers shuts_down s v =
        Ignores-Delivers s _ (shutdown-Ignores log q s s (refl, refl, refl, refl))
    perform-Delivers writes s v =
        Ignores-Delivers s _ (write-Ignores log q s s (refl, refl, refl, refl))
    perform-Delivers disconnects s v =
        Ignores-Delivers s _ (disconnect-Ignores log q s s (refl, refl, refl, refl))
    perform-Delivers (connects url addrs) s v =
        Ignores-Delivers s _ (as_client-Ignores log q s url addrs s (refl, refl, refl, refl))
    perform-Delivers (hears event timeout) s v =
        Ignores-Delivers s _ (new_timeout-Ignores log q s event timeout s (refl, refl, refl, refl))
    perform-Delivers (times_out event) s v =
        Ignores-Delivers s _ (timeout_triggered-Ignores log q s event s (refl, refl, refl, refl))
    perform-Delivers (errs e) s v =
        Ignores-Delivers s _ (error-Ignores log q s e s (refl, refl, refl, refl))
    perform-Delivers (reads fuel) s v = read-Delivers fuel s v
    perform-Delivers (sends m) s v =
        Ignores-Delivers s _ (send_message-Ignores log q s m s (refl, refl, refl, refl))
    perform-Delivers (closes code reason) s v =
        Ignores-Delivers s _ (send_close-Ignores log q s code reason s (refl, refl, refl, refl))

    -- Over any sequence of calls on a valid connection that end within their fuel and short of a
    -- panic, also with errors, where the handler keeps its messages, and neither it nor a write takes
    -- anything from a socket: the bytes that were to be read at first and those that the socket has given
    -- since are, in this order, the pieces that the calls took out, one after the other, and then
    -- what is still to be read. The handler has been given, in this order, one message for each
    -- piece that is UTF-8, and none for the others.
    pub intake-Delivers :
        {s u : Live p h} {xs : List Str}
        → IsValid s.conn
        → Intake log s xs u
        → Delivers log q s xs u
    intake-Delivers v (over s) = Same-Delivers log q s s (refl, refl, refl, refl)
    intake-Delivers v (elsewhere s u w xs same r) =
        Delivers-trans log q [] xs
          (Same-Delivers log q s (record s { world = w }) (same, refl, refl, refl))
          (intake-Delivers v r)
    intake-Delivers v (returned s t u call xs e r) =
        Delivers-trans log q (drawn call s) xs
          (subst (Ends Unit (Delivers log q s (drawn call s))) e (perform-Delivers call s v))
          (intake-Delivers
            (subst (Ends (Risk call s.conn) (λ t. IsValid t.conn)) e (perform-IsValid l call s v))
            r)
    intake-Delivers v (refused s t u x call xs e r) =
        Delivers-trans log q (drawn call s) xs
          (subst (Ends Unit (Delivers log q s (drawn call s))) e (perform-Delivers call s v))
          (intake-Delivers
            (subst (Ends (Risk call s.conn) (λ t. IsValid t.conn)) e (perform-IsValid l call s v))
            r)
