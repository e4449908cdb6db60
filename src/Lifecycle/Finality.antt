-- ===== src/Lifecycle/Finality.antt =====
-- A connection that is closing stays so, and has no more to write.
use xnet_socket.Base.{
  ℕ, zero, suc, ◌≤◌, ◌≡◌, ◌≢◌, refl, ap, ◌∙◌, true, Str, List, Option, none, some, ok, err, done,
  fail, panic, out_of_fuel, Outcome, arith, inl, inr, Bool-cases, length, take, length-append,
  and_then, ◌>>=◌,
}
use xnet_socket.Errors.{Error, Kind, IoResult}
use xnet_socket.Message.{Message, from_utf8}
use xnet_socket.Buffer.{Cursor, unread, read_to_end}
use xnet_socket.Protocol.{CloseCode}
use xnet_socket.Platform.{Platform, Lawful}
use xnet_socket.Handler.{Handler}
use xnet_socket.Stream.{try_write_buf}
use xnet_socket.Stream.Transfers.{Drains, try_write_buf-Drains}
use xnet_socket.Connection.{
  is_connecting, is_closing, Live, Method, remove_event, set_in, check_events, disconnect,
  send_close, error, error_established, as_server, as_client, reset, shutdown, new_timeout,
  timeout_triggered, send_message, put_out, wrote, write_out, write, Round, again, return, looped,
  take_in, took, buffer_in, read_data, ended, received, read,
}
use xnet_socket.Valid.Invariant.{Ends, and_then-Ends, give-Ends, give_io-Ends}
use xnet_socket.Valid.History.{
  Call, opens, serves, resets, shuts_down, writes, disconnects, connects, hears, times_out, errs,
  reads, sends, closes, perform,
}

Drains-length_le :
    (c c' : Cursor) (answer : IoResult ℕ) (res : IoResult (Option ℕ))
    → Drains c answer res c'
    → length (unread c') ≤ length (unread c)
Drains-length_le c c' (ok n) res (_, e, _, _) =
    omega (arith, ap length e, length-append (take n (unread c)) (unread c'))
Drains-length_le c c' (err x) res (_, e) = rw e (omega arith)

module _ {p : Platform} {h : Handler p} where
  -- The state is the same, and no more is to be written.
  abbrev pub Steady : Live p h → Live p h → Type 0
  Steady s t = (t.state ≡ s.state) × (length (unread t.out_buffer) ≤ length (unread s.out_buffer))

  module _ (s : Live p h) (c : is_closing s.state ≡ true) where
    serves-Steady : Ends Unit (Steady s) (as_server s)
    unfolding as_server
    serves-Steady = ground arith

    connects-Steady :
        (url : Str) (addrs : List p.Addr) → Ends Unit (Steady s) (as_client url addrs s)
    unfolding as_client is_closing
    connects-Steady url addrs = ground arith

    resets-Steady : Ends Unit (Steady s) (reset s)
    unfolding reset is_closing
    resets-Steady = ground arith

    shuts_down-Steady : Ends Unit (Steady s) (shutdown s)
    unfolding shutdown send_close check_events is_closing
    shuts_down-Steady = ground arith

    disconnects-Steady : Ends Unit (Steady s) (disconnect s)
    unfolding disconnect
    disconnects-Steady = ground arith

    closes-Steady :
        (code : CloseCode) (reason : Str) → Ends Unit (Steady s) (send_close code reason s)
    unfolding send_close check_events is_closing
    closes-Steady code reason = ground arith

    sends-Steady : (m : Message) → Ends Unit (Steady s) (send_message m s)
    unfolding send_message
    sends-Steady m = ground arith

    hears-Steady : (event : ℕ) (t : p.Timeout) → Ends Unit (Steady s) (new_timeout event t s)
    unfolding new_timeout
    hears-Steady event t = ground arith

    times_out-Steady : (event : ℕ) → Ends Unit (Steady s) (timeout_triggered event s)
    unfolding timeout_triggered
    times_out-Steady event = ground arith

    established-Steady : (k : Kind) (e : Error) → Ends Unit (Steady s) (error_established k e s)
    unfolding error_established send_close check_events disconnect is_closing
    established-Steady Kind.internal e = ground arith
    established-Steady _ e = ground arith

    errs-Steady : (e : Error) → Ends Unit (Steady s) (error e s)
    unfolding error is_closing is_connecting
    errs-Steady e = ground (arith, established-Steady e.kind e)

  Steady-trans : (s t u : Live p h) → Steady s t → Steady t u → Steady s u
  Steady-trans s t u (e, a) (f, b) = (f ∙ e, omega arith)

  onward :
      {A : Type 0} (s t : Live p h) (o : Outcome (Live p h) Error A)
      → Steady s t
      → Ends Unit (Steady t) o
      → Ends Unit (Steady s) o
  onward s t (done b u) w x = Steady-trans s t u w x
  onward s t (fail e u) w x = Steady-trans s t u w x
  onward s t panic w x = x
  onward s t out_of_fuel w x = x

  steps-Steady :
      {A B : Type 0} (s : Live p h) (r : Outcome (Live p h) Error A) (k : A → Method p h B)
      → Ends Unit (Steady s) r
      → ((a : A) (t : Live p h) → Ends Unit (Steady t) (k a t))
      → Ends Unit (Steady s) (and_then r k)
  steps-Steady s r k v next =
      and_then-Ends Unit (Steady s) r k v (λ a t w. onward s t (k a t) w (next a t))

  take_in-Steady : (s : Live p h) → Ends Unit (Steady s) (take_in s)
  unfolding take_in
  take_in-Steady s = give_io-Ends Unit (Steady s) _ _ (refl, omega arith)

  took-Steady : (n : Option ℕ) (s : Live p h) → Ends Unit (Steady s) (took n s)
  unfolding took
  took-Steady none s = (refl, omega arith)
  took-Steady (some n) s = ground arith

  looped-Steady :
      (rounds : Method p h (Option ℕ))
      → ((s : Live p h) → Ends Unit (Steady s) (rounds s))
      → (r : Round) (s : Live p h) → Ends Unit (Steady s) (looped rounds r s)
  looped-Steady rounds steady again s = steady s
  looped-Steady rounds steady (return n) s = (refl, omega arith)

  buffer_in-Steady : (fuel : ℕ) (s : Live p h) → Ends Unit (Steady s) (buffer_in fuel s)
  unfolding buffer_in
  buffer_in-Steady zero s = tt
  buffer_in-Steady (suc fuel) s =
      steps-Steady s ((take_in >>= took) s) (looped (buffer_in fuel))
        (steps-Steady s (take_in s) took (take_in-Steady s) took-Steady)
        (looped-Steady (buffer_in fuel) (buffer_in-Steady fuel))

  read_data-Steady : (s : Live p h) → Ends Unit (Steady s) (read_data s)
  unfolding read_data
  read_data-Steady s =
      let (bytes, rest) = read_to_end s.in_buffer in
      steps-Steady s _ _
        (give-Ends Unit (Steady s) (from_utf8 p.utf8_error bytes) (set_in rest s)
          (refl, omega arith))
        (λ text t. give-Ends Unit (Steady t) _ _ (refl, omega arith))

  ended-Steady : (n : ℕ) (s : Live p h) → Ends Unit (Steady s) (ended n s)
  unfolding ended disconnect
  ended-Steady n s = ground arith

  received-Steady : (n : Option ℕ) (s : Live p h) → Ends Unit (Steady s) (received n s)
  unfolding received
  received-Steady none s = (refl, omega arith)
  received-Steady (some n) s =
      steps-Steady s (read_data s) _ (read_data-Steady s) (λ _ t. ended-Steady n t)

  read_in-Steady :
      (fuel : ℕ) (s : Live p h) → Ends Unit (Steady s) ((buffer_in fuel >>= received) s)
  read_in-Steady fuel s =
      steps-Steady s (buffer_in fuel s) received (buffer_in-Steady fuel s) received-Steady

  reads-Steady : (fuel : ℕ) (s : Live p h) → Ends Unit (Steady s) (read fuel s)
  unfolding read
  reads-Steady fuel s = ground (arith, read_in-Steady fuel s)

module _ {p : Platform} {h : Handler p} (l : Lawful p) where
  put_out-Steady : (s : Live p h) → Ends Unit (Steady s) (put_out s)
  unfolding put_out
  put_out-Steady s = give_io-Ends Unit (Steady s) _ _ (
    refl,
    Drains-length_le s.out_buffer (try_write_buf p s.socket s.out_buffer s.world).1 _
        ((try_write_buf p s.socket s.out_buffer s.world).0)
        (try_write_buf-Drains l s.socket s.out_buffer s.world),
  )

  wrote-Steady : (n : Option ℕ) (s : Live p h) → Ends Unit (Steady s) (wrote n s)
  unfolding wrote check_events
  wrote-Steady n s = ground arith

  write_out-Steady : (s : Live p h) → Ends Unit (Steady s) (write_out s)
  unfolding write_out
  write_out-Steady s = elim (Bool-cases (is_connecting s.state)) [
    | inl early ↦ rw early (refl, omega arith)
    | inr ready ↦ rw ready (
        onward s (remove_event p.writable s) _ (refl, omega arith)
          (steps-Steady (remove_event p.writable s) (put_out (remove_event p.writable s)) wrote
            (put_out-Steady _) wrote-Steady))
  ]

  writes-Steady : (s : Live p h) → Ends Unit (Steady s) (write s)
  unfolding write
  writes-Steady s = ground (arith, write_out-Steady s)

  -- Once a connection is closing, every call but `open`, however it ends short of a panic, leaves
  -- its state as it is and does not add to what is to be written.
  pub closing_is_final :
      (call : Call p) (s : Live p h)
      → call ≢ opens
      → is_closing s.state ≡ true
      → Ends Unit (Steady s) (perform call s)
  closing_is_final opens s n c = absurd (n refl)
  closing_is_final serves s n c = serves-Steady s c
  closing_is_final resets s n c = resets-Steady s c
  closing_is_final shuts_down s n c = shuts_down-Steady s c
  closing_is_final writes s n c = writes-Steady s
  closing_is_final disconnects s n c = disconnects-Steady s c
  closing_is_final (connects url addrs) s n c = connects-Steady s c url addrs
  closing_is_final (hears event t) s n c = hears-Steady s c event t
  closing_is_final (times_out event) s n c = times_out-Steady s c event
  closing_is_final (errs e) s n c = errs-Steady s c e
  closing_is_final (reads fuel) s n c = reads-Steady fuel s
  closing_is_final (sends m) s n c = sends-Steady s c m
  closing_is_final (closes code reason) s n c = closes-Steady s c code reason
