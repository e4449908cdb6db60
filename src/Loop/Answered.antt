-- ===== src/Loop/Answered.antt =====
-- src/io.rs: no event of the poll makes the loop return an error.
use xnet_socket.Base.{
  ℕ, zero, suc, Bool, true, false, Option, none, some, List, [], ◌∷◌, ok, err, StdResult, Str,
  Outcome, done, fail, panic, out_of_fuel, pure, ◌>>◌, Option-cases, inl, inr, arith,
}
use xnet_socket.Errors.{Error, IoResult}
use xnet_socket.Communication.{Command}
use xnet_socket.Connection.{Method, error, read, write, reset}
use xnet_socket.Loop.Site.{Site, Alarm}
use xnet_socket.Loop.Fields.{Running, Turn, on_found, on_connection}
use xnet_socket.Loop.Turns.{handle_timeout, waits}
use xnet_socket.Loop.Entry.{accept, registered}
use xnet_socket.Loop.Events.{
  result_of, registered_anew, after_reset, failed, after_call, half, after_event, unless_back,
  handle_connection, accepted, handle_listener, handle_timer, received, handle_commands,
  handle_event,
}
use xnet_socket.Loop.Runs.{handle_events}
use xnet_socket.Loop.Unfailing.{
  Unfailing, AllUnfailing, then-Unfailing, or_else-Unfailing, told-Unfailing, refused-Unfailing,
  check_active-Unfailing, handle_timeout-Unfailing,
}
use xnet_socket.Loop.Obeyed.{handle_queue-Unfailing}

module _ {e : Site} where
  result_of-Unfailing : {A : Type 0} (r : Outcome (Running e) Error A) → Unfailing (result_of r)
  result_of-Unfailing (done a s) = tt
  result_of-Unfailing (fail x s) = tt
  result_of-Unfailing panic = tt
  result_of-Unfailing out_of_fuel = tt

  registered_anew-Unfailing : (t : ℕ) → AllUnfailing {e = e} (registered_anew t)
  unfolding registered_anew
  registered_anew-Unfailing t s = or_else-Unfailing (registered t s) _ (refused-Unfailing t)

  after_reset-Unfailing :
      (t : ℕ) (x : Error) (r : StdResult (Unit {0}) Error)
      → AllUnfailing {e = e} (after_reset t x r)
  unfolding after_reset
  after_reset-Unfailing t x (ok u) s =
      then-Unfailing (registered_anew t s) (λ v. pure true) (registered_anew-Unfailing t s)
        (λ v r. tt)
  after_reset-Unfailing t x (err y) s =
      then-Unfailing (on_connection t (error x) s) (λ v. pure false) (told-Unfailing t x s)
        (λ v r. tt)

  failed-Unfailing : (t : ℕ) (x : Error) → AllUnfailing {e = e} (failed t x)
  unfolding failed
  failed-Unfailing t x s = ground (
    arith,
    then-Unfailing (result_of (on_connection t reset s)) (after_reset t x) (result_of-Unfailing _)
        (after_reset-Unfailing t x),
    then-Unfailing (on_connection t (error x) s) (λ u. pure false) (told-Unfailing t x s)
        (λ u r. tt),
  )

  after_call-Unfailing :
      (t : ℕ) (r : StdResult (Unit {0}) Error) → AllUnfailing {e = e} (after_call t r)
  unfolding after_call
  after_call-Unfailing t (ok u) s = tt
  after_call-Unfailing t (err x) s = failed-Unfailing t x s

  half-Unfailing :
      (asks : e.p.Ready → Bool) (m : Method e.p e.h (Unit {0})) (t : ℕ) (events : e.p.Ready)
      → AllUnfailing {e = e} (half asks m t events)
  unfolding half
  half-Unfailing asks m t events s = elim (Option-cases (e.slabs.get s.connections t)) [
    | inl g ↦ rw (g, half) tt
    | inr (conn, g) ↦
        rw (g, half)
          (ground (
            arith,
            then-Unfailing (result_of (on_found t conn m s)) (after_call t) (result_of-Unfailing _)
                (after_call-Unfailing t),
          ))
  ]

  after_event-Unfailing : (t : ℕ) → AllUnfailing {e = e} (after_event t)
  unfolding after_event
  after_event-Unfailing t s = elim (Option-cases (e.slabs.get s.connections t)) [
    | inl g ↦ rw (g, after_event) tt
    | inr (conn, g) ↦ rw (g, after_event) (check_active-Unfailing (waits conn) t s)
  ]

  unless_back-Unfailing :
      (m : Turn e (Unit {0}))
      → AllUnfailing {e = e} m
      → (b : Bool) → AllUnfailing {e = e} (unless_back m b)
  unless_back-Unfailing m v true s = tt
  unless_back-Unfailing m v false s = v s

  handle_connection-Unfailing :
      (fuel t : ℕ) (events : e.p.Ready) → AllUnfailing {e = e} (handle_connection fuel t events)
  unfolding handle_connection
  handle_connection-Unfailing fuel t events s =
      then-Unfailing (half e.p.is_readable (read fuel) t events s) _
        (half-Unfailing e.p.is_readable (read fuel) t events s)
        (unless_back-Unfailing _ (λ r.
          then-Unfailing (half e.p.is_writable write t events r) _
            (half-Unfailing e.p.is_writable write t events r)
            (unless_back-Unfailing (after_event t) (after_event-Unfailing t))))

  accepted-Unfailing : (r : IoResult e.p.Socket) → AllUnfailing {e = e} (accepted r)
  unfolding accepted
  accepted-Unfailing (ok sock) s = or_else-Unfailing (accept sock s) _ (λ x r. ground arith)
  accepted-Unfailing (err x) s = tt

  handle_listener-Unfailing : (events : e.p.Ready) → AllUnfailing {e = e} (handle_listener events)
  unfolding handle_listener
  handle_listener-Unfailing events s = elim (Option-cases s.listener) [
    | inl g ↦ rw (g, handle_listener) (ground arith)
    | inr (x, g) ↦
        rw (g, handle_listener)
          (ground (
            arith,
            accepted-Unfailing (e.accept x s.world).0 (record s { world = (e.accept x s.world).1 }),
          ))
  ]

  handle_timer-Unfailing : (fuel : ℕ) → AllUnfailing {e = e} (handle_timer fuel)
  unfolding handle_timer
  handle_timer-Unfailing zero s = tt
  handle_timer-Unfailing (suc fuel) s =
      went (e.next_timeout s.world).0 _ (handle_timer-Unfailing fuel)
    where
      went :
          (next : Option Alarm) (r : Running e)
          → AllUnfailing {e = e} (handle_timer fuel)
          → Unfailing
              (elim next [ none ↦ done tt r | some a ↦ (handle_timeout a >> handle_timer fuel) r ])
      went none r later = tt
      went (some a) r later =
          then-Unfailing (handle_timeout a r) _ (handle_timeout-Unfailing a r) (λ u. later)

  received-Unfailing : (r : StdResult (Command e.p.Timeout) Str) → AllUnfailing {e = e} (received r)
  unfolding received
  received-Unfailing (ok cmd) = handle_queue-Unfailing cmd
  received-Unfailing (err x) = λ s. tt

  handle_commands-Unfailing : AllUnfailing {e = e} handle_commands
  unfolding handle_commands
  handle_commands-Unfailing s =
      let (cmd, w) = e.try_recv s.world in
      then-Unfailing (received cmd (record s { world = w })) _
        (received-Unfailing cmd (record s { world = w })) (λ u r. tt)

  handle_event-Unfailing :
      (fuel t : ℕ) (events : e.p.Ready) → AllUnfailing {e = e} (handle_event fuel t events)
  unfolding handle_event
  handle_event-Unfailing fuel t events s = ground (
    arith,
    handle_listener-Unfailing events s,
    handle_timer-Unfailing fuel s,
    handle_commands-Unfailing s,
    handle_connection-Unfailing fuel t events s,
  )

  pub handle_events-Unfailing :
      (fuel : ℕ) (events : List (ℕ × e.p.Ready)) → AllUnfailing {e = e} (handle_events fuel events)
  unfolding handle_events
  handle_events-Unfailing fuel [] = λ s. tt
  handle_events-Unfailing fuel ((t, events) ∷ rest) = λ s.
      then-Unfailing (handle_event fuel t events s) _ (handle_event-Unfailing fuel t events s)
        (λ u. handle_events-Unfailing fuel rest)
