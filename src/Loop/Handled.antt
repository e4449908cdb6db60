-- ===== src/Loop/Handled.antt =====
-- src/io.rs: a property that the connections' methods keep holds through the events of the poll.
use xnet_socket.Base.{
  ℕ, zero, suc, inl, inr, Bool, true, false, Option, none, some, StdResult, ok, err, if◌then◌else◌,
  Outcome, done, fail, panic, out_of_fuel, pure, and_then, ◌>>◌, Option-cases, arith, Str,
}
use xnet_socket.Errors.{Error, IoResult}
use xnet_socket.Communication.{Command}
use xnet_socket.Connection.{Method, read, write, reset, error}
use xnet_socket.Valid.Invariant.{Ends, and_then-Ends}
use xnet_socket.Valid.History.{reads, writes, resets}
use xnet_socket.Loop.Site.{Site, Alarm}
use xnet_socket.Loop.Fields.{Running, Turn, on_found, on_connection}
use xnet_socket.Loop.Turns.{handle_timeout, waits}
use xnet_socket.Loop.Entry.{accept, registered}
use xnet_socket.Loop.Events.{
  result_of, registered_anew, after_reset, failed, after_call, half, after_event, unless_back,
  handle_connection, accepted, handle_listener, handle_timer, received, handle_commands,
  handle_event,
}
use xnet_socket.Loop.Steady.{Steady}
use xnet_socket.Loop.Turned.{
  told-KeepsAll, found-Ends, Keeping, KeepsAll, then-KeepsAll, guarded-KeepsAll,
  on_connection-KeepsAll, refused-KeepsAll, check_active-KeepsAll, handle_timeout-KeepsAll,
}
use xnet_socket.Loop.Entering.{registered-KeepsAll, accept-KeepsAll}
use xnet_socket.Loop.Queued.{handle_queue-KeepsAll}

module _ {e : Site} (J : Running e → Type 0) where
  pub result_of-Ends :
      {A : Type 0} (r : Outcome (Running e) Error A) → Ends Unit J r → Ends Unit J (result_of r)
  result_of-Ends (done a s) v = v
  result_of-Ends (fail x s) v = v
  result_of-Ends panic v = tt
  result_of-Ends out_of_fuel v = tt

  branch :
      {A : Type 0} (b : Bool) (x y : Outcome (Running e) Error A)
      → Ends Unit J x
      → Ends Unit J y
      → Ends Unit J (if b then x else y)
  branch true x y v w = v
  branch false x y v w = w

  module _ (k : Steady J) where
    registered_anew-KeepsAll : (t : ℕ) → KeepsAll J (registered_anew t)
    unfolding registered_anew
    registered_anew-KeepsAll t =
        guarded-KeepsAll J (registered t) _ (registered-KeepsAll J k t) (refused-KeepsAll J k t)

    after_reset-KeepsAll :
        (t : ℕ) (x : Error) (r : StdResult (Unit {0}) Error) → KeepsAll J (after_reset t x r)
    unfolding after_reset
    after_reset-KeepsAll t x (ok u) =
        then-KeepsAll J (registered_anew t) _ (registered_anew-KeepsAll t) (λ v s all. all)
    after_reset-KeepsAll t x (err y) =
        then-KeepsAll J (on_connection t (error x)) _ (told-KeepsAll J k t x) (λ v s all. all)

    failed-KeepsAll : (t : ℕ) (x : Error) → KeepsAll J (failed t x)
    unfolding failed
    failed-KeepsAll t x s all = ground (
      arith,
      all,
      and_then-Ends Unit J (result_of (on_connection t reset s)) (after_reset t x)
          (result_of-Ends _ (on_connection-KeepsAll J k t reset (k.called resets) s all))
          (after_reset-KeepsAll t x),
      then-KeepsAll J (on_connection t (error x)) (λ u. pure false) (told-KeepsAll J k t x)
          (λ v r w. w) s all,
    )

    after_call-KeepsAll : (t : ℕ) (r : StdResult (Unit {0}) Error) → KeepsAll J (after_call t r)
    unfolding after_call
    after_call-KeepsAll t (ok u) s all = all
    after_call-KeepsAll t (err x) s all = failed-KeepsAll t x s all

    half-KeepsAll :
        (asks : e.p.Ready → Bool) (m : Method e.p e.h (Unit {0})) (t : ℕ) (events : e.p.Ready)
        → Keeping J k m
        → KeepsAll J (half asks m t events)
    unfolding half
    half-KeepsAll asks m t events v s all = elim (Option-cases (e.slabs.get s.connections t)) [
      | inl g ↦ rw (g, half) tt
      | inr (conn, g) ↦
          rw (g, half)
            (branch (asks (e.p.intersect events conn.events))
              (and_then (result_of (on_found t conn m s)) (after_call t)) (done false s)
              (and_then-Ends Unit J (result_of (on_found t conn m s)) (after_call t)
                (result_of-Ends _ (found-Ends J k t conn m s v g all)) (after_call-KeepsAll t))
              all)
    ]

    after_event-KeepsAll : (t : ℕ) → KeepsAll J (after_event t)
    unfolding after_event
    after_event-KeepsAll t s all = elim (Option-cases (e.slabs.get s.connections t)) [
      | inl g ↦ rw (g, after_event) tt
      | inr (conn, g) ↦ rw (g, after_event) (check_active-KeepsAll J k (waits conn) t s all)
    ]

    unless_back-KeepsAll :
        (m : Turn e (Unit {0})) → KeepsAll J m → (b : Bool) → KeepsAll J (unless_back m b)
    unless_back-KeepsAll m v true s all = all
    unless_back-KeepsAll m v false s all = v s all

    handle_connection-KeepsAll :
        (fuel t : ℕ) (events : e.p.Ready) → KeepsAll J (handle_connection fuel t events)
    unfolding handle_connection
    handle_connection-KeepsAll fuel t events =
        then-KeepsAll J _ _
          (half-KeepsAll e.p.is_readable (read fuel) t events (k.called (reads fuel)))
          (unless_back-KeepsAll _ (
            then-KeepsAll J _ _ (half-KeepsAll e.p.is_writable write t events (k.called writes))
              (unless_back-KeepsAll (after_event t) (after_event-KeepsAll t))))

    accepted-KeepsAll : (r : IoResult e.p.Socket) → KeepsAll J (accepted r)
    unfolding accepted
    accepted-KeepsAll (ok sock) =
        guarded-KeepsAll J (accept sock) _ (accept-KeepsAll J k sock)
          (λ x s all. ground (arith, all))
    accepted-KeepsAll (err x) = λ s all. all

    handle_listener-KeepsAll : (events : e.p.Ready) → KeepsAll J (handle_listener events)
    unfolding handle_listener
    handle_listener-KeepsAll events s all = elim (Option-cases s.listener) [
      | inl g ↦ rw (g, handle_listener) (ground (arith, all))
      | inr (x, g) ↦
          rw (g, handle_listener)
            (ground (
              arith,
              all,
              accepted-KeepsAll (e.accept x s.world).0 (record s { world = (e.accept x s.world).1 })
                  (k.outside s _ all),
            ))
    ]

    handle_timer-KeepsAll : (fuel : ℕ) → KeepsAll J (handle_timer fuel)
    unfolding handle_timer
    handle_timer-KeepsAll zero s all = tt
    handle_timer-KeepsAll (suc fuel) s all =
        went (e.next_timeout s.world).0 _ (k.outside s _ all) (handle_timer-KeepsAll fuel)
      where
        went :
            (next : Option Alarm) (r : Running e)
            → J r
            → KeepsAll J (handle_timer fuel)
            → Ends Unit J (elim next [
              | none ↦ done tt r
              | some a ↦ (handle_timeout a >> handle_timer fuel) r
            ])
        went none r v later = v
        went (some a) r v later =
            then-KeepsAll J (handle_timeout a) _ (handle_timeout-KeepsAll J k a) (λ u. later) r v

    received-KeepsAll : (r : StdResult (Command e.p.Timeout) Str) → KeepsAll J (received r)
    unfolding received
    received-KeepsAll (ok cmd) = handle_queue-KeepsAll J k cmd
    received-KeepsAll (err x) = λ s all. all

    handle_commands-KeepsAll : KeepsAll J handle_commands
    unfolding handle_commands
    handle_commands-KeepsAll s all =
        then-KeepsAll J (received (e.try_recv s.world).0) _
          (received-KeepsAll (e.try_recv s.world).0) (λ u r v. k.outside r _ v) _
          (k.outside s _ all)

    pub handle_event-KeepsAll :
        (fuel t : ℕ) (events : e.p.Ready) → KeepsAll J (handle_event fuel t events)
    unfolding handle_event
    handle_event-KeepsAll fuel t events s all = ground (
      arith,
      handle_listener-KeepsAll events s all,
      handle_timer-KeepsAll fuel s all,
      handle_commands-KeepsAll s all,
      handle_connection-KeepsAll fuel t events s all,
    )
