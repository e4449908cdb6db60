-- ===== src/Loop/Unfailing.antt =====
-- src/io.rs: the turns of the loop that return no error.
use xnet_socket.Base.{
  ℕ, Bool, true, false, List, [], ◌∷◌, Outcome, done, fail, panic, out_of_fuel, Action, and_then,
  or_else, ◌>>◌, Option-cases, inl, inr, arith,
}
use xnet_socket.Errors.{Error}
use xnet_socket.Platform.{Platform}
use xnet_socket.Handler.{Handler}
use xnet_socket.Connection.{
  Live, Method, error, shutdown as shutdown_connection, timeout_triggered, send_close, disconnect,
}
use xnet_socket.Loop.Site.{Site, Alarm}
use xnet_socket.Loop.Fields.{Running, Turn, settled, on_found, on_connection, on_each}
use xnet_socket.Loop.Turns.{
  schedule, remove_connection, rescheduled, check_active, shutdown, told_shutdown, check_count,
  reported, then_waits, handle_timeout,
}
use xnet_socket.Loop.Served.{Returns, error-Returns}

module _ {S E : Type 0} where
  -- A run returns no error.
  abbrev pub Unfailing : {A : Type 0} → Outcome S E A → Type 0
  Unfailing (done a s) = Unit
  Unfailing (fail x s) = ⊥
  Unfailing panic = Unit
  Unfailing out_of_fuel = Unit

  pub then-Unfailing :
      {A B : Type 0} (r : Outcome S E A) (k : A → Action S E B)
      → Unfailing r
      → ((a : A) (s : S) → Unfailing (k a s))
      → Unfailing (and_then r k)
  then-Unfailing (done a s) k v next = next a s
  then-Unfailing (fail x s) k v next = v
  then-Unfailing panic k v next = tt
  then-Unfailing out_of_fuel k v next = tt

  -- An error is dealt with, by what returns none.
  pub or_else-Unfailing :
      {A : Type 0} (r : Outcome S E A) (k : E → Action S E A)
      → ((x : E) (s : S) → Unfailing (k x s))
      → Unfailing (or_else r k)
  or_else-Unfailing (done a s) k next = tt
  or_else-Unfailing (fail x s) k next = next x s
  or_else-Unfailing panic k next = tt
  or_else-Unfailing out_of_fuel k next = tt

  Returns-Unfailing :
      {A : Type 0} (Q : A → S → Type 0) (r : Outcome S E A) → Returns Q r → Unfailing r
  Returns-Unfailing Q (done a s) v = tt
  Returns-Unfailing Q (fail x s) v = v
  Returns-Unfailing Q panic v = tt
  Returns-Unfailing Q out_of_fuel v = tt

module _ {p : Platform} {h : Handler p} where
  pub error-Unfailing : (x : Error) (s : Live p h) → Unfailing (error x s)
  error-Unfailing x s = Returns-Unfailing (λ u t. Unit) (error x s) (error-Returns x s)

  pub reported-Unfailing : (m : Method p h (Unit {0})) (s : Live p h) → Unfailing (reported m s)
  reported-Unfailing m s = or_else-Unfailing (m s) error error-Unfailing

  shutdown_connection-Unfailing : (s : Live p h) → Unfailing (shutdown_connection s)
  unfolding shutdown_connection send_close disconnect
  shutdown_connection-Unfailing s = ground arith

module _ {e : Site} where
  abbrev pub AllUnfailing : {A : Type 0} → Turn e A → Type 0
  AllUnfailing m = (s : Running e) → Unfailing (m s)

  pub settled-Unfailing :
      {A : Type 0} (t : ℕ) (r : Outcome (Live e.p e.h) Error A) (s : Running e)
      → Unfailing r
      → Unfailing (settled t r s)
  settled-Unfailing t (done a l) s v = tt
  settled-Unfailing t (fail x l) s v = v
  settled-Unfailing t panic s v = tt
  settled-Unfailing t out_of_fuel s v = tt

  pub on_connection-Unfailing :
      {A : Type 0} (t : ℕ) (m : Method e.p e.h A)
      → ((l : Live e.p e.h) → Unfailing (m l))
      → AllUnfailing (on_connection t m)
  unfolding on_connection
  on_connection-Unfailing t m v s = elim (Option-cases (e.slabs.get s.connections t)) [
    | inl g ↦ rw (g, on_connection) tt
    | inr (conn, g) ↦ rw (g, on_connection) (settled-Unfailing t _ s (v _))
  ]

  pub told-Unfailing : (t : ℕ) (x : Error) → AllUnfailing (on_connection t (error x))
  told-Unfailing t x = on_connection-Unfailing t (error x) (error-Unfailing x)

  pub on_each-Unfailing :
      (ts : List ℕ) (m : Method e.p e.h (Unit {0}))
      → ((l : Live e.p e.h) → Unfailing (m l))
      → AllUnfailing (on_each ts m)
  unfolding on_each
  on_each-Unfailing [] m v s = tt
  on_each-Unfailing (t ∷ ts) m v s =
      then-Unfailing (on_connection t m s) (λ u. on_each ts m) (on_connection-Unfailing t m v s)
        (λ u. on_each-Unfailing ts m v)

  pub remove-Unfailing : (t : ℕ) → AllUnfailing (remove_connection t)
  unfolding remove_connection
  remove-Unfailing t s = elim (Option-cases (e.slabs.get s.connections t)) [
    | inl g ↦ rw (g, remove_connection) tt
    | inr (conn, g) ↦ rw (g, remove_connection) tt
  ]

  pub refused-Unfailing :
      (t : ℕ) (x : Error) → AllUnfailing (on_connection t (error x) >> remove_connection t)
  refused-Unfailing t x s =
      then-Unfailing (on_connection t (error x) s) (λ u. remove_connection t) (told-Unfailing t x s)
        (λ u. remove-Unfailing t)

  rescheduled-Unfailing : (t : ℕ) → AllUnfailing (rescheduled t)
  unfolding rescheduled
  rescheduled-Unfailing t s = elim (Option-cases (e.slabs.get s.connections t)) [
    | inl g ↦ rw (g, rescheduled) tt
    | inr (conn, g) ↦
        rw (g, rescheduled) (or_else-Unfailing (schedule conn s) _ (refused-Unfailing t))
  ]

  pub check_active-Unfailing : (active : Bool) (t : ℕ) → AllUnfailing (check_active active t)
  unfolding check_active
  check_active-Unfailing false t = remove-Unfailing t
  check_active-Unfailing true t = rescheduled-Unfailing t

  pub handle_timeout-Unfailing : (a : Alarm) → AllUnfailing (handle_timeout a)
  unfolding handle_timeout
  handle_timeout-Unfailing a s = elim (Option-cases (e.slabs.get s.connections a.connection)) [
    | inl g ↦ rw (g, handle_timeout) tt
    | inr (conn, g) ↦
        rw (g, handle_timeout)
          (then-Unfailing
            (on_found a.connection conn (then_waits (reported (timeout_triggered a.event))) s) _
            (settled-Unfailing a.connection _ s (
              then-Unfailing (reported (timeout_triggered a.event) _) _
                (reported-Unfailing (timeout_triggered a.event) _) (λ u l. tt)))
            (λ b. check_active-Unfailing b a.connection))
  ]

  pub shutdown-Unfailing : AllUnfailing shutdown
  unfolding shutdown told_shutdown
  shutdown-Unfailing s =
      then-Unfailing _ _
        (then-Unfailing (on_each (e.slabs.keys s.connections) shutdown_connection s) _
          (on_each-Unfailing (e.slabs.keys s.connections) shutdown_connection
            shutdown_connection-Unfailing s)
          (λ u t. tt))
        (λ u t. ground arith)

  pub check_count-Unfailing : AllUnfailing check_count
  unfolding check_count told_shutdown
  check_count-Unfailing s = ground arith
