-- ===== src/Loop/Heeded.antt =====
-- src/io.rs: an event of a connection is dealt with to the end.
use xnet_socket.Base.{
  ℕ, ◌<◌, ◌≡◌, refl, inl, inr, Bool, true, false, some, Option, Outcome, done, fail, panic,
  out_of_fuel, and_then, ◌>>◌, arith, Option-cases,
}
use xnet_socket.Errors.{Error}
use xnet_socket.Platform.{Platform, Lawful, ReceivedLog}
use xnet_socket.Handler.{Handler}
use xnet_socket.Communication.{queue_token, timer_token, all_token, system_token}
use xnet_socket.Connection.{
  Connection, Live, Method, read, write, reset, error, buffer_in, received, read_data, ended,
  disconnect, write_out, put_out, wrote, check_events,
}
use xnet_socket.Valid.Invariant.{IsValid, Ends}
use xnet_socket.Valid.History.{reads, writes, reset-IsValid}
use xnet_socket.Traffic.Gaining.{still}
use xnet_socket.Traffic.Receiving.{Receives, buffer_in-Receives}
use xnet_socket.Loop.Site.{Site, LawfulSlabs}
use xnet_socket.Loop.Fields.{Running, Turn, put_back, settled, on_connection}
use xnet_socket.Loop.Turns.{waits}
use xnet_socket.Loop.Events.{
  result_of, after_reset, failed, after_call, half, after_event, unless_back, handle_connection,
  handle_event,
}
use xnet_socket.Loop.Steady.{KeepsSeat}
use xnet_socket.Loop.Turned.{told-KeepsAll}
use xnet_socket.Loop.Seats.{settled-Everywhere}
use xnet_socket.Loop.Served.{
  both, Meets, Returns, and_then-Returns, Served, told-Returns, check_active-Served,
}
use xnet_socket.Loop.Kept.{AllValid, IsValid-Kept, valid-Steady}

module _ {S E : Type 0} where
  then-Meets :
      {A B : Type 0} (r : Outcome S E A) (k : A → S → Outcome S E B)
      → Meets r
      → ((a : A) (s : S) → Meets (k a s))
      → Meets (and_then r k)
  then-Meets (done a s) k v next = next a s
  then-Meets (fail x s) k v next = tt
  then-Meets panic k v next = tt
  then-Meets out_of_fuel k v next = v

module _ {p : Platform} {h : Handler p} where
  write-Meets : (s : Live p h) → Meets (write s)
  unfolding write write_out put_out wrote check_events
  write-Meets s = ground arith

  received-Meets : (n : Option ℕ) (s : Live p h) → Meets (received n s)
  unfolding received read_data ended disconnect
  received-Meets n s = ground arith

  filled-Meets :
      (log : ReceivedLog p) (s : Live p h) (r : Outcome (Live p h) Error (Option ℕ))
      → Receives log s r
      → Meets r
  filled-Meets log s (done n t) v = tt
  filled-Meets log s (fail x t) v = tt
  filled-Meets log s panic v = tt
  filled-Meets log s out_of_fuel v = v

  read-Meets :
      Lawful p
      → (log : ReceivedLog p) (fuel : ℕ) (s : Live p h) → IsValid s.conn
      → still log s < fuel
      → Meets (read fuel s)
  unfolding read
  read-Meets l log fuel s v enough = ground (
    arith,
    then-Meets (buffer_in fuel s) received
        (filled-Meets log s (buffer_in fuel s) (buffer_in-Receives l log fuel s v enough))
        received-Meets,
  )

module _ {e : Site} (q : Lawful e.p) (l : LawfulSlabs e.slabs) where
  -- The next part follows, and every connection is valid.
  abbrev GoesOn : Bool → Running e → Type 0
  GoesOn b s = (b ≡ false) × AllValid s

  told-GoesOn :
      (t : ℕ) (x : Error) (s : Running e)
      → AllValid s
      → Returns GoesOn ((on_connection t (error x) >> λ r. done false r) s)
  told-GoesOn t x s all =
      and_then-Returns (λ u r. AllValid r) GoesOn (on_connection t (error x) s)
        (λ u r. done false r)
        (both AllValid (λ u r. Unit) (on_connection t (error x) s) (told-Returns l t x s)
          (told-KeepsAll AllValid (valid-Steady q l) t x s all))
        (λ u r v. (refl, v))

  reset-GoesOn :
      (t : ℕ) (x : Error) (s : Running e)
      → AllValid s
      → Returns GoesOn (and_then (result_of (on_connection t reset s)) (after_reset t x))
  unfolding after_reset
  reset-GoesOn t x s all = elim (Option-cases (e.slabs.get s.connections t)) [
    | inl g ↦ rw (g, on_connection) tt
    | inr (conn, g) ↦
        let start : Live e.p e.h = record { conn = conn; world = s.world } in
        rw (g, on_connection, reset-IsValid q start (all t conn g))
          (told-GoesOn t x (put_back t start s)
            (settled-Everywhere (λ t c. IsValid c) l t conn (done tt start) s g all (all t conn g)))
  ]

  failed-GoesOn : (t : ℕ) (x : Error) (s : Running e) → AllValid s → Returns GoesOn (failed t x s)
  unfolding failed
  failed-GoesOn t x s all = ground (arith, reset-GoesOn t x s all, told-GoesOn t x s all)

  called-GoesOn :
      (t : ℕ) (conn : Connection e.p e.h) (s : Running e)
      (o : Outcome (Live e.p e.h) Error (Unit {0}))
      → e.slabs.get s.connections t ≡ some conn
      → AllValid s
      → Meets o
      → Ends Unit (λ r. IsValid r.conn) o
      → Returns GoesOn (and_then (result_of (settled t o s)) (after_call t))
  unfolding after_call
  called-GoesOn t conn s (done u live) g all m v =
      (refl, settled-Everywhere (λ t c. IsValid c) l t conn (done u live) s g all v)
  called-GoesOn t conn s (fail x live) g all m v =
      failed-GoesOn t x (put_back t live s)
        (settled-Everywhere (λ t c. IsValid c) l {A = Unit {0}} t conn (fail x live) s g all v)
  called-GoesOn t conn s panic g all m v = tt
  called-GoesOn t conn s out_of_fuel g all m v = m

  half-GoesOn :
      (asks : e.p.Ready → Bool) (m : Method e.p e.h (Unit {0})) (t : ℕ) (events : e.p.Ready)
      (s : Running e)
      → KeepsSeat (λ t c. IsValid c) m
      → ((conn : Connection e.p e.h)
          → e.slabs.get s.connections t ≡ some conn
          → Meets (m (record { conn = conn; world = s.world })))
      → AllValid s
      → Returns GoesOn (half asks m t events s)
  unfolding half
  half-GoesOn asks m t events s keeps meets all =
      elim (Option-cases (e.slabs.get s.connections t)) [
        | inl g ↦ rw (g, half) tt
        | inr (conn, g) ↦
            rw (g, half)
              (ground (
                arith,
                called-GoesOn t conn s (m (record { conn = conn; world = s.world })) g all
                    (meets conn g)
                    (keeps t (record { conn = conn; world = s.world }) (all t conn g)),
              ))
      ]

  after_event-Served : (t : ℕ) (s : Running e) → Returns (λ u r. Served t r) (after_event t s)
  unfolding after_event
  after_event-Served t s = elim (Option-cases (e.slabs.get s.connections t)) [
    | inl g ↦ rw (g, after_event) tt
    | inr (conn, g) ↦
        rw (g, after_event) (check_active-Served l t (waits conn) s (λ on. (conn, g, on)))
  ]

  unless_back-Served :
      (t : ℕ) (m : Turn e (Unit {0})) (b : Bool) (s : Running e)
      → GoesOn b s
      → (AllValid s → Returns (λ u r. Served t r) (m s))
      → Returns (λ u r. Served t r) (unless_back m b s)
  unless_back-Served t m true s v next = absurd (ground (arith, v.0))
  unless_back-Served t m false s v next = next v.1

  handle_connection-Served :
      (log : ReceivedLog e.p) (fuel t : ℕ) (events : e.p.Ready) (s : Running e)
      → AllValid s
      → ((conn : Connection e.p e.h)
          → e.slabs.get s.connections t ≡ some conn
          → still log (record { conn = conn; world = s.world }) < fuel)
      → Returns (λ u r. Served t r) (handle_connection fuel t events s)
  unfolding handle_connection
  handle_connection-Served log fuel t events s all enough =
      and_then-Returns GoesOn (λ u r. Served t r) (half e.p.is_readable (read fuel) t events s) _
        (half-GoesOn e.p.is_readable (read fuel) t events s ((IsValid-Kept q).called (reads fuel))
          (λ conn g. read-Meets q log fuel _ (all t conn g) (enough conn g)) all)
        (λ b r v. unless_back-Served t _ b r v (λ valid.
          and_then-Returns GoesOn (λ u r. Served t r) (half e.p.is_writable write t events r) _
            (half-GoesOn e.p.is_writable write t events r ((IsValid-Kept q).called writes)
              (λ conn g. write-Meets _) valid)
            (λ c u w. unless_back-Served t (after_event t) c u w (λ fine. after_event-Served t u))))

  -- In a loop of valid connections, handling an event for a token that is none of the reserved ones
  -- comes to an end without an error, where the fuel exceeds the bytes that the connection's socket
  -- has to give before it would block. Unless it panics, the connection is then out of the loop, or
  -- it asks for some event.
  pub handle_event-Served :
      (log : ReceivedLog e.p) (fuel t : ℕ) (events : e.p.Ready) (s : Running e)
      → t < system_token e.p
      → AllValid s
      → ((conn : Connection e.p e.h)
          → e.slabs.get s.connections t ≡ some conn
          → still log (record { conn = conn; world = s.world }) < fuel)
      → Returns (λ u r. Served t r) (handle_event fuel t events s)
  unfolding handle_event queue_token timer_token all_token system_token
  handle_event-Served log fuel t events s b all enough =
      ground (arith, b, handle_connection-Served log fuel t events s all enough)
