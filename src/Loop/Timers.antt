-- ===== src/Loop/Timers.antt =====
-- src/io.rs: the timeouts that have come are dealt with to the last.
use xnet_socket.Base.{
  ℕ, zero, suc, ◌≤◌, ◌<◌, ◌≡◌, refl, inl, inr, Bool, true, false, Option, none, some, Str, str, ok,
  err, Outcome, done, fail, panic, out_of_fuel, or_else, ◌>>◌, arith, Option-cases,
}
use xnet_socket.Errors.{Error, Kind, IoResult, from_io}
use xnet_socket.Protocol.{CloseCode}
use xnet_socket.Connection.{
  Connection, Live, error, error_connecting, error_established, send_close, check_events,
  disconnect, timeout_triggered, consume,
}
use xnet_socket.Stream.{evented}
use xnet_socket.Valid.Invariant.{Ends, and_then-Ends, or_else-Ends}
use xnet_socket.Loop.Site.{Site, LawfulSlabs, Alarm}
use xnet_socket.Loop.Fields.{Running, settled, on_found, on_connection}
use xnet_socket.Loop.Turns.{
  give_io, schedule, remove_connection, rescheduled, check_active, reported, then_waits,
  handle_timeout,
}
use xnet_socket.Loop.Events.{handle_timer}
use xnet_socket.Loop.Served.{both, Returns, and_then-Returns, Served, handle_timeout-Served}

-- How many timeouts have come: polling the timer takes one of them, and nothing that is called while
-- a timeout is dealt with makes another one come.
pub record Timers (e : Site) : Type 0 where
  pub due : e.p.World → ℕ
  pub taken :
      (w : e.p.World) (a : Alarm) → (e.next_timeout w).0 ≡ some a → due (e.next_timeout w).1 < due w
  pub on_timeout_due :
      (event : ℕ) (x : e.h.H) (w : e.p.World) → due (e.h.on_timeout event x w).2 ≤ due w
  pub on_error_due : (y : Error) (x : e.h.H) (w : e.p.World) → due (e.h.on_error y x w).1 ≤ due w
  pub on_close_due :
      (code : CloseCode) (reason : Str) (x : e.h.H) (w : e.p.World)
      → due (e.h.on_close code reason x w).1 ≤ due w
  pub reregister_due :
      (s : e.p.Socket) (t : ℕ) (r : e.p.Ready) (w : e.p.World)
      → due (e.reregister s t r w).1 ≤ due w
  pub lost_due : (x : e.h.H) (f : e.f.F) (w : e.p.World) → due (e.f.connection_lost x f w).1 ≤ due w

module _ {e : Site} (d : Timers e) (n : ℕ) where
  -- At most so many timeouts have come.
  abbrev AtMost : e.p.World → Type 0
  AtMost w = d.due w ≤ n

  established-AtMost :
      (k : Kind) (x : Error) (s : Live e.p e.h)
      → AtMost s.world
      → Ends Unit (λ r. AtMost r.world) (error_established k x s)
  unfolding error_established send_close check_events disconnect
  established-AtMost k x s v =
      let (handler, w) = e.h.on_error x s.handler s.world in
      ground (
        arith,
        v,
        d.on_error_due x s.handler s.world,
        d.on_close_due CloseCode.abnormal (str "") handler w,
      )

  error-AtMost :
      (x : Error) (s : Live e.p e.h) → AtMost s.world → Ends Unit (λ r. AtMost r.world) (error x s)
  unfolding error error_connecting
  error-AtMost x s v =
      ground (arith, v, d.on_error_due x s.handler s.world, established-AtMost x.kind x s v)

  triggered-AtMost :
      (event : ℕ) (s : Live e.p e.h)
      → AtMost s.world
      → Ends Unit (λ r. AtMost r.world) (timeout_triggered event s)
  unfolding timeout_triggered
  triggered-AtMost event s v = ground (arith, v, d.on_timeout_due event s.handler s.world)

  settled-AtMost :
      {A : Type 0} (t : ℕ) (s : Running e) (o : Outcome (Live e.p e.h) Error A)
      → Ends Unit (λ r. AtMost r.world) o
      → Ends Unit (λ r. AtMost r.world) (settled t o s)
  settled-AtMost t s (done a r) v = v
  settled-AtMost t s (fail x r) v = v
  settled-AtMost t s panic v = tt
  settled-AtMost t s out_of_fuel v = tt

  removed-AtMost :
      (t : ℕ) (s : Running e)
      → AtMost s.world
      → Ends Unit (λ r. AtMost r.world) (remove_connection t s)
  unfolding remove_connection
  removed-AtMost t s v = elim (Option-cases (e.slabs.get s.connections t)) [
    | inl g ↦ rw (g, remove_connection) tt
    | inr (conn, g) ↦
        rw (g, remove_connection) (omega (arith, v, d.lost_due (consume conn) s.factory s.world))
  ]

  refused-AtMost :
      (t : ℕ) (x : Error) (s : Running e)
      → AtMost s.world
      → Ends Unit (λ r. AtMost r.world) ((on_connection t (error x) >> remove_connection t) s)
  unfolding on_connection
  refused-AtMost t x s v =
      and_then-Ends Unit (λ r. AtMost r.world) (on_connection t (error x) s)
        (λ u. remove_connection t) (told (e.slabs.get s.connections t)) (λ u r. removed-AtMost t r)
    where
      told :
          (o : Option (Connection e.p e.h))
          → Ends Unit
              (λ r. AtMost r.world)
              (elim o [ none ↦ panic | some conn ↦ on_found t conn (error x) s ])
      told none = tt
      told (some conn) =
          settled-AtMost t s (error x (record { conn = conn; world = s.world }))
            (error-AtMost x (record { conn = conn; world = s.world }) v)

  after_schedule :
      (t : ℕ) (s : Running e) (res : IoResult (Unit {0}))
      → AtMost s.world
      → Ends Unit
          (λ r. AtMost r.world)
          (or_else (give_io res s) (λ x. on_connection t (error x) >> remove_connection t))
  after_schedule t s (ok u) v = v
  after_schedule t s (err x) v = refused-AtMost t (from_io x) s v

  rescheduled-AtMost :
      (t : ℕ) (s : Running e) → AtMost s.world → Ends Unit (λ r. AtMost r.world) (rescheduled t s)
  unfolding rescheduled schedule
  rescheduled-AtMost t s v = elim (Option-cases (e.slabs.get s.connections t)) [
    | inl g ↦ rw (g, rescheduled) tt
    | inr (conn, g) ↦
        rw (g, rescheduled)
          (after_schedule t _ _ (
            omega
              (arith, v, d.reregister_due (evented conn.socket) conn.token conn.events s.world)))
  ]

  check_active-AtMost :
      (b : Bool) (t : ℕ) (s : Running e)
      → AtMost s.world
      → Ends Unit (λ r. AtMost r.world) (check_active b t s)
  unfolding check_active
  check_active-AtMost false t s v = removed-AtMost t s v
  check_active-AtMost true t s v = rescheduled-AtMost t s v

  pub handle_timeout-AtMost :
      (a : Alarm) (s : Running e)
      → AtMost s.world
      → Ends Unit (λ r. AtMost r.world) (handle_timeout a s)
  unfolding handle_timeout
  handle_timeout-AtMost a s v = elim (Option-cases (e.slabs.get s.connections a.connection)) [
    | inl g ↦ rw (g, handle_timeout) v
    | inr (conn, g) ↦
        let start : Live e.p e.h = record { conn = conn; world = s.world } in
        rw (g, handle_timeout)
          (and_then-Ends Unit (λ r. AtMost r.world)
            (on_found a.connection conn (then_waits (reported (timeout_triggered a.event))) s)
            (λ b. check_active b a.connection)
            (settled-AtMost a.connection s (then_waits (reported (timeout_triggered a.event)) start)
              (and_then-Ends Unit (λ r. AtMost r.world) (reported (timeout_triggered a.event) start)
                _
                (or_else-Ends Unit (λ r. AtMost r.world) (timeout_triggered a.event start) error
                  (triggered-AtMost a.event start v) error-AtMost)
                (λ u r w. w)))
            (λ b. check_active-AtMost b a.connection))
  ]

module _ {e : Site} (l : LawfulSlabs e.slabs) (d : Timers e) where
  -- An event of the timer is dealt with to the end, where the fuel exceeds the timeouts that have
  -- come, each poll of the timer takes one of them, and nothing called meanwhile adds one: it returns
  -- without an error, unless it panics, and then the timer has been asked once more and had none left.
  pub handle_timer-Returns :
      (fuel : ℕ) (s : Running e)
      → d.due s.world < fuel
      → Returns
          (λ u r.
            (w : e.p.World) × ((e.next_timeout w).0 ≡ none) × (r.world ≡ (e.next_timeout w).1))
          (handle_timer fuel s)
  unfolding handle_timer
  handle_timer-Returns zero s less = absurd (omega (arith, less))
  handle_timer-Returns (suc fuel) s less =
      went (e.next_timeout s.world).0 refl (handle_timer-Returns fuel)
    where
      Spent : Unit {0} → Running e → Type 0
      Spent u r = (w : e.p.World) × ((e.next_timeout w).0 ≡ none) × (r.world ≡ (e.next_timeout w).1)

      went :
          (next : Option Alarm)
          → (e.next_timeout s.world).0 ≡ next
          → ((r : Running e) → d.due r.world < fuel → Returns Spent (handle_timer fuel r))
          → Returns Spent (elim next [
            | none ↦ done tt (record s { world = (e.next_timeout s.world).1 })
            | some a ↦
                (handle_timeout a >> handle_timer fuel)
                  (record s { world = (e.next_timeout s.world).1 })
          ])
      went none q later = (s.world, q, refl)
      went (some a) q later =
          let t : Running e = record s { world = (e.next_timeout s.world).1 } in
          and_then-Returns (λ u r. d.due r.world ≤ d.due t.world) Spent (handle_timeout a t)
            (λ u. handle_timer fuel)
            (both (λ r. d.due r.world ≤ d.due t.world) (λ u r. Served a.connection r)
              (handle_timeout a t) (handle_timeout-Served l a t)
              (handle_timeout-AtMost d (d.due t.world) a t (omega arith)))
            (λ u r v. later r (omega (arith, v, less, d.taken s.world a q)))
