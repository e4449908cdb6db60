-- ===== src/Loop/Turned.antt =====
-- src/io.rs: what the loop keeps through the turns for a timeout, after an event, and to end.
use xnet_socket.Base.{
  ℕ, Bool, true, false, ◌≡◌, some, List, [], ◌∷◌, Outcome, done, fail, panic, out_of_fuel, or_else,
  Option-cases, inl, inr, ok, err, ◌>>◌, ◌>>=◌, arith,
}
use xnet_socket.Errors.{Error, IoResult, from_io}
use xnet_socket.Connection.{
  Connection, Method, Live, error, timeout_triggered, shutdown as shutdown_connection,
}
use xnet_socket.Valid.Invariant.{Ends, and_then-Ends, or_else-Ends}
use xnet_socket.Valid.History.{errs, times_out, shuts_down}
use xnet_socket.Loop.Site.{Site, Alarm}
use xnet_socket.Loop.Fields.{Running, Turn, settled, on_found, on_connection, on_each}
use xnet_socket.Loop.Turns.{
  give_io, schedule, remove_connection, rescheduled, check_active, shutdown, check_count, reported,
  then_waits, handle_timeout,
}
use xnet_socket.Loop.Steady.{
  KeepsSeat, reported-KeepsSeat, then_waits-KeepsSeat, give_io-Ends, Steady,
}

module _ {e : Site} (J : Running e → Type 0) where
  -- However a turn ends short of a panic, `J` still holds.
  abbrev pub KeepsAll : {A : Type 0} → Turn e A → Type 0
  KeepsAll m = (s : Running e) → J s → Ends Unit J (m s)

  pub then-KeepsAll :
      {A B : Type 0} (m : Turn e A) (k : A → Turn e B)
      → KeepsAll m
      → ((a : A) → KeepsAll (k a))
      → KeepsAll (m >>= k)
  then-KeepsAll m k v next s w = and_then-Ends Unit J (m s) k (v s w) (λ a t x. next a t x)

  pub guarded-KeepsAll :
      {A : Type 0} (m : Turn e A) (k : Error → Turn e A)
      → KeepsAll m
      → ((x : Error) → KeepsAll (k x))
      → KeepsAll (λ s. or_else (m s) k)
  guarded-KeepsAll m k v next s all = or_else-Ends Unit J (m s) k (v s all) (λ x r q. next x r q)

  module _ (k : Steady J) where
    -- A method that keeps the connection's part.
    abbrev pub Keeping : {A : Type 0} → Method e.p e.h A → Type 0
    Keeping m = (s : Running e) → KeepsSeat (k.seat s) m

    pub reported-Keeping : (m : Method e.p e.h (Unit {0})) → Keeping m → Keeping (reported m)
    reported-Keeping m v s = reported-KeepsSeat (k.seat s) (λ call. k.called call s) m (v s)

    pub settled-Ends :
        {A : Type 0} (t : ℕ) (conn : Connection e.p e.h) (r : Outcome (Live e.p e.h) Error A)
        (s : Running e)
        → e.slabs.get s.connections t ≡ some conn
        → J s
        → Ends Unit (λ live. k.seat s t live.conn) r
        → Ends Unit J (settled t r s)
    settled-Ends t conn (done a live) s g all v = k.put t conn live s g all v
    settled-Ends t conn (fail x live) s g all v = k.put t conn live s g all v
    settled-Ends t conn panic s g all v = tt
    settled-Ends t conn out_of_fuel s g all v = tt

    -- A method of the connection that has been found.
    pub found-Ends :
        {A : Type 0} (t : ℕ) (conn : Connection e.p e.h) (m : Method e.p e.h A) (s : Running e)
        → Keeping m
        → e.slabs.get s.connections t ≡ some conn
        → J s
        → Ends Unit J (on_found t conn m s)
    found-Ends t conn m s v g all =
        settled-Ends t conn _ s g all (v s t _ (k.seated t conn s g all))

    pub on_connection-KeepsAll :
        {A : Type 0} (t : ℕ) (m : Method e.p e.h A) → Keeping m → KeepsAll (on_connection t m)
    unfolding on_connection
    on_connection-KeepsAll t m v s all = elim (Option-cases (e.slabs.get s.connections t)) [
      | inl g ↦ rw (g, on_connection) tt
      | inr (conn, g) ↦ rw (g, on_connection) (found-Ends t conn m s v g all)
    ]

    -- A connection hears of an error.
    pub told-KeepsAll : (t : ℕ) (x : Error) → KeepsAll (on_connection t (error x))
    told-KeepsAll t x = on_connection-KeepsAll t (error x) (k.called (errs x))

    pub on_each-KeepsAll :
        (ts : List ℕ) (m : Method e.p e.h (Unit {0})) → Keeping m → KeepsAll (on_each ts m)
    unfolding on_each
    on_each-KeepsAll [] m v = λ s all. all
    on_each-KeepsAll (t ∷ ts) m v =
        then-KeepsAll (on_connection t m) (λ u. on_each ts m) (on_connection-KeepsAll t m v)
          (λ u. on_each-KeepsAll ts m v)

    pub refused-KeepsAll :
        (t : ℕ) (x : Error) → KeepsAll (on_connection t (error x) >> remove_connection t)
    refused-KeepsAll t x =
        then-KeepsAll (on_connection t (error x)) (λ u. remove_connection t) (told-KeepsAll t x)
          (λ u. k.removed t)

    after_schedule :
        (t : ℕ) (s : Running e) (res : IoResult (Unit {0}))
        → J s
        → Ends Unit J
            (or_else (give_io res s) (λ x. on_connection t (error x) >> remove_connection t))
    after_schedule t s (ok u) all = all
    after_schedule t s (err x) all = refused-KeepsAll t (from_io x) s all

    pub schedule-KeepsAll : (conn : Connection e.p e.h) → KeepsAll (schedule conn)
    unfolding schedule
    schedule-KeepsAll conn s all = give_io-Ends J _ _ (k.outside s _ all)

    rescheduled-KeepsAll : (t : ℕ) → KeepsAll (rescheduled t)
    unfolding rescheduled schedule
    rescheduled-KeepsAll t s all = elim (Option-cases (e.slabs.get s.connections t)) [
      | inl g ↦ rw (g, rescheduled) tt
      | inr (conn, g) ↦ rw (g, rescheduled) (after_schedule t _ _ (k.outside s _ all))
    ]

    pub check_active-KeepsAll : (active : Bool) (t : ℕ) → KeepsAll (check_active active t)
    unfolding check_active
    check_active-KeepsAll false t = k.removed t
    check_active-KeepsAll true t = rescheduled-KeepsAll t

    pub handle_timeout-KeepsAll : (a : Alarm) → KeepsAll (handle_timeout a)
    unfolding handle_timeout
    handle_timeout-KeepsAll a s all = elim (Option-cases (e.slabs.get s.connections a.connection)) [
      | inl g ↦ rw (g, handle_timeout) all
      | inr (conn, g) ↦
          rw (g, handle_timeout)
            (and_then-Ends Unit J
              (on_found a.connection conn (then_waits (reported (timeout_triggered a.event))) s) _
              (found-Ends a.connection conn _ s
                (λ r.
                  then_waits-KeepsSeat (k.seat r) (λ call. k.called call r)
                    (timeout_triggered a.event) (k.called (times_out a.event) r))
                g all)
              (λ b. check_active-KeepsAll b a.connection))
    ]

    pub shutdown-KeepsAll : KeepsAll shutdown
    unfolding shutdown
    shutdown-KeepsAll =
        then-KeepsAll _ _
          (then-KeepsAll _ _
            (λ s.
              on_each-KeepsAll (e.slabs.keys s.connections) shutdown_connection
                (k.called shuts_down) s)
            (λ u. k.told))
          (λ u t all. ground (arith, all))

    pub check_count-KeepsAll : KeepsAll check_count
    unfolding check_count
    check_count-KeepsAll s all = ground (arith, all, k.told s all)
