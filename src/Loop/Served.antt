-- ===== src/Loop/Served.antt =====
-- src/io.rs: a connection that has been served waits for an event, or it is gone.
use xnet_socket.Base.{
  ℕ, Bool, true, false, ◌≡◌, ◌⊎◌, inl, inr, refl, none, some, Outcome, done, fail, panic,
  out_of_fuel, Action, and_then, or_else, Option-cases, arith, ok, err, ◌>>◌,
}
use xnet_socket.Errors.{Error, Kind, IoResult, from_io}
use xnet_socket.Platform.{Platform}
use xnet_socket.Handler.{Handler}
use xnet_socket.Connection.{
  Connection, Live, error, error_established, send_close, disconnect, is_connecting,
  error_connecting, timeout_triggered,
}
use xnet_socket.Valid.Invariant.{Ends}
use xnet_socket.Loop.Site.{Site, LawfulSlabs, Alarm}
use xnet_socket.Loop.Fields.{Running, settled, on_found, on_connection}
use xnet_socket.Loop.Turns.{
  give_io, schedule, remove_connection, rescheduled, check_active, waits, reported, then_waits,
  handle_timeout,
}

module _ {S E : Type 0} where
  -- A run returns a value, and `Q` holds of it and of the state, or it panics.
  abbrev pub Returns : {A : Type 0} → (A → S → Type 0) → Outcome S E A → Type 0
  Returns Q (done a s) = Q a s
  Returns Q (fail e s) = ⊥
  Returns Q panic = Unit
  Returns Q out_of_fuel = ⊥

  pub and_then-Returns :
      {A B : Type 0} (Q : A → S → Type 0) (R : B → S → Type 0) (r : Outcome S E A)
      (k : A → Action S E B)
      → Returns Q r
      → ((a : A) (s : S) → Q a s → Returns R (k a s))
      → Returns R (and_then r k)
  and_then-Returns Q R (done a s) k v next = next a s v
  and_then-Returns Q R (fail e s) k v next = v
  and_then-Returns Q R panic k v next = tt
  and_then-Returns Q R out_of_fuel k v next = v

  pub both :
      {A : Type 0} (I : S → Type 0) (J : A → S → Type 0) (r : Outcome S E A)
      → Returns J r
      → Ends Unit I r
      → Returns (λ u s. I s) r
  both I J (done a s) v w = w
  both I J (fail x s) v w = v
  both I J panic v w = tt
  both I J out_of_fuel v w = v

abbrev pub Meets : {S E A : Type 0} → Outcome S E A → Type 0
Meets out_of_fuel = ⊥
Meets _ = Unit

module _ {p : Platform} {h : Handler p} where
  established-Returns :
      (k : Kind) (x : Error) (s : Live p h)
      → is_connecting s.state ≡ false
      → Returns (λ u t. Unit) (error_established k x s)
  unfolding error_established send_close disconnect is_connecting
  established-Returns Kind.internal x s n = ground arith
  established-Returns _ x s n = ground arith

  pub error-Returns : (x : Error) (s : Live p h) → Returns (λ u t. Unit) (error x s)
  unfolding error error_connecting is_connecting
  error-Returns x s = ground (arith, established-Returns x.kind x s)

  reported-Returns :
      (r : Outcome (Live p h) Error (Unit {0})) → Meets r → Returns (λ u t. Unit) (or_else r error)
  reported-Returns (done u s) m = tt
  reported-Returns (fail x s) m = error-Returns x s
  reported-Returns panic m = tt
  reported-Returns out_of_fuel m = m

  timeout-Meets : (event : ℕ) (s : Live p h) → Meets (timeout_triggered event s)
  unfolding timeout_triggered
  timeout-Meets event s = ground arith

module _ {e : Site} where
  abbrev Gone : ℕ → Running e → Type 0
  Gone t s = e.slabs.get s.connections t ≡ none

  abbrev Waiting : ℕ → Running e → Type 0
  Waiting t s =
      (conn : Connection e.p e.h) × (e.slabs.get s.connections t ≡ some conn) × (waits conn ≡ true)

  abbrev pub Served : ℕ → Running e → Type 0
  Served t s = Gone t s ⊎ Waiting t s

  module _ (l : LawfulSlabs e.slabs) where
    removed : (t : ℕ) (s : Running e) → Returns (λ u r. Served t r) (remove_connection t s)
    unfolding remove_connection
    removed t s = elim (Option-cases (e.slabs.get s.connections t)) [
      | inl g ↦ rw (g, remove_connection) tt
      | inr (conn, g) ↦ rw (g, remove_connection) (inl (l.get_remove t s.connections))
    ]

    settled-Returns :
        (t : ℕ) (r : Outcome (Live e.p e.h) Error (Unit {0})) (s : Running e)
        → Returns (λ u live. Unit) r
        → Returns (λ u s'. Unit) (settled t r s)
    settled-Returns t (done u live) s v = tt
    settled-Returns t (fail x live) s v = v
    settled-Returns t panic s v = tt
    settled-Returns t out_of_fuel s v = v

    pub told-Returns :
        (t : ℕ) (x : Error) (s : Running e) → Returns (λ u r. Unit) (on_connection t (error x) s)
    unfolding on_connection
    told-Returns t x s = elim (Option-cases (e.slabs.get s.connections t)) [
      | inl g ↦ rw (g, on_connection) tt
      | inr (conn, g) ↦
          rw (g, on_connection)
            (settled-Returns t _ s (error-Returns x (record { conn = conn; world = s.world })))
    ]

    after_schedule :
        (t : ℕ) (s : Running e) (res : IoResult (Unit {0}))
        → Waiting t s
        → Returns
            (λ u r. Served t r)
            (or_else (give_io res s) (λ x. on_connection t (error x) >> remove_connection t))
    after_schedule t s (ok u) v = inr v
    after_schedule t s (err x) v =
        and_then-Returns (λ u r. Unit) (λ u r. Served t r) (on_connection t (error (from_io x)) s)
          (λ u. remove_connection t) (told-Returns t (from_io x) s) (λ u r v. removed t r)

    rescheduled-Served :
        (t : ℕ) (s : Running e) → Waiting t s → Returns (λ u r. Served t r) (rescheduled t s)
    unfolding rescheduled schedule
    rescheduled-Served t s (conn, g, v) = rw (g, rescheduled) (after_schedule t _ _ (conn, g, v))

    pub check_active-Served :
        (t : ℕ) (b : Bool) (s : Running e)
        → (b ≡ true → Waiting t s)
        → Returns (λ u r. Served t r) (check_active b t s)
    unfolding check_active
    check_active-Served t false s v = removed t s
    check_active-Served t true s v = rescheduled-Served t s (v refl)

    settled-Waits :
        (t : ℕ) (conn : Connection e.p e.h) (r : Outcome (Live e.p e.h) Error (Unit {0}))
        (s : Running e)
        → e.slabs.get s.connections t ≡ some conn
        → Returns (λ u live. Unit) r
        → Returns
            (λ b u. b ≡ true → Waiting t u)
            (settled t (and_then r (λ u live. done (waits live.conn) live)) s)
    settled-Waits t conn (done u live) s g m =
        λ v. (live.conn, l.get_put t live.conn conn s.connections g, v)
    settled-Waits t conn (fail x live) s g m = m
    settled-Waits t conn panic s g m = tt
    settled-Waits t conn out_of_fuel s g m = m

    -- Handling a timeout returns, unless it panics, and afterwards the connection of the timeout is
    -- out of the loop, or it asks the poll for some event.
    pub handle_timeout-Served :
        (a : Alarm) (s : Running e) → Returns (λ u r. Served a.connection r) (handle_timeout a s)
    unfolding handle_timeout
    handle_timeout-Served a s = elim (Option-cases (e.slabs.get s.connections a.connection)) [
      | inl g ↦ rw (g, handle_timeout) (inl g)
      | inr (conn, g) ↦
          rw (g, handle_timeout)
            (and_then-Returns (λ b r. b ≡ true → Waiting a.connection r)
              (λ u r. Served a.connection r)
              (on_found a.connection conn (then_waits (reported (timeout_triggered a.event))) s)
              (λ b. check_active b a.connection)
              (settled-Waits a.connection conn _ s g
                (reported-Returns (timeout_triggered a.event _) (timeout-Meets a.event _)))
              (λ b r v. check_active-Served a.connection b r v))
    ]
