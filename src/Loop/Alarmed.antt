-- ===== src/Loop/Alarmed.antt =====
-- src/io.rs: a timeout whose handler fails takes the connection out of the loop, before its events.
use xnet_socket.Base.{
  ℕ, suc, ◌<◌, ◌≤◌, ◌≡◌, refl, ap, Bool, true, false, none, some, inl, inr, List, ◌∷◌, err, Outcome,
  done, fail, panic, out_of_fuel, Action, and_then, Option-cases, arith,
}
use xnet_socket.Errors.{Error, Kind}
use xnet_socket.Platform.{Platform, Lawful}
use xnet_socket.Handler.{Handler}
use xnet_socket.Communication.{queue_token, timer_token, all_token, system_token}
use xnet_socket.Connection.{Connection, Live, is_connecting, error, timeout_triggered}
use xnet_socket.Valid.Invariant.{IsValid, Ends}
use xnet_socket.Valid.Closing.{panic_flag}
use xnet_socket.Lifecycle.Reactions.{Reaction, error-Reaction}
use xnet_socket.Loop.Site.{Site, Alarm, LawfulSlabs}
use xnet_socket.Loop.Fields.{Running, settled, on_found}
use xnet_socket.Loop.Turns.{
  waits, reported, then_waits, remove_connection, check_active, handle_timeout,
}
use xnet_socket.Loop.Events.{handle_timer, handle_event}
use xnet_socket.Loop.Runs.{handle_events}
use xnet_socket.Loop.Served.{Returns, and_then-Returns, error-Returns}
use xnet_socket.Loop.Timers.{Timers, handle_timeout-AtMost}
use xnet_socket.Loop.Gone.{vacant_panics}

-- An I/O or HTTP error, which breaks a connection off.
abbrev pub BreaksOff : Kind → Type 0
BreaksOff (Kind.io x) = Unit
BreaksOff (Kind.http x) = Unit
BreaksOff _ = ⊥

module _ {p : Platform} {h : Handler p} where
  broken_off :
      (k : Kind) (s : Live p h) (r : Outcome (Live p h) Error (Unit {0}))
      → BreaksOff k
      → Returns (λ u t. Unit) r
      → Ends ⊥ (Reaction k s) r
      → Returns (λ b t. b ≡ false) (and_then r (λ u t. done (waits t.conn) t))
  broken_off (Kind.io x) s (done u t) b v (q, i, o) = rw (i, o) refl
  broken_off (Kind.http x) s (done u t) b v (q, i, o) = rw (i, o) refl
  broken_off k s (fail x t) b v w = v
  broken_off k s panic b v w = tt
  broken_off k s out_of_fuel b v w = v
  broken_off _ s (done u t) b v w = absurd b

  -- A connection past connecting, whose handler answers the timeout with such an error, and whose
  -- settings do not make that a panic.
  pub record Breaks (event : ℕ) (s : Live p h) : Type 0 where
    pub why : Error
    pub is_answer : (h.on_timeout event s.handler s.world).0 ≡ err why
    pub breaks_off : BreaksOff why.kind
    pub is_valid : IsValid s.conn
    pub past_connecting : is_connecting s.state ≡ false
    pub no_panic : panic_flag why.kind s.settings ≡ false

  timed_out :
      Lawful p
      → (event : ℕ) (s : Live p h) → Breaks event s
      → Returns (λ b t. b ≡ false) (then_waits (reported (timeout_triggered event)) s)
  unfolding timeout_triggered
  timed_out l event s v =
      let (answer, handler, w) = h.on_timeout event s.handler s.world in
      let left : Live p h = record { conn = record s.conn { handler = handler }; world = w } in
      rw v.is_answer (
        broken_off v.why.kind left (error v.why left) v.breaks_off (error-Returns v.why left) (
          error-Reaction l v.why left
            (record {
              entered = v.is_valid.entered;
              client_open = v.is_valid.client_open;
              in_fits = v.is_valid.in_fits;
              out_fits = v.is_valid.out_fits;
            })
            v.past_connecting v.no_panic))

module _ {S E A B : Type 0} where
  then_panics :
      (I : S → Type 0) (r : Outcome S E A) (k : A → Action S E B)
      → Returns (λ a s. I s) r
      → ((a : A) (s : S) → I s → k a s ≡ panic)
      → and_then r k ≡ panic
  then_panics I (done a s) k v next = next a s v
  then_panics I (fail x s) k v next = absurd v
  then_panics I panic k v next = refl
  then_panics I out_of_fuel k v next = absurd v

module _ {S E A : Type 0} where
  joined :
      (I J : S → Type 0) (r : Outcome S E A)
      → Returns (λ a s. I s) r
      → Ends Unit J r
      → Returns (λ a s. I s × J s) r
  joined I J (done a s) v w = (v, w)
  joined I J (fail x s) v w = v
  joined I J panic v w = tt
  joined I J out_of_fuel v w = v

module _ {e : Site} where
  abbrev Gone : ℕ → Running e → Type 0
  Gone t s = e.slabs.get s.connections t ≡ none

  settled-Mute :
      (t : ℕ) (s : Running e) (o : Outcome (Live e.p e.h) Error Bool)
      → Returns (λ b r. b ≡ false) o
      → Returns (λ b r. b ≡ false) (settled t o s)
  settled-Mute t s (done b r) v = v
  settled-Mute t s (fail x r) v = v
  settled-Mute t s panic v = tt
  settled-Mute t s out_of_fuel v = v

  module _ (q : Lawful e.p) (l : LawfulSlabs e.slabs) where
    removed-Gone : (t : ℕ) (s : Running e) → Returns (λ u r. Gone t r) (remove_connection t s)
    unfolding remove_connection
    removed-Gone t s = elim (Option-cases (e.slabs.get s.connections t)) [
      | inl g ↦ rw (g, remove_connection) tt
      | inr (conn, g) ↦ rw (g, remove_connection) (l.get_remove t s.connections)
    ]

    check_active-Gone :
        (t : ℕ) (b : Bool) (s : Running e)
        → b ≡ false
        → Returns (λ u r. Gone t r) (check_active b t s)
    unfolding check_active
    check_active-Gone t false s v = removed-Gone t s
    check_active-Gone t true s v = absurd (ground (arith, v))

    handle_timeout-Gone :
        (a : Alarm) (s : Running e) (conn : Connection e.p e.h)
        → e.slabs.get s.connections a.connection ≡ some conn
        → Breaks a.event (record { conn = conn; world = s.world })
        → Returns (λ u r. Gone a.connection r) (handle_timeout a s)
    unfolding handle_timeout
    handle_timeout-Gone a s conn g v =
        rw (g, handle_timeout)
          (and_then-Returns (λ b r. b ≡ false) (λ u r. Gone a.connection r)
            (on_found a.connection conn (then_waits (reported (timeout_triggered a.event))) s)
            (λ b. check_active b a.connection)
            (settled-Mute a.connection s _ (timed_out q a.event _ v))
            (λ b r. check_active-Gone a.connection b r))

    module _ (d : Timers e) where
      none_due : (w : e.p.World) → d.due w ≤ 0 → (e.next_timeout w).0 ≡ none
      none_due w v = elim (Option-cases (e.next_timeout w).0) [
        | inl n ↦ n
        | inr (a, g) ↦ absurd (omega (arith, v, d.taken w a g))
      ]

      handle_timer-none :
          (fuel t : ℕ) (s : Running e)
          → d.due s.world ≤ 0
          → Gone t s
          → Returns (λ u r. Gone t r) (handle_timer (suc fuel) s)
      unfolding handle_timer
      handle_timer-none fuel t s v g = rw (none_due s.world v, handle_timer) g

      handle_timer-Gone :
          (fuel : ℕ) (a : Alarm) (conn : Connection e.p e.h) (s : Running e)
          → (e.next_timeout s.world).0 ≡ some a
          → d.due s.world ≡ 1
          → e.slabs.get s.connections a.connection ≡ some conn
          → Breaks a.event (record { conn = conn; world = (e.next_timeout s.world).1 })
          → Returns (λ u r. Gone a.connection r) (handle_timer (suc (suc fuel)) s)
      unfolding handle_timer
      handle_timer-Gone fuel a conn s n one g v =
          let t : Running e = record s { world = (e.next_timeout s.world).1 } in
          rw (n, handle_timer)
            (and_then-Returns (λ u r. Gone a.connection r × (d.due r.world ≤ 0))
              (λ u r. Gone a.connection r) (handle_timeout a t) (λ u. handle_timer (suc fuel))
              (joined (λ r. Gone a.connection r) (λ r. d.due r.world ≤ 0) (handle_timeout a t)
                (handle_timeout-Gone a t conn g v)
                (handle_timeout-AtMost d 0 a t (omega (arith, one, d.taken s.world a n))))
              (λ u r w. handle_timer-none fuel a.connection r w.1 w.0))

      timer_event-Gone :
          (fuel : ℕ) (a : Alarm) (s : Running e) (x : e.p.Ready)
          → Returns (λ u r. Gone a.connection r) (handle_timer (suc (suc fuel)) s)
          → Returns
              (λ u r. Gone a.connection r)
              (handle_event (suc (suc fuel)) (timer_token e.p) x s)
      unfolding handle_event queue_token timer_token all_token system_token
      timer_event-Gone fuel a s x v = ground (arith, q.usize_wide, v)

      -- Where just one timeout has come, each poll of the timer takes one, and nothing called meanwhile
      -- adds one; and the connection that it is for is valid and past connecting, its token is none of
      -- the reserved ones, and its handler answers the timeout with an I/O or HTTP error that is not
      -- set to panic: then a poll that gives first an event of the timer and next one for that
      -- connection makes the whole loop panic, whatever it gives after those, with fuel for two polls
      -- of the timer or more.
      pub alarmed_panics :
          (fuel : ℕ) (a : Alarm) (conn : Connection e.p e.h) (s : Running e) (x y : e.p.Ready)
          (rest : List (ℕ × e.p.Ready))
          → (e.next_timeout s.world).0 ≡ some a
          → d.due s.world ≡ 1
          → e.slabs.get s.connections a.connection ≡ some conn
          → Breaks a.event (record { conn = conn; world = (e.next_timeout s.world).1 })
          → a.connection < system_token e.p
          → handle_events (suc (suc fuel)) ((timer_token e.p, x) ∷ (a.connection, y) ∷ rest) s
            ≡ panic
      unfolding handle_events
      alarmed_panics fuel a conn s x y rest n one g v b =
          then_panics (λ r. Gone a.connection r)
            (handle_event (suc (suc fuel)) (timer_token e.p) x s) _
            (timer_event-Gone fuel a s x (handle_timer-Gone fuel a conn s n one g v))
            (λ u r gone.
              ap (λ o. and_then o (λ u. handle_events (suc (suc fuel)) rest))
                (vacant_panics (suc (suc fuel)) a.connection y r b gone))
