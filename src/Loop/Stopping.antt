-- ===== src/Loop/Stopping.antt =====
-- src/io.rs: how the loop ends.
use xnet_socket.Base.{
  ℕ, zero, suc, ◌≡◌, refl, sym, ap, ◌∙◌, true, StdResult, ok, err, Outcome, done, fail, panic,
  out_of_fuel, and_then, arith,
}
use xnet_socket.Errors.{Error, IoKind, IoError}
use xnet_socket.Communication.{queue_token, timer_token}
use xnet_socket.Valid.Invariant.{Ends}
use xnet_socket.Loop.Site.{Site}
use xnet_socket.Loop.Fields.{active, inactive, Loop, Running, Turn}
use xnet_socket.Loop.Turns.{is_active, check_count}
use xnet_socket.Loop.Events.{result_of}
use xnet_socket.Loop.Runs.{
  give, first_error, set_activity, interrupted, polled, handle_events, round, event_loop, ended,
  queued, timed, started, run,
}

-- The world once the poll has been asked to watch the queue and the timer.
abbrev pub watched_world : (e : Site) → e.p.World → e.p.World
unfolding queue_token timer_token
watched_world e w = (e.register_timer (timer_token e.p) (e.register_queue (queue_token e.p) w).1).1

module _ {e : Site} where
  abbrev pub Stopped : Running e → Type 0
  Stopped s = s.state ≡ inactive

  ended-Stopped : (r : StdResult (Unit {0}) Error) (s : Running e) → Ends Unit Stopped (ended r s)
  unfolding ended set_activity
  ended-Stopped r s =
      given
        (first_error r (e.deregister_timer s.world).0
          (e.deregister_queue (e.deregister_timer s.world).1).0)
        _ refl
    where
      given :
          (x : StdResult (Unit {0}) Error) (q : Running e)
          → Stopped q
          → Ends Unit Stopped (give x q)
      given (ok u) q v = v
      given (err y) q v = v

  abbrev Fails : {A : Type 0} → Outcome (Running e) Error A → Type 0
  Fails (fail x s) = Stopped s
  Fails _ = Unit

  then-Fails :
      {A B : Type 0} (r : Outcome (Running e) Error A) (k : A → Turn e B)
      → Fails r
      → ((a : A) (s : Running e) → Fails (k a s))
      → Fails (and_then r k)
  then-Fails (done a s) k v next = next a s
  then-Fails (fail x s) k v next = v
  then-Fails panic k v next = tt
  then-Fails out_of_fuel k v next = tt

  last-Stopped :
      {A B : Type 0} (r : Outcome (Running e) Error A) (k : A → Turn e B)
      → Fails r
      → ((a : A) (s : Running e) → Ends Unit Stopped (k a s))
      → Ends Unit Stopped (and_then r k)
  last-Stopped (done a s) k v next = next a s
  last-Stopped (fail x s) k v next = v
  last-Stopped panic k v next = tt
  last-Stopped out_of_fuel k v next = tt

  result_of-Fails : {A : Type 0} (r : Outcome (Running e) Error A) → Fails (result_of r)
  result_of-Fails (done a s) = tt
  result_of-Fails (fail x s) = tt
  result_of-Fails panic = tt
  result_of-Fails out_of_fuel = tt

  started-Fails : (s : Running e) → Stopped s → Fails (started s)
  unfolding started queued timed set_activity
  started-Fails s i = ground (arith, i)

  -- Whatever happens in it, a run of a loop that was not active leaves it not active, however it
  -- ends short of a panic: also where the poll fails, and where the queue or the timer cannot be
  -- registered.
  pub run-Stopped :
      (rounds fuel : ℕ) (s : Running e) → s.state ≡ inactive → Ends Unit Stopped (run rounds fuel s)
  unfolding run
  run-Stopped rounds fuel s i =
      last-Stopped (and_then (started s) (λ u r. result_of (event_loop rounds fuel r))) ended
        (then-Fails (started s) _ (started-Fails s i)
          (λ u r. result_of-Fails (event_loop rounds fuel r)))
        (λ r t. ended-Stopped r t)

  event_loop_done :
      (rounds fuel : ℕ) (s : Running e) → Stopped s → event_loop rounds fuel s ≡ done tt s
  unfolding event_loop is_active
  event_loop_done zero fuel s i = rw i refl
  event_loop_done (suc rounds) fuel s i = rw i refl

  check_count_done : (s : Running e) → Stopped s → check_count s ≡ done tt s
  unfolding check_count is_active
  check_count_done s i = ground (arith, i)

  -- The state after a poll.
  abbrev polled_on : Running e → Running e
  polled_on s = record s { world = (e.poll 1024 s.world).1 }

  event_loop-interrupted :
      (rounds fuel : ℕ) (s : Running e) (x : IoError)
      → s.state ≡ active
      → (e.poll 1024 s.world).0 ≡ err x
      → x.kind ≡ IoKind.interrupted
      → s.settings.shutdown_on_interrupt ≡ true
      → event_loop (suc rounds) fuel s ≡ done tt (set_activity inactive (polled_on s))
  unfolding event_loop round polled interrupted set_activity handle_events check_count is_active
  event_loop-interrupted rounds fuel s x a q i on =
      rw (a, q, i, on)
        (ap (λ r. and_then r (λ u. event_loop rounds fuel)) (check_count_done _ refl)
          ∙ event_loop_done rounds fuel _ refl)

  -- A run comes to an end, with or without an error, and then `I` holds.
  abbrev pub Finishes : {A : Type 0} → (Running e → Type 0) → Outcome (Running e) Error A → Type 0
  Finishes I (done a s) = I s
  Finishes I (fail x s) = I s
  Finishes I panic = ⊥
  Finishes I out_of_fuel = ⊥

  -- The loop has the same connections in the same states, the same factory, and so on.
  abbrev pub SameLoop : (s t : Running e) → Type 0
  SameLoop s t = t.loop ≡ s.loop

  ended-SameLoop :
      (s r : Running e) (result : StdResult (Unit {0}) Error)
      → (set_activity inactive r).loop ≡ s.loop
      → Finishes (SameLoop s) (ended result r)
  unfolding ended set_activity
  ended-SameLoop s r result same =
      given
        (first_error result (e.deregister_timer r.world).0
          (e.deregister_queue (e.deregister_timer r.world).1).0)
        _ same
    where
      given :
          (x : StdResult (Unit {0}) Error) (q : Running e)
          → SameLoop s q
          → Finishes (SameLoop s) (give x q)
      given (ok u) q v = v
      given (err y) q v = v

  looped-SameLoop :
      (rounds fuel : ℕ) (s r : Running e) (x : IoError)
      → s.state ≡ inactive
      → r.loop ≡ (set_activity active s).loop
      → (e.poll 1024 r.world).0 ≡ err x
      → x.kind ≡ IoKind.interrupted
      → s.settings.shutdown_on_interrupt ≡ true
      → Finishes (SameLoop s) (and_then (result_of (event_loop (suc rounds) fuel r)) ended)
  unfolding set_activity
  looped-SameLoop rounds fuel s r x i same q k on =
      rw
        (event_loop-interrupted rounds fuel r x (ap (λ l. l.state) same) q k
          (ap (λ l. l.settings.shutdown_on_interrupt) same ∙ on))
        (ended-SameLoop s _ (ok tt) (
          ap {A = Loop e} (λ l. record l { state = inactive }) same
          ∙ ap (λ a. record s.loop { state = a }) (sym i)))

  -- Where interrupts are set to end the loop, and the first poll of a run is interrupted: the run of a
  -- loop that was not active comes to an end, in its first round, and leaves the loop as it was before:
  -- every connection is still in it, in the state it had and with the handler it had, and the factory
  -- has the state it had, so that one that counts has counted no shutdown and no handler given back.
  pub run-interrupted :
      (rounds fuel : ℕ) (s : Running e) (x : IoError)
      → s.state ≡ inactive
      → s.settings.shutdown_on_interrupt ≡ true
      → (e.poll 1024 (watched_world e s.world)).0 ≡ err x
      → x.kind ≡ IoKind.interrupted
      → Finishes (SameLoop s) (run (suc rounds) fuel s)
  unfolding run started queued timed set_activity
  run-interrupted rounds fuel s x i on q k = ground (
    arith,
    i,
    looped-SameLoop rounds fuel s
        (record (set_activity active s) { world = watched_world e s.world }) x i refl q k on,
  )
