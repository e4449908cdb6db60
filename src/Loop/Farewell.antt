-- ===== src/Loop/Farewell.antt =====
-- src/io.rs: the factory hears that the loop ends.
use xnet_socket.Base.{
  ℕ, zero, suc, ◌≡◌, refl, sym, ap, subst, ◌∙◌, inl, inr, ◌⊎◌, List, StdResult, ok, err, Outcome,
  done, fail, panic, out_of_fuel, Action, and_then, ◌>>=◌, Bool-cases, arith,
}
use xnet_socket.Errors.{Error, IoResult}
use xnet_socket.Settings.{Settings}
use xnet_socket.Valid.Invariant.{Ends}
use xnet_socket.Loop.Site.{Site}
use xnet_socket.Loop.Fields.{Activity, active, inactive, Running}
use xnet_socket.Loop.Turns.{is_active}
use xnet_socket.Loop.Events.{result_of}
use xnet_socket.Loop.Runs.{
  give, first_error, set_activity, is_interrupted, interrupted, polled, handle_events, round,
  event_loop, ended, queued, timed, started, run,
}
use xnet_socket.Loop.Steady.{Splits}
use xnet_socket.Loop.Turned.{check_count-KeepsAll}
use xnet_socket.Loop.Rounds.{handle_events-KeepsAll}
use xnet_socket.Loop.Tally.{Tally, Calm, Told, Untold, Count, Tallied, Tallied-Steady}
use xnet_socket.Loop.Unfailing.{Unfailing, check_count-Unfailing}
use xnet_socket.Loop.Answered.{handle_events-Unfailing}

Activity-cases : (a : Activity) → (a ≡ active) ⊎ (a ≡ inactive)
Activity-cases active = inl refl
Activity-cases inactive = inr refl

module _ {S E : Type 0} (F : S → Type 0) where
  then-Splits :
      {A B : Type 0} (J Q : S → Type 0) (r : Outcome S E A) (k : A → Action S E B)
      → Splits J F r
      → ((a : A) (s : S) → J s → Splits Q F (k a s))
      → Splits Q F (and_then r k)
  then-Splits J Q (done a s) k v next = next a s v
  then-Splits J Q (fail x s) k v next = v
  then-Splits J Q panic k v next = tt
  then-Splits J Q out_of_fuel k v next = tt

  chained-Splits :
      {A B C : Type 0} (J Q : S → Type 0) (r : Outcome S E A) (k : A → Action S E B)
      (m : B → Action S E C)
      → Splits J F r
      → ((a : A) (s : S) → J s → Splits Q F (and_then (k a s) m))
      → Splits Q F (and_then (and_then r k) m)
  chained-Splits J Q (done a s) k m v next = next a s v
  chained-Splits J Q (fail x s) k m v next = v
  chained-Splits J Q panic k m v next = tt
  chained-Splits J Q out_of_fuel k m v next = tt

  Unfailing-Splits :
      {A : Type 0} (J : S → Type 0) (r : Outcome S E A) → Unfailing r → Ends Unit J r → Splits J F r
  Unfailing-Splits J (done a s) n v = v
  Unfailing-Splits J (fail x s) n v = absurd n
  Unfailing-Splits J panic n v = tt
  Unfailing-Splits J out_of_fuel n v = tt

module _ {e : Site} (g : Tally e) (o : Settings) (base : ℕ) where
  module _ (calm : Calm e o) where
    polled-Splits :
        (w : e.p.World) (s : Running e) (res : IoResult (List (ℕ × e.p.Ready)))
        → (e.poll 1024 w).0 ≡ res
        → Tallied g o base s
        → Untold g base s
        → Splits (Tallied g o base) (Untold g base) (polled res s)
    unfolding polled interrupted
    polled-Splits w s (ok events) q v n = v
    polled-Splits w s (err x) q v n = elim (Bool-cases (is_interrupted x.kind)) [
      | inr off ↦ rw off n
      | inl on ↦ elim (Bool-cases s.settings.shutdown_on_interrupt) [
        | inr goes_on ↦ ground (arith, on, goes_on, v)
        | inl stops ↦
            absurd
              (ground (arith, on, calm (sym (ap (λ x. x.shutdown_on_interrupt) v.0) ∙ stops) w x q))
      ]
    ]

    round-Splits :
        (fuel : ℕ) (s : Running e)
        → Tallied g o base s
        → Untold g base s
        → Splits (Tallied g o base) (Untold g base) (round fuel s)
    unfolding round
    round-Splits fuel s v n =
        let (res, w) = e.poll 1024 s.world in
        let t : Running e = record s { world = w } in
        then-Splits (Untold g base) (Tallied g o base) (Tallied g o base)
          ((polled res >>= handle_events fuel) t) _
          (then-Splits (Untold g base) (Tallied g o base) (Tallied g o base) (polled res t)
            (handle_events fuel) (polled-Splits s.world t res refl v n)
            (λ events r i.
              Unfailing-Splits (Untold g base) (Tallied g o base) _
                (handle_events-Unfailing fuel events r)
                (handle_events-KeepsAll (Tallied g o base) (Tallied-Steady g o base) fuel events r
                  i)))
          (λ u r i.
            Unfailing-Splits (Untold g base) (Tallied g o base) _ (check_count-Unfailing r)
              (check_count-KeepsAll (Tallied g o base) (Tallied-Steady g o base) r i))

    event_loop-Splits :
        (rounds fuel : ℕ) (s : Running e)
        → Tallied g o base s
        → Splits (Told g base) (Untold g base) (event_loop rounds fuel s)
    unfolding event_loop is_active
    event_loop-Splits zero fuel s v = elim (Activity-cases s.state) [
      | inl on ↦ rw on tt
      | inr off ↦ rw off (subst (λ a. Count g o base a (g.told s.factory)) off v.1)
    ]
    event_loop-Splits (suc rounds) fuel s v = elim (Activity-cases s.state) [
      | inl on ↦ ground (
        arith,
        on,
        then-Splits (Untold g base) (Tallied g o base) (Told g base) (round fuel s)
            (λ u. event_loop rounds fuel)
            (round-Splits fuel s v (subst (λ a. Count g o base a (g.told s.factory)) on v.1))
            (λ u r i. event_loop-Splits rounds fuel r i),
      )
      | inr off ↦ rw off (subst (λ a. Count g o base a (g.told s.factory)) off v.1)
    ]

  ended-Told :
      (r : StdResult (Unit {0}) Error) (s : Running e)
      → Told g base s
      → Splits (Told g base) (λ t. Unit) (ended r s)
  unfolding ended set_activity
  ended-Told r s v =
      given
        (first_error r (e.deregister_timer s.world).0
          (e.deregister_queue (e.deregister_timer s.world).1).0)
        _ v
    where
      given :
          (x : StdResult (Unit {0}) Error) (q : Running e)
          → Told g base q
          → Splits (Told g base) (λ t. Unit) (give x q)
      given (ok u) q v = v
      given (err y) q v = tt

  closed-Told :
      (r : Outcome (Running e) Error (Unit {0}))
      → Splits (Told g base) (Untold g base) r
      → Splits (Told g base) (λ t. Unit) (and_then (result_of r) ended)
  unfolding ended first_error
  closed-Told (done u s) v = ended-Told (ok u) s v
  closed-Told (fail x s) v = tt
  closed-Told panic v = tt
  closed-Told out_of_fuel v = tt

module _ {e : Site} (g : Tally e) where
  started-Untold :
      (base : ℕ) (s : Running e)
      → Untold g base s
      → Splits (Tallied g s.settings base) (λ t. Unit) (started s)
  unfolding started queued timed set_activity
  started-Untold base s v = ground (arith, v)

  -- Where interrupts are not set to end the loop, or the poll is never interrupted: if the event loop
  -- returns without an error, from an active state, the factory has been told of the shutdown
  -- meanwhile, and if it returns an error, the factory has not. A whole run, from any state, that
  -- returns without an error has told the factory as well.
  pub run-Told :
      (rounds fuel : ℕ) (s : Running e)
      → Calm e s.settings
      → Splits
          (Told g (g.told s.factory))
          (Untold g (g.told s.factory))
          (event_loop rounds fuel (set_activity active s))
        × Splits (Told g (g.told s.factory)) (λ t. Unit) (run rounds fuel s)
  unfolding run set_activity
  run-Told rounds fuel s calm =
      let base = g.told s.factory in
      (
        event_loop-Splits g s.settings base calm rounds fuel _ (refl, refl),
        chained-Splits (λ t. Unit) (Tallied g s.settings base) (Told g base) (started s)
            (λ u r. result_of (event_loop rounds fuel r)) ended (started-Untold base s refl)
            (λ u r v.
              closed-Told g s.settings base (event_loop rounds fuel r)
                (event_loop-Splits g s.settings base calm rounds fuel r v)),
      )
