-- ===== src/Loop/Faults.antt =====
-- src/io.rs: the errors by which the loop may end.
use xnet_socket.Base.{
  ℕ, zero, suc, false, ◌≡◌, refl, List, ok, err, Outcome, done, fail, panic, out_of_fuel, and_then,
  ◌>>=◌, Bool-cases, inl, inr, arith,
}
use xnet_socket.Errors.{Error, IoError, IoResult, from_io}
use xnet_socket.Loop.Site.{Site}
use xnet_socket.Loop.Fields.{Running, Turn}
use xnet_socket.Loop.Runs.{is_interrupted, handle_events, interrupted, polled, round, event_loop}
use xnet_socket.Loop.Unfailing.{Unfailing, check_count-Unfailing}
use xnet_socket.Loop.Answered.{handle_events-Unfailing}

-- An error is one that the poll returned last of all, leaving this world, and no interrupt.
abbrev pub FromPoll : (e : Site) → Error → e.p.World → Type 0
FromPoll e x after =
    (w : e.p.World) × (y : IoError) × ((e.poll 1024 w).0 ≡ err y)
    × ((e.poll 1024 w).1 ≡ after)
    × (is_interrupted y.kind ≡ false)
    × (x ≡ from_io y)

module _ {e : Site} where
  -- If a run returns an error, then one of the poll.
  abbrev pub Blames : {A : Type 0} → Outcome (Running e) Error A → Type 0
  Blames (done a s) = Unit
  Blames (fail x s) = FromPoll e x s.world
  Blames panic = Unit
  Blames out_of_fuel = Unit

  then-Blames :
      {A B : Type 0} (r : Outcome (Running e) Error A) (k : A → Turn e B)
      → Blames r
      → ((a : A) (s : Running e) → Blames (k a s))
      → Blames (and_then r k)
  then-Blames (done a s) k v next = next a s
  then-Blames (fail x s) k v next = v
  then-Blames panic k v next = tt
  then-Blames out_of_fuel k v next = tt

  Unfailing-Blames : {A : Type 0} (r : Outcome (Running e) Error A) → Unfailing r → Blames r
  Unfailing-Blames (done a s) v = tt
  Unfailing-Blames (fail x s) v = absurd v
  Unfailing-Blames panic v = tt
  Unfailing-Blames out_of_fuel v = tt

  polled-Blames :
      (w : e.p.World) (res : IoResult (List (ℕ × e.p.Ready))) (s : Running e)
      → (e.poll 1024 w).0 ≡ res
      → (e.poll 1024 w).1 ≡ s.world
      → Blames (polled res s)
  unfolding polled interrupted
  polled-Blames w (ok events) s q last = tt
  polled-Blames w (err y) s q last = elim (Bool-cases (is_interrupted y.kind)) [
    | inl on ↦ rw on (ground arith)
    | inr off ↦ rw off (w, y, q, last, off, refl)
  ]

  round-Blames : (fuel : ℕ) (s : Running e) → Blames (round fuel s)
  unfolding round
  round-Blames fuel s =
      let (res, w) = e.poll 1024 s.world in
      then-Blames ((polled res >>= handle_events fuel) (record s { world = w })) _
        (then-Blames (polled res (record s { world = w })) (handle_events fuel)
          (polled-Blames s.world res (record s { world = w }) refl refl)
          (λ events r. Unfailing-Blames _ (handle_events-Unfailing fuel events r)))
        (λ u r. Unfailing-Blames _ (check_count-Unfailing r))

  -- If the loop ends by an error, then this is an error that the poll has just returned, and no
  -- interrupt; nothing has been done to the world after that. So no connection, callback, command,
  -- timeout or accepted socket makes the loop return an error, whatever errors they come to.
  pub event_loop-Blames : (rounds fuel : ℕ) (s : Running e) → Blames (event_loop rounds fuel s)
  unfolding event_loop
  event_loop-Blames zero fuel s = ground arith
  event_loop-Blames (suc rounds) fuel s = ground (
    arith,
    then-Blames (round fuel s) (λ u. event_loop rounds fuel) (round-Blames fuel s)
        (λ u. event_loop-Blames rounds fuel),
  )
