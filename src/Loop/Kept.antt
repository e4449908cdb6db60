-- ===== src/Loop/Kept.antt =====
-- src/io.rs: the turns of the loop, its whole runs, and the invariants of its connections.
use xnet_socket.Base.{ℕ, ◌≡◌, refl, Outcome, done, fail, panic, out_of_fuel}
use xnet_socket.Platform.{Platform, Lawful}
use xnet_socket.Handler.{Handler}
use xnet_socket.Connection.{new}
use xnet_socket.Valid.Invariant.{IsValid, Ends}
use xnet_socket.Valid.Setup.{new-IsValid}
use xnet_socket.Valid.History.{perform-IsValid}
use xnet_socket.Valid.Names.{perform-Holds}
use xnet_socket.Loop.Site.{Site, LawfulSlabs}
use xnet_socket.Loop.Fields.{Running}
use xnet_socket.Loop.Runs.{run, set_activity}
use xnet_socket.Loop.Steady.{Kept, Steady}
use xnet_socket.Loop.Seats.{Everywhere, Everywhere-Steady}
use xnet_socket.Loop.Rounds.{Cause, turn, turn-KeepsAll, run-KeepsAll}

any_panic :
    {S E A : Type 0} (P : Type 0) (I : S → Type 0) (r : Outcome S E A) → Ends P I r → Ends Unit I r
any_panic P I (done a s) v = v
any_panic P I (fail e s) v = v
any_panic P I panic v = tt
any_panic P I out_of_fuel v = tt

module _ {p : Platform} {h : Handler p} where
  pub IsValid-Kept : Lawful p → Kept {p = p} {h = h} (λ t c. IsValid c)
  IsValid-Kept q = record {
    fresh = λ t sock handler settings id. new-IsValid t sock handler settings id;
    called = λ call t s i. any_panic _ (λ r. IsValid r.conn) _ (perform-IsValid q call s i);
  }

  named-Kept : Kept {p = p} {h = h} (λ t c. c.token ≡ t)
  unfolding new
  named-Kept = record {
    fresh = λ t sock handler settings id. refl;
    called = λ call t s i. perform-Holds (λ u id settings. u ≡ t) call s i;
  }

module _ {e : Site} where
  -- Every connection of the loop is valid.
  abbrev pub AllValid : Running e → Type 0
  AllValid = Everywhere (λ t c. IsValid c)

  -- Every connection of the loop carries the token that it is stored under.
  abbrev pub AllNamed : Running e → Type 0
  AllNamed = Everywhere (λ t c. c.token ≡ t)

  pub valid-Steady : Lawful e.p → LawfulSlabs e.slabs → Steady {e = e} AllValid
  valid-Steady q l = Everywhere-Steady (λ t c. IsValid c) l (IsValid-Kept q)

  named-Steady : LawfulSlabs e.slabs → Steady {e = e} AllNamed
  named-Steady l = Everywhere-Steady (λ t c. c.token ≡ t) l named-Kept

  module _ (l : LawfulSlabs e.slabs) where
    -- Every turn of the loop, and every whole run of it, leaves each connection under the token
    -- that the connection carries, where they end within their fuel and short of a panic.
    pub run-AllNamed :
        (rounds fuel : ℕ) (c : Cause e.p) (s : Running e)
        → AllNamed s
        → Ends Unit AllNamed (turn c s) × Ends Unit AllNamed (run rounds fuel s)
    unfolding set_activity
    run-AllNamed rounds fuel c s all = (
      turn-KeepsAll AllNamed (named-Steady l) c s all,
      run-KeepsAll AllNamed (named-Steady l) (λ a r v. v) rounds fuel s all,
    )

  module _ (q : Lawful e.p) (l : LawfulSlabs e.slabs) where
    -- The turn of the loop for a timeout, for its end, for the check after some events, for a
    -- socket that the listener accepts, for a connection that is to be made, for any command of the
    -- queue, and for any event of the poll keeps the invariant of every connection that it leaves in
    -- the loop, however it ends short of a panic.
    pub turn-AllValid : (c : Cause e.p) (s : Running e) → AllValid s → Ends Unit AllValid (turn c s)
    turn-AllValid = turn-KeepsAll AllValid (valid-Steady q l)

    -- A whole run of the loop that begins with valid connections ends with valid ones, whatever the
    -- poll gives, after however many rounds it ends, and also where it returns an error; nothing is
    -- said of a panic.
    pub run-AllValid :
        (rounds fuel : ℕ) (s : Running e) → AllValid s → Ends Unit AllValid (run rounds fuel s)
    unfolding set_activity
    run-AllValid = run-KeepsAll AllValid (valid-Steady q l) (λ a r v. v)
