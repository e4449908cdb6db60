-- ===== src/Valid/Invariant.antt =====
-- The invariant of a connection, and what it means that a method keeps it.
use xnet_socket.Base.{
  ok, err, ◌≡◌, false, ◌&&◌, Outcome, done, fail, panic, out_of_fuel, Action, and_then, or_else,
}
use xnet_socket.Errors.{Result, IoResult}
use xnet_socket.Buffer.Fits.{Fits}
use xnet_socket.Platform.{Platform}
use xnet_socket.Handler.{Handler}
use xnet_socket.Connection.{
  State, is_connecting, is_client, Connection, Live, Method, give, give_io,
}

-- The states that the code ever enters: `RespondingClose` and `FinishedClose` are not among them.
abbrev pub Entered : State → Type 0
Entered State.responding_close = ⊥
Entered State.finished_close = ⊥
Entered _ = Unit

pub record IsValid {p : Platform} {h : Handler p} (c : Connection p h) : Type 0 where
  pub entered : Entered c.state
  pub client_open : (is_client c.endpoint && is_connecting c.state) ≡ false
  pub in_fits : Fits c.in_buffer
  pub out_fits : Fits c.out_buffer

module _ {S E : Type 0} where
  -- However a run ends, `I` holds of the state, and a panic needs `P`.
  abbrev pub Ends : {A : Type 0} → Type 0 → (S → Type 0) → Outcome S E A → Type 0
  Ends P I (done a s) = I s
  Ends P I (fail e s) = I s
  Ends P I panic = P
  Ends P I out_of_fuel = Unit

  module _ {A B : Type 0} (P : Type 0) (I : S → Type 0) where
    pub and_then-Ends :
        (r : Outcome S E A) (k : A → Action S E B)
        → Ends P I r
        → ((a : A) (s : S) → I s → Ends P I (k a s))
        → Ends P I (and_then r k)
    and_then-Ends (done a s) k v next = next a s v
    and_then-Ends (fail e s) k v next = v
    and_then-Ends panic k v next = v
    and_then-Ends out_of_fuel k v next = tt

  pub or_else-Ends :
      {A : Type 0} (P : Type 0) (I : S → Type 0) (r : Outcome S E A) (k : E → Action S E A)
      → Ends P I r
      → ((e : E) (s : S) → I s → Ends P I (k e s))
      → Ends P I (or_else r k)
  or_else-Ends P I (done a s) k v next = v
  or_else-Ends P I (fail e s) k v next = next e s v
  or_else-Ends P I panic k v next = v
  or_else-Ends P I out_of_fuel k v next = tt

  pub Ends-both :
      {A : Type 0} (P : Type 0) (I J : S → Type 0) (r : Outcome S E A)
      → Ends P I r
      → Ends P J r
      → Ends P (λ s. I s × J s) r
  Ends-both P I J (done a s) v w = (v, w)
  Ends-both P I J (fail e s) v w = (v, w)
  Ends-both P I J panic v w = v
  Ends-both P I J out_of_fuel v w = tt

  pub Ends-map :
      {A : Type 0} (P : Type 0) (I J : S → Type 0) (r : Outcome S E A)
      → ((s : S) → I s → J s)
      → Ends P I r
      → Ends P J r
  Ends-map P I J (done a s) f v = f s v
  Ends-map P I J (fail e s) f v = f s v
  Ends-map P I J panic f v = v
  Ends-map P I J out_of_fuel f v = tt

module _ {p : Platform} {h : Handler p} {A : Type 0} (P : Type 0) (I : Live p h → Type 0) where
  pub give_io-Ends : (r : IoResult A) (s : Live p h) → I s → Ends P I (give_io r s)
  give_io-Ends (ok a) s v = v
  give_io-Ends (err e) s v = v

  pub give-Ends : (r : Result A) (s : Live p h) → I s → Ends P I (give r s)
  give-Ends (ok a) s v = v
  give-Ends (err e) s v = v

-- A method keeps the invariant, and panics only where `P` holds of the connection.
abbrev pub Keeps :
    {p : Platform} {h : Handler p} {A : Type 0} → (Connection p h → Type 0) → Method p h A → Type 0
Keeps {p} {h} P m = (s : Live p h) → IsValid s.conn → Ends (P s.conn) (λ t. IsValid t.conn) (m s)

abbrev pub Never : {p : Platform} {h : Handler p} → Connection p h → Type 0
Never c = ⊥
