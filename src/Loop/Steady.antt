-- ===== src/Loop/Steady.antt =====
-- src/io.rs: what the loop keeps, if it holds of few steps: the methods of connections, and how a
-- connection gets in and out.
use xnet_socket.Base.{ℕ, ◌≡◌, some, Outcome, done, fail, panic, out_of_fuel, ok, err}
use xnet_socket.Errors.{IoResult}
use xnet_socket.Settings.{Settings}
use xnet_socket.Platform.{Platform}
use xnet_socket.Handler.{Handler}
use xnet_socket.Connection.{Connection, Method, Live, new, error}
use xnet_socket.Valid.Invariant.{Ends, and_then-Ends, or_else-Ends}
use xnet_socket.Valid.History.{Call, perform, errs}
use xnet_socket.Loop.Site.{Site}
use xnet_socket.Loop.Fields.{Activity, Running, put_back}
use xnet_socket.Loop.Turns.{give_io, remove_connection, told_shutdown, reported, then_waits}
use xnet_socket.Loop.Entry.{handed, lost, inserted, nodelay}
use xnet_socket.Loop.Runs.{set_activity}

module _ {p : Platform} {h : Handler p} (I : ℕ → Connection p h → Type 0) where
  -- However a method ends short of a panic, `I` still holds of the connection and its key.
  abbrev pub KeepsSeat : {A : Type 0} → Method p h A → Type 0
  KeepsSeat m = (t : ℕ) (s : Live p h) → I t s.conn → Ends Unit (λ r. I t r.conn) (m s)

  -- `I` holds of a new connection, and every method keeps it.
  pub record Kept : Type 0 where
    pub fresh :
        (t : ℕ) (sock : p.Socket) (handler : h.H) (settings : Settings) (id : ℕ)
        → I t (new t sock handler settings id)
    pub called : (call : Call p) → KeepsSeat (perform call)

  module _ (called : (call : Call p) → KeepsSeat (perform call)) where
    pub reported-KeepsSeat : (m : Method p h (Unit {0})) → KeepsSeat m → KeepsSeat (reported m)
    reported-KeepsSeat m v t s i =
        or_else-Ends Unit (λ r. I t r.conn) (m s) error (v t s i) (λ x r w. called (errs x) t r w)

    pub then_waits-KeepsSeat :
        (m : Method p h (Unit {0})) → KeepsSeat m → KeepsSeat (then_waits (reported m))
    then_waits-KeepsSeat m v t s i =
        and_then-Ends Unit (λ r. I t r.conn) (reported m s) _ (reported-KeepsSeat m v t s i)
          (λ u r w. w)

pub whatever : {S E A : Type 0} (r : Outcome S E A) → Ends Unit (λ s. Unit) r
whatever (done a s) = tt
whatever (fail x s) = tt
whatever panic = tt
whatever out_of_fuel = tt

-- However a run ends short of a panic: `Q` holds where it returns a value, `J` where it returns an error.
abbrev pub Splits : {S E A : Type 0} → (Q J : S → Type 0) → Outcome S E A → Type 0
Splits Q J (done a s) = Q s
Splits Q J (fail x s) = J s
Splits Q J panic = Unit
Splits Q J out_of_fuel = Unit

module _ {e : Site} where
  -- Whether the loop is active does not matter for `J`.
  abbrev pub Lasts : (Running e → Type 0) → Type 0
  Lasts J = (a : Activity) (s : Running e) → J s → J (set_activity a s)

  pub give_io-Ends :
      {A : Type 0} (I : Running e → Type 0) (r : IoResult A) (s : Running e)
      → I s
      → Ends Unit I (give_io r s)
  give_io-Ends I (ok a) s v = v
  give_io-Ends I (err x) s v = v

  -- The steps that the loop is made of keep `J`, of which the connection under a key has its part in
  -- `seat`, and which is `between` while a handler has been made for a free slot and an id.
  pub record Steady (J : Running e → Type 0) : Type 1 where
    pub seat : Running e → ℕ → Connection e.p e.h → Type 0
    pub between : (t id : ℕ) → Running e → Type 0
    pub called : (call : Call e.p) (s : Running e) → KeepsSeat (seat s) (perform call)
    pub outside : (s : Running e) (w : e.p.World) → J s → J (record s { world = w })
    pub told : (s : Running e) → J s → Ends Unit J (told_shutdown s)
    pub seated :
        (t : ℕ) (conn : Connection e.p e.h) (s : Running e)
        → e.slabs.get s.connections t ≡ some conn
        → J s
        → seat s t conn
    pub put :
        (t : ℕ) (conn : Connection e.p e.h) (live : Live e.p e.h) (s : Running e)
        → e.slabs.get s.connections t ≡ some conn
        → J s
        → seat s t live.conn
        → J (put_back t live s)
    pub removed : (t : ℕ) (s : Running e) → J s → Ends Unit J (remove_connection t s)
    pub dialling :
        (t : ℕ) (s : Running e)
        → e.slabs.vacant_entry s.connections ≡ some t
        → J s
        → Ends Unit (between t s.next_connection_id) (handed e.f.client_connected t s)
    pub answering :
        (t : ℕ) (s : Running e)
        → e.slabs.vacant_entry s.connections ≡ some t
        → J s
        → Ends Unit (between t s.next_connection_id) (handed e.f.server_connected t s)
    pub meanwhile :
        (t id : ℕ) (s : Running e) (w : e.p.World)
        → between t id s
        → between t id (record s { world = w })
    pub nodelayed :
        (t id : ℕ) (sock : e.p.Socket) (s : Running e)
        → between t id s
        → Splits (between t id) J (nodelay sock s)
    pub given_up :
        (t id : ℕ) (handler : e.h.H) (s : Running e) → between t id s → Ends Unit J (lost handler s)
    pub fresh :
        (t id : ℕ) (s : Running e)
        → between t id s
        → (sock : e.p.Socket) (handler : e.h.H) (settings : Settings)
        → seat s t (new t sock handler settings id)
    pub seating :
        (t id : ℕ) (conn : Connection e.p e.h) (s : Running e) (w : e.p.World)
        → between t id s
        → seat s t conn
        → Ends Unit J (inserted t conn (record s { world = w }))
