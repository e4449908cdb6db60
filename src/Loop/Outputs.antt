-- ===== src/Loop/Outputs.antt =====
-- src/io.rs: what is to be written on a connection is left alone while the connections are
-- scheduled again and told of errors.
use xnet_socket.Base.{
  ℕ, ◌≡◌, inl, inr, refl, ◌∙◌, Option, none, some, List, [], ◌∷◌, Str, Outcome, done, fail, panic,
  out_of_fuel, and_then, ◌>>=◌, arith, Option-cases, eq-cases, ok, err,
}
use xnet_socket.Errors.{Error, IoResult}
use xnet_socket.Buffer.{unread}
use xnet_socket.Platform.{Platform}
use xnet_socket.Handler.{Handler}
use xnet_socket.Connection.{
  Connection, Live, error, error_connecting, error_established, send_close, disconnect,
  check_events,
}
use xnet_socket.Valid.Invariant.{Ends}
use xnet_socket.Traffic.Hearing.{Gets}
use xnet_socket.Loop.Site.{Site, LawfulSlabs}
use xnet_socket.Loop.Fields.{Running, Turn, put_back, settled, on_connection}
use xnet_socket.Loop.Turns.{schedule, give_io}
use xnet_socket.Loop.Served.{Returns, and_then-Returns, error-Returns, both}
use xnet_socket.Loop.Commands.{Dead, noted, scheduled_each, told_dead, scheduled_all}

module _ {p : Platform} {h : Handler p} where
  -- What is to be written is the same.
  abbrev pub SameOut : Connection p h → Connection p h → Type 0
  SameOut c d = unread d.out_buffer ≡ unread c.out_buffer

  established-SameOut :
      (x : Error) (s : Live p h)
      → Ends Unit (λ t. SameOut s.conn t.conn) (error_established x.kind x s)
  unfolding error_established send_close check_events disconnect
  established-SameOut x s = ground arith

  error-SameOut : (x : Error) (s : Live p h) → Ends Unit (λ t. SameOut s.conn t.conn) (error x s)
  unfolding error error_connecting
  error-SameOut x s = ground (arith, established-SameOut x s)

  pub Gets-SameOut : (xs : Str) (c d f : Connection p h) → Gets xs c d → SameOut d f → Gets xs c f
  Gets-SameOut xs c d f (inl v) w = inl (w ∙ v)
  Gets-SameOut xs c d f (inr (v, n)) w = inr (w ∙ v, n)

module _ {e : Site} where
  -- Every connection is still there, as one that is related to it.
  abbrev pub Becomes :
      (Connection e.p e.h → Connection e.p e.h → Type 0) → Running e → Running e → Type 0
  Becomes P s r =
      (t : ℕ) (c : Connection e.p e.h)
      → e.slabs.get s.connections t ≡ some c
      → (d : Connection e.p e.h) × (e.slabs.get r.connections t ≡ some d) × P c d

  -- It comes to an end without an error, unless it panics, and so does every connection.
  abbrev pub Leads :
      {A : Type 0}
      → (Connection e.p e.h → Connection e.p e.h → Type 0)
      → Running e
      → Outcome (Running e) Error A
      → Type 0
  Leads P s o = Returns (λ a r. Becomes P s r) o

  module _ (P : Connection e.p e.h → Connection e.p e.h → Type 0)
      (goes : (c d f : Connection e.p e.h) → P c d → SameOut d f → P c f) where
    over_same : (s r u : Running e) → Becomes P s r → Becomes SameOut r u → Becomes P s u
    over_same s r u v w t c g =
        let (d, g', x) = v t c g in let (f, g'', y) = w t d g' in (f, g'', goes c d f x y)

    pub on_same :
        {A : Type 0} (s r : Running e) (o : Outcome (Running e) Error A)
        → Becomes P s r
        → Leads SameOut r o
        → Leads P s o
    on_same s r (done a u) v w = over_same s r u v w
    on_same s r (fail x u) v w = w
    on_same s r panic v w = tt
    on_same s r out_of_fuel v w = w

  then_same :
      {A B : Type 0} (s : Running e) (o : Outcome (Running e) Error A) (k : A → Turn e B)
      → Leads SameOut s o
      → ((a : A) (r : Running e) → Leads SameOut r (k a r))
      → Leads SameOut s (and_then o k)
  then_same s o k v next =
      and_then-Returns (λ a r. Becomes SameOut s r) (λ b r. Becomes SameOut s r) o k v
        (λ a r w. on_same SameOut (λ c d f x y. y ∙ x) s r (k a r) w (next a r))

  module _ (l : LawfulSlabs e.slabs) where
    put_back-SameOut :
        (t : ℕ) (live : Live e.p e.h) (s : Running e) (conn : Connection e.p e.h)
        → e.slabs.get s.connections t ≡ some conn
        → SameOut conn live.conn
        → Becomes SameOut s (put_back t live s)
    put_back-SameOut t live s conn g v u c q = elim (eq-cases t u) [
      | inl same ↦ (
        live.conn,
        ground (arith, same, l.get_put t live.conn conn s.connections g),
        ground (arith, v, g, q, same),
      )
      | inr other ↦ (c, l.get_put_other t u live.conn s.connections other ∙ q, refl)
    ]

    told-SameOut :
        (t : ℕ) (x : Error) (s : Running e) → Leads SameOut s (on_connection t (error x) s)
    unfolding on_connection
    told-SameOut t x s = elim (Option-cases (e.slabs.get s.connections t)) [
      | inl g ↦ rw (g, on_connection) tt
      | inr (conn, g) ↦
          rw (g, on_connection)
            (went conn g (error x (record { conn = conn; world = s.world })) (
              both (λ r. SameOut conn r.conn) (λ u r. Unit)
                (error x (record { conn = conn; world = s.world }))
                (error-Returns x (record { conn = conn; world = s.world }))
                (error-SameOut x (record { conn = conn; world = s.world }))))
    ]
      where
        went :
            (conn : Connection e.p e.h)
            → e.slabs.get s.connections t ≡ some conn
            → (o : Outcome (Live e.p e.h) Error (Unit {0})) → Returns (λ u r. SameOut conn r.conn) o
            → Leads SameOut s (settled t o s)
        went conn g (done u r) v = put_back-SameOut t r s conn g v
        went conn g (fail y r) v = v
        went conn g panic v = tt
        went conn g out_of_fuel v = v

    told_dead-SameOut : (dead : Dead) (s : Running e) → Leads SameOut s (told_dead dead s)
    unfolding told_dead
    told_dead-SameOut [] = λ s t c g. (c, g, refl)
    told_dead-SameOut ((t, x) ∷ dead) = λ s.
        then_same s (on_connection t (error x) s) (λ u. told_dead dead) (told-SameOut t x s)
          (λ u r. told_dead-SameOut dead r)

    noted-SameOut :
        (conn : Connection e.p e.h) (dead : Dead) (s : Running e)
        → Leads SameOut s (noted conn dead (schedule conn) s)
    unfolding schedule
    noted-SameOut conn dead s = went (e.reregister _ _ _ s.world).0 _ (λ t c g. (c, g, refl))
      where
        went :
            (res : IoResult (Unit {0})) (r : Running e)
            → Becomes SameOut s r
            → Leads SameOut s (noted conn dead (λ q. give_io res r) s)
        went (ok u) r v = v
        went (err x) r v = v

    scheduled_each-SameOut :
        (ts : List ℕ) (dead : Dead) (s : Running e) → Leads SameOut s (scheduled_each ts dead s)
    unfolding scheduled_each
    scheduled_each-SameOut [] dead = λ s t c g. (c, g, refl)
    scheduled_each-SameOut (t ∷ ts) dead =
        λ s. went s (e.slabs.get s.connections t) (λ d r. scheduled_each-SameOut ts d r)
      where
        went :
            (s : Running e) (o : Option (Connection e.p e.h))
            → ((d : Dead) (r : Running e) → Leads SameOut r (scheduled_each ts d r))
            → Leads SameOut s (elim o [
              | none ↦ panic
              | some conn ↦ (noted conn dead (schedule conn) >>= scheduled_each ts) s
            ])
        went s none next = tt
        went s (some conn) next =
            then_same s (noted conn dead (schedule conn) s) (scheduled_each ts)
              (noted-SameOut conn dead s) next

    pub scheduled_all-SameOut :
        (dead : Dead) (s : Running e) → Leads SameOut s (scheduled_all dead s)
    unfolding scheduled_all
    scheduled_all-SameOut dead s =
        then_same s (scheduled_each (e.slabs.keys s.connections) dead s) told_dead
          (scheduled_each-SameOut (e.slabs.keys s.connections) dead s) told_dead-SameOut
