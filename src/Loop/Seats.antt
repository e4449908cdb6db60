-- ===== src/Loop/Seats.antt =====
-- src/io.rs: a property of every connection of the loop is kept, if the connection's methods keep it.
use xnet_socket.Base.{ℕ, ◌≡◌, inl, inr, sym, ◌∙◌, subst, none, some, Option-cases, eq-cases, arith}
use xnet_socket.Errors.{Error}
use xnet_socket.Base.{Outcome, done, fail, panic, out_of_fuel}
use xnet_socket.Connection.{Connection, Live}
use xnet_socket.Valid.Invariant.{Ends}
use xnet_socket.Loop.Site.{Site, LawfulSlabs}
use xnet_socket.Loop.Fields.{Running, put_back, settled}
use xnet_socket.Loop.Turns.{remove_connection, told_shutdown}
use xnet_socket.Loop.Entry.{lost, inserted, nodelay}
use xnet_socket.Loop.Runs.{set_activity}
use xnet_socket.Loop.Steady.{Kept, Splits, Steady}

module _ {e : Site} (I : ℕ → Connection e.p e.h → Type 0) where
  -- `I` holds of every connection and its key.
  abbrev pub Everywhere : Running e → Type 0
  Everywhere s =
      (t : ℕ) (conn : Connection e.p e.h) → e.slabs.get s.connections t ≡ some conn → I t conn

  -- `I` holds everywhere, and the slot under a token is free.
  abbrev Free : ℕ → Running e → Type 0
  Free t s = Everywhere s × (e.slabs.get s.connections t ≡ none)

  nodelay-Free :
      (t : ℕ) (sock : e.p.Socket) (s : Running e)
      → Free t s
      → Splits (Free t) Everywhere (nodelay sock s)
  unfolding nodelay
  nodelay-Free t sock s f = ground (arith, f.0, f.1)

  module _ (l : LawfulSlabs e.slabs) where
    put_back-Everywhere :
        (t : ℕ) (conn : Connection e.p e.h) (live : Live e.p e.h) (s : Running e)
        → e.slabs.get s.connections t ≡ some conn
        → Everywhere s
        → I t live.conn
        → Everywhere (put_back t live s)
    put_back-Everywhere t conn live s g all v u found q = elim (eq-cases t u) [
      | inl same ↦
          subst (λ i. I i found) same
            (subst (I t) (ground (arith, l.get_put t live.conn conn s.connections g)) v)
      | inr other ↦ all u found (sym (l.get_put_other t u live.conn s.connections other) ∙ q)
    ]

    pub settled-Everywhere :
        {A : Type 0} (t : ℕ) (conn : Connection e.p e.h) (r : Outcome (Live e.p e.h) Error A)
        (s : Running e)
        → e.slabs.get s.connections t ≡ some conn
        → Everywhere s
        → Ends Unit (λ live. I t live.conn) r
        → Ends Unit Everywhere (settled t r s)
    settled-Everywhere t conn (done a live) s g all v = put_back-Everywhere t conn live s g all v
    settled-Everywhere t conn (fail x live) s g all v = put_back-Everywhere t conn live s g all v
    settled-Everywhere t conn panic s g all v = tt
    settled-Everywhere t conn out_of_fuel s g all v = tt

    remove-Everywhere :
        (t : ℕ) (s : Running e) → Everywhere s → Ends Unit Everywhere (remove_connection t s)
    unfolding remove_connection
    remove-Everywhere t s all = elim (Option-cases (e.slabs.get s.connections t)) [
      | inl g ↦ rw (g, remove_connection) tt
      | inr (conn, g) ↦
          rw (g, remove_connection)
            (λ u found q. elim (eq-cases t u) [
              | inl same ↦ absurd (ground (arith, l.get_remove t s.connections))
              | inr other ↦ all u found (sym (l.get_remove_other t u s.connections other) ∙ q)
            ])
    ]

    inserted-Everywhere :
        (t : ℕ) (conn : Connection e.p e.h) (s : Running e)
        → Free t s
        → I t conn
        → Ends Unit Everywhere (inserted t conn s)
    unfolding inserted
    inserted-Everywhere t conn s (all, free) v u found q = elim (eq-cases t u) [
      | inl same ↦
          subst (λ i. I i found) same
            (subst (I t) (ground (arith, l.get_insert t conn s.connections free)) v)
      | inr other ↦ all u found (sym (l.get_insert_other t u conn s.connections other) ∙ q)
    ]

    pub Everywhere-Steady : Kept {p = e.p} {h = e.h} I → Steady {e = e} Everywhere
    unfolding told_shutdown lost set_activity
    Everywhere-Steady k = record {
      seat = λ s. I;
      between = λ t id. Free t;
      called = λ call s. k.called call;
      outside = λ s w all. all;
      told = λ s all. all;
      seated = λ t conn s g all. all t conn g;
      put = put_back-Everywhere;
      removed = remove-Everywhere;
      dialling = λ t s g all. (all, l.vacant t s.connections g);
      answering = λ t s g all. (all, l.vacant t s.connections g);
      meanwhile = λ t id s w f. f;
      nodelayed = λ t id sock s f. nodelay-Free t sock s f;
      given_up = λ t id handler s f. f.0;
      fresh = λ t id s f sock handler settings. k.fresh t sock handler settings id;
      seating = λ t id conn s w f v. inserted-Everywhere t conn (record s { world = w }) f v;
    }
