-- ===== src/Loop/Ledger.antt =====
-- src/io.rs: every handler that the factory has made is in the loop, or was given back once.
use xnet_socket.Base.{
  ℕ, suc, ◌+◌, ◌≡◌, sym, ap, ◌∙◌, true, inl, inr, none, some, ok, Option-cases, Bool-cases, arith,
}
use xnet_socket.Settings.{Settings}
use xnet_socket.Communication.Senders.{Sender, new_sender}
use xnet_socket.Connection.{Connection, Live, consume}
use xnet_socket.Valid.History.{perform}
use xnet_socket.Valid.Invariant.{Ends}
use xnet_socket.Loop.Site.{Site, Slabs, LawfulSlabs}
use xnet_socket.Loop.Fields.{Running, put_back}
use xnet_socket.Loop.Turns.{remove_connection, told_shutdown}
use xnet_socket.Loop.Entry.{handed, lost, inserted, nodelay}
use xnet_socket.Loop.Runs.{set_activity, run}
use xnet_socket.Loop.Steady.{whatever, Splits, Steady}
use xnet_socket.Loop.Rounds.{Cause, turn, turn-KeepsAll, run-KeepsAll}

-- `len` of the slab counts the slots in use.
pub record LawfulCounts {A : Type 0} (s : Slabs A) : Type 0 where
  pub count_with_capacity : (n : ℕ) → s.count (s.with_capacity n) ≡ 0
  pub count_put :
      (t : ℕ) (a b : A) (x : s.Slab) → s.get x t ≡ some b → s.count (s.put t a x) ≡ s.count x
  pub count_insert :
      (t : ℕ) (a : A) (x : s.Slab) → s.get x t ≡ none → s.count (s.insert t a x) ≡ suc (s.count x)
  pub count_remove :
      (t : ℕ) (a : A) (x : s.Slab) → s.get x t ≡ some a → suc (s.count (s.remove t x)) ≡ s.count x

-- A factory that counts the handlers that it makes, and those that it is given back.
pub record Ledger (e : Site) : Type 0 where
  pub made : e.f.F → ℕ
  pub back : e.f.F → ℕ
  pub client_made :
      (s : Sender e.c) (f : e.f.F) (w : e.p.World)
      → (made (e.f.client_connected s f w).1 ≡ suc (made f))
        × (back (e.f.client_connected s f w).1 ≡ back f)
  pub server_made :
      (s : Sender e.c) (f : e.f.F) (w : e.p.World)
      → (made (e.f.server_connected s f w).1 ≡ suc (made f))
        × (back (e.f.server_connected s f w).1 ≡ back f)
  pub given_back :
      (handler : e.h.H) (f : e.f.F) (w : e.p.World)
      → (made (e.f.connection_lost handler f w).0 ≡ made f)
        × (back (e.f.connection_lost handler f w).0 ≡ suc (back f))
  pub told_off :
      (f : e.f.F) (w : e.p.World)
      → (made (e.f.on_shutdown f w).0 ≡ made f) × (back (e.f.on_shutdown f w).0 ≡ back f)

-- Where `TCP_NODELAY` is asked for, it can be set.
abbrev pub NodelayWorks : Site → Settings → Type 0
NodelayWorks e o =
    o.tcp_nodelay ≡ true → (sock : e.p.Socket) (w : e.p.World) → (e.set_nodelay sock w).0 ≡ ok tt

module _ {e : Site} (g : Ledger e) (o : Settings) where
  -- So many handlers are neither in the loop nor given back, and the settings are as they were.
  abbrev pub Missing : ℕ → Running e → Type 0
  Missing n s =
      (g.made s.factory ≡ n + (g.back s.factory + e.slabs.count s.connections)) × (s.settings ≡ o)

  -- The handlers that were made are those in the loop and those given back.
  abbrev pub Balanced : Running e → Type 0
  Balanced = Missing 0

  -- One handler is neither, and the slot is free.
  abbrev Pending : ℕ → Running e → Type 0
  Pending t s = Missing 1 s × (e.slabs.get s.connections t ≡ none)

  module _ (works : NodelayWorks e o) where
    nodelay-Pending :
        (t : ℕ) (sock : e.p.Socket) (s : Running e)
        → Pending t s
        → Splits (Pending t) Balanced (nodelay sock s)
    unfolding nodelay
    nodelay-Pending t sock s ((m, i), f) = elim (Bool-cases s.settings.tcp_nodelay) [
      | inl on ↦
          ground (arith, m, i, f, on, works (sym (ap (λ x. x.tcp_nodelay) i) ∙ on) sock s.world)
      | inr off ↦ ground (arith, m, i, f, off)
    ]

  module _ (c : LawfulCounts e.slabs) where
    put_back-Balanced :
        (t : ℕ) (conn : Connection e.p e.h) (live : Live e.p e.h) (s : Running e)
        → e.slabs.get s.connections t ≡ some conn
        → Balanced s
        → Balanced (put_back t live s)
    put_back-Balanced t conn live s q b =
        ground (arith, b, c.count_put t live.conn conn s.connections q)

    removed-Balanced :
        (t : ℕ) (s : Running e) → Balanced s → Ends Unit Balanced (remove_connection t s)
    unfolding remove_connection
    removed-Balanced t s b = elim (Option-cases (e.slabs.get s.connections t)) [
      | inl q ↦ rw (q, remove_connection) tt
      | inr (conn, q) ↦
          rw (q, remove_connection)
            (ground (
              arith,
              b,
              c.count_remove t conn s.connections q,
              g.given_back (consume conn) s.factory s.world,
            ))
    ]

    inserted-Balanced :
        (t : ℕ) (conn : Connection e.p e.h) (s : Running e)
        → Pending t s
        → Ends Unit Balanced (inserted t conn s)
    unfolding inserted
    inserted-Balanced t conn s v = ground (arith, v, c.count_insert t conn s.connections v.1)

    lost-Balanced :
        (t : ℕ) (handler : e.h.H) (s : Running e)
        → Pending t s
        → Ends Unit Balanced (lost handler s)
    unfolding lost
    lost-Balanced t handler s v = ground (arith, v, g.given_back handler s.factory s.world)

    told-Balanced : (s : Running e) → Balanced s → Ends Unit Balanced (told_shutdown s)
    unfolding told_shutdown
    told-Balanced s v = ground (arith, v, g.told_off s.factory s.world)

    module _ (l : LawfulSlabs e.slabs) where
      dialling-Pending :
          (t : ℕ) (s : Running e)
          → e.slabs.vacant_entry s.connections ≡ some t
          → Balanced s
          → Ends Unit (Pending t) (handed e.f.client_connected t s)
      dialling-Pending t s q v = ground (
        arith,
        v,
        l.vacant t s.connections q,
        g.client_made (new_sender t s.queue_tx s.next_connection_id) s.factory s.world,
      )

      answering-Pending :
          (t : ℕ) (s : Running e)
          → e.slabs.vacant_entry s.connections ≡ some t
          → Balanced s
          → Ends Unit (Pending t) (handed e.f.server_connected t s)
      answering-Pending t s q v = ground (
        arith,
        v,
        l.vacant t s.connections q,
        g.server_made (new_sender t s.queue_tx s.next_connection_id) s.factory s.world,
      )

      pub Balanced-Steady : NodelayWorks e o → Steady {e = e} Balanced
      unfolding set_activity
      Balanced-Steady works = record {
        seat = λ s t conn. Unit;
        between = λ t id. Pending t;
        called = λ call s t r i. whatever (perform call r);
        outside = λ s w v. v;
        told = told-Balanced;
        seated = λ t conn s q v. tt;
        put = λ t conn live s q v u. put_back-Balanced t conn live s q v;
        removed = removed-Balanced;
        dialling = dialling-Pending;
        answering = answering-Pending;
        meanwhile = λ t id s w v. v;
        nodelayed = λ t id. nodelay-Pending works t;
        given_up = λ t id. lost-Balanced t;
        fresh = λ t id s v sock handler settings. tt;
        seating = λ t id conn s w v u. inserted-Balanced t conn (record s { world = w }) v;
      }

module _ {e : Site} (g : Ledger e) (c : LawfulCounts e.slabs) (l : LawfulSlabs e.slabs) where
  -- Where `TCP_NODELAY` is off or can be set: if the handlers that the factory has made are as many
  -- as the connections in the loop and the handlers given back to `connection_lost` together, then so
  -- they are after every turn of the loop and every whole run of it, which also leave the settings as
  -- they were, where they end within their fuel and short of a panic, and also where they return an
  -- error.
  pub run-Balanced :
      (rounds fuel : ℕ) (x : Cause e.p) (s : Running e)
      → NodelayWorks e s.settings
      → Balanced g s.settings s
      → Ends Unit (Balanced g s.settings) (turn x s)
        × Ends Unit (Balanced g s.settings) (run rounds fuel s)
  unfolding set_activity
  run-Balanced rounds fuel x s works v = (
    turn-KeepsAll (Balanced g s.settings) (Balanced-Steady g s.settings c l works) x s v,
    run-KeepsAll (Balanced g s.settings) (Balanced-Steady g s.settings c l works) (λ a r w. w)
        rounds fuel s v,
  )
