-- ===== src/Loop/Identity.antt =====
-- src/io.rs: no two connections of the loop have the same connection id, until the counter wraps.
use xnet_socket.Base.{
  ℕ, suc, Bool, true, false, ok, err, if◌then◌else◌, ◌⊎◌, ◌≡◌, refl, sym, ◌∙◌, inl, inr, none, some,
  done, Option-cases, eq-cases, arith,
}
use xnet_socket.Errors.{IoResult}
use xnet_socket.Communication.Senders.{Sender, new_sender}
use xnet_socket.Connection.{Connection, consume, new}
use xnet_socket.Valid.History.{Call, perform}
use xnet_socket.Valid.Names.{perform-Holds}
use xnet_socket.Valid.Invariant.{Ends}
use xnet_socket.Loop.Site.{Site, LawfulSlabs}
use xnet_socket.Loop.Fields.{inactive, Running, put_back}
use xnet_socket.Loop.Turns.{give_io, remove_connection, told_shutdown}
use xnet_socket.Loop.Entry.{handed, lost, inserted, nodelay}
use xnet_socket.Loop.Runs.{set_activity, run}
use xnet_socket.Loop.Steady.{KeepsSeat, Splits, Steady}
use xnet_socket.Loop.Rounds.{Cause, turn, turn-KeepsAll, run-KeepsAll}
use xnet_socket.Loop.Ledger.{Ledger}
use xnet_socket.Loop.Distinct.{put_back-Within}
use xnet_socket.Loop.Distinct.{
  Early, Identified, Pending, Seat, Identified-Within, Pending-Identified,
}

module _ {e : Site} (g : Ledger e) (base : ℕ) where
  called-KeepsSeat : (call : Call e.p) (s : Running e) → KeepsSeat (Seat g base s) (perform call)
  called-KeepsSeat call s t live v =
      perform-Holds
        (λ tok id o.
          ((d : Connection e.p e.h) → e.slabs.get s.connections t ≡ some d → id ≡ d.connection_id)
          × (e.slabs.get s.connections t ≡ none → Early g base s → suc id ≡ s.next_connection_id))
        call live v

  nodelay-Pending :
      (t id : ℕ) (sock : e.p.Socket) (s : Running e)
      → Pending g base t id s
      → Splits (Pending g base t id) (Identified g base) (nodelay sock s)
  unfolding nodelay
  nodelay-Pending t id sock s v = went s.settings.tcp_nodelay
    where
      answered :
          (res : IoResult (Unit {0})) (w : e.p.World)
          → Splits (Pending g base t id) (Identified g base) (give_io res (record s { world = w }))
      answered (ok u) w = v
      answered (err x) w = Pending-Identified g base t id s v

      went :
          (b : Bool)
          → Splits (Pending g base t id) (Identified g base) (
              if b
              then give_io
                  (e.set_nodelay sock s.world).0
                  (record s { world = (e.set_nodelay sock s.world).1 })
              else done tt s)
      went true = answered _ _
      went false = v

  lost-Identified :
      (t id : ℕ) (handler : e.h.H) (s : Running e)
      → Pending g base t id s
      → Ends Unit (Identified g base) (lost handler s)
  unfolding lost
  lost-Identified t id handler s v =
      let (f, w) = e.f.connection_lost handler s.factory s.world in
      let (same, _) = g.given_back handler s.factory s.world in
      Identified-Within g base s (record s { loop = record s.loop { factory = f }; world = w })
        (λ u c q. (c, q, refl)) same refl (Pending-Identified g base t id s v)

  told-Identified :
      (s : Running e) → Identified g base s → Ends Unit (Identified g base) (told_shutdown s)
  unfolding told_shutdown
  told-Identified s v =
      let (f, w) = e.f.on_shutdown s.factory s.world in
      let (same, _) = g.told_off s.factory s.world in
      Identified-Within g base s
        (record s { loop = record s.loop { factory = f; state = inactive }; world = w })
        (λ u c q. (c, q, refl)) same refl v

  module _ (l : LawfulSlabs e.slabs) where
    new_found :
        (t : ℕ) (conn : Connection e.p e.h) (s : Running e) (u : ℕ) (c : Connection e.p e.h)
        → e.slabs.get s.connections t ≡ none
        → e.slabs.get (e.slabs.insert t conn s.connections) u ≡ some c
        → (t ≡ u) × (c.connection_id ≡ conn.connection_id) ⊎ (e.slabs.get s.connections u ≡ some c)
    new_found t conn s u c free q = elim (eq-cases t u) [
      | inl here ↦ inl (here, ground (arith, here, q, l.get_insert t conn s.connections free))
      | inr other ↦ inr (sym (l.get_insert_other t u conn s.connections other) ∙ q)
    ]

    inserted-Identified :
        (t id : ℕ) (conn : Connection e.p e.h) (s : Running e) (w : e.p.World)
        → Pending g base t id s
        → Seat g base s t conn
        → Ends Unit (Identified g base) (inserted t conn (record s { world = w }))
    unfolding inserted
    inserted-Identified t id conn s w (free, v) seat early =
        let (count, last, below, apart) = v early in
        let mine = seat.1 free early in
        (
          count,
          (λ u c q. elim (new_found t conn s u c free q) [
            | inl (here, same) ↦ ground (arith, same, mine)
            | inr there ↦ ground (arith, last, below u c there)
          ]),
          (λ i j c d p q same. elim (new_found t conn s i c free p) [
            | inl (here, a) ↦ elim (new_found t conn s j d free q) [
              | inl (too, b) ↦ sym here ∙ too
              | inr there ↦ absurd (ground (arith, a, same, mine, last, below j d there))
            ]
            | inr old ↦ elim (new_found t conn s j d free q) [
              | inl (too, b) ↦ absurd (ground (arith, b, same, mine, last, below i c old))
              | inr there ↦ apart i j c d old there same
            ]
          ]),
        )

    handed-Pending :
        (makes : Sender e.c → e.f.F → e.p.World → e.h.H × e.f.F × e.p.World) (t : ℕ) (s : Running e)
        → ((x : Sender e.c) (f : e.f.F) (w : e.p.World) → g.made (makes x f w).1 ≡ suc (g.made f))
        → e.slabs.vacant_entry s.connections ≡ some t
        → Identified g base s
        → Ends Unit (Pending g base t s.next_connection_id) (handed makes t s)
    handed-Pending makes t s more q v =
        let made = more (new_sender t s.queue_tx s.next_connection_id) s.factory s.world in
        (
          l.vacant t s.connections q,
          (λ early.
              let (count, below, apart) = v (ground (arith, early, made)) in
              (
                ground (arith, early, made, count),
                ground (arith, early, made, count),
                below,
                apart,
              )),
        )

    removed-Identified :
        (t : ℕ) (s : Running e)
        → Identified g base s
        → Ends Unit (Identified g base) (remove_connection t s)
    unfolding remove_connection
    removed-Identified t s v = elim (Option-cases (e.slabs.get s.connections t)) [
      | inl q ↦ rw (q, remove_connection) tt
      | inr (conn, q) ↦
          let (f, w) = e.f.connection_lost (consume conn) s.factory s.world in
          let (same, _) = g.given_back (consume conn) s.factory s.world in
          rw (q, remove_connection)
            (Identified-Within g base s
              (record s {
                loop = record s.loop { connections = e.slabs.remove t s.connections; factory = f };
                world = w;
              })
              (λ u c p. elim (eq-cases t u) [
                | inl here ↦ absurd (ground (arith, here, p, l.get_remove t s.connections))
                | inr other ↦ (c, sym (l.get_remove_other t u s.connections other) ∙ p, refl)
              ])
              same refl v)
    ]

    pub Identified-Steady : Steady {e = e} (Identified g base)
    unfolding set_activity new
    Identified-Steady = record {
      seat = Seat g base;
      between = Pending g base;
      called = called-KeepsSeat;
      outside = λ s w v. v;
      told = told-Identified;
      seated = λ t conn s q v.
          ((λ d p. ground (arith, p, q)), (λ free. absurd (ground (arith, free, q))));
      put = λ t conn live s q v seat.
          Identified-Within g base s (put_back t live s)
            (put_back-Within l t conn live s q (seat.0 conn q)) refl refl v;
      removed = removed-Identified;
      dialling = λ t s. handed-Pending e.f.client_connected t s (λ x f w. (g.client_made x f w).0);
      answering = λ t s. handed-Pending e.f.server_connected t s (λ x f w. (g.server_made x f w).0);
      meanwhile = λ t id s w v. v;
      nodelayed = nodelay-Pending;
      given_up = lost-Identified;
      fresh = λ t id s v sock handler settings.
          ((λ d q. absurd (ground (arith, q, v.0))), (λ free early. (v.1 early).1));
      seating = inserted-Identified;
    }

module _ {e : Site} (g : Ledger e) (l : LawfulSlabs e.slabs) where
  -- If, as long as fewer than 2 ^ 32 handlers have been made since the counter was 0, the counter is
  -- their number, and the connection ids in the loop are below it and no two of them are the same,
  -- then so it is after every turn of the loop and every whole run of it, where they end within their
  -- fuel and short of a panic, and also where they return an error.
  pub run-Identified :
      (base rounds fuel : ℕ) (x : Cause e.p) (s : Running e)
      → Identified g base s
      → Ends Unit (Identified g base) (turn x s) × Ends Unit (Identified g base) (run rounds fuel s)
  unfolding set_activity
  run-Identified base rounds fuel x s v = (
    turn-KeepsAll (Identified g base) (Identified-Steady g base l) x s v,
    run-KeepsAll (Identified g base) (Identified-Steady g base l) (λ a r w. w) rounds fuel s v,
  )
