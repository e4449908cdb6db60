-- ===== src/XnetSocket/Keeping.antt =====
-- src/lib.rs: what the loop keeps holds of a socket from its making to the end of its loop.
use xnet_socket.Base.{
  ℕ, Bool, true, false, ok, err, StdResult, if◌then◌else◌, ◌≡◌, refl, sym, subst, some, none, Str,
  Outcome, done, fail, panic, out_of_fuel, ◌>>◌, arith,
}
use xnet_socket.Errors.{Error}
use xnet_socket.Settings.{Settings}
use xnet_socket.Valid.Invariant.{Ends, and_then-Ends}
use xnet_socket.Communication.Senders.{connect as send_connect}
use xnet_socket.Loop.Site.{Site}
use xnet_socket.Loop.Fields.{inactive, Loop, Running}
use xnet_socket.Loop.Runs.{new_loop, sender, give}
use xnet_socket.Loop.Steady.{Steady, Lasts}
use xnet_socket.Loop.Rounds.{run-KeepsAll}
use xnet_socket.XnetSocket.{Builder, build, bind, run, listen, connect}
use xnet_socket.XnetSocket.Binding.{Listens, bind-Listens}

module _ {e : Site} where
  -- What holds of a loop that has been made, with the world that is left.
  abbrev pub Makes : (Loop e → e.p.World → Type 0) → Outcome e.p.World Error (Loop e) → Type 0
  Makes P (done l w) = P l w
  Makes P (fail x w) = Unit
  Makes P panic = Unit
  Makes P out_of_fuel = Unit

  -- A loop of these settings around this factory, with an empty slab and its counter at 0.
  pub record Begins (factory : e.f.F) (settings : Settings) (l : Loop e) : Type 0 where
    pub empty : l.connections ≡ e.slabs.with_capacity settings.max_connections
    pub same_factory : l.factory ≡ factory
    pub same_settings : l.settings ≡ settings
    pub first_id : l.next_connection_id ≡ 0

  Makes-map :
      (P Q : Loop e → e.p.World → Type 0)
      → ((l : Loop e) (w : e.p.World) → P l w → Q l w)
      → (o : Outcome e.p.World Error (Loop e)) → Makes P o
      → Makes Q o
  Makes-map P Q m (done l w) v = m l w v
  Makes-map P Q m (fail x w) v = tt
  Makes-map P Q m panic v = tt
  Makes-map P Q m out_of_fuel v = tt

module _ (e : Site) where
  begun :
      (factory : e.f.F) (settings : Settings) (w : e.p.World)
      → Makes {e = e} (λ x w'. Begins factory settings x) (new_loop {e = e} factory settings w)
  unfolding new_loop
  begun factory settings w = went _ _ _
    where
      went :
          (b : Bool) (tx : e.c.SyncSender) (w' : e.p.World)
          → Makes {e = e}
              (λ x w''. Begins factory settings x)
              (if b
                then panic
                else done
                    (record {
                      listener = none;
                      connections = e.slabs.with_capacity settings.max_connections;
                      factory = factory;
                      settings = settings;
                      state = inactive;
                      queue_tx = tx;
                      next_connection_id = 0;
                    })
                    w')
      went true tx w' = tt
      went false tx w' = record {
        empty = refl;
        same_factory = refl;
        same_settings = refl;
        first_id = refl;
      }

  build-Begins :
      (factory : e.f.F) (b : Builder) (w : e.p.World)
      → Makes {e = e} (λ x w'. Begins factory b.settings x) (build {e = e} factory b w)
  unfolding build
  build-Begins factory b w = ground (arith, begun factory b.settings (e.new_poll w).1)

module _ {e : Site} where
  module _ (J : Running e → Type 0) (k : Steady J) (act : Lasts J)
      (hears_of : (x : e.Listener) (s : Running e)
        → J s
        → J (record s { loop = record s.loop { listener = some x } })) where
    bound-Ends :
        (s : Running e) (o : Outcome (Running e) Error (Unit {0}))
        → J s
        → Listens s.loop o
        → Ends Unit J o
    bound-Ends s (done u r) v (x, same) =
        subst (λ z. J (record { loop = z; world = r.world })) (sym same)
          (k.outside (record s { loop = record s.loop { listener = some x } }) r.world
            (hears_of x s v))
    bound-Ends s (fail x r) v same =
        subst (λ z. J (record { loop = z; world = r.world })) (sym same) (k.outside s r.world v)
    bound-Ends s panic v same = tt
    bound-Ends s out_of_fuel v same = absurd same

    connect-Ends : (url : Str) (s : Running e) → J s → Ends Unit J (connect url s)
    unfolding connect
    connect-Ends url s v = went (send_connect url (sender s) s.world).0
      where
        went :
            (res : StdResult (Unit {0}) Error)
            → Ends Unit J (give res (record s { world = (send_connect url (sender s) s.world).1 }))
        went (ok u) = k.outside s _ v
        went (err x) = k.outside s _ v

    -- Whatever holds of the loops that a builder makes, and is kept.
    pub socket-Ends :
        (rounds fuel : ℕ) (text : Str) (factory : e.f.F) (b : Builder) (w : e.p.World)
        → ((s : Running e) → Begins factory b.settings s.loop → J s)
        → Makes {e = e}
            (λ x w'.
              let s : Running e = record { loop = x; world = w' } in
              Ends Unit J (listen rounds fuel text s)
              × Ends Unit J ((connect text >> run rounds fuel) s))
            (build {e = e} factory b w)
    unfolding listen run
    socket-Ends rounds fuel text factory b w starts =
        Makes-map (λ x w'. Begins factory b.settings x) _
          (λ x w' v.
            let s : Running e = record { loop = x; world = w' } in
            (
              and_then-Ends Unit J (bind text s) _
                  (bound-Ends s (bind text s) (starts s v) (bind-Listens text s))
                  (λ u. run-KeepsAll J k act rounds fuel),
              and_then-Ends Unit J (connect text s) _ (connect-Ends text s (starts s v))
                  (λ u. run-KeepsAll J k act rounds fuel),
            ))
          (build {e = e} factory b w) (build-Begins e factory b w)
