-- ===== src/XnetSocket/Whole.antt =====
-- src/lib.rs: what holds of sockets from their making to the end of their loop.
use xnet_socket.Base.{ℕ, ◌≡◌, ◌∙◌, ap, none, Str, ◌>>◌, arith}
use xnet_socket.Settings.{Settings}
use xnet_socket.Platform.{Lawful}
use xnet_socket.Valid.Invariant.{Ends}
use xnet_socket.Loop.Site.{Site, LawfulSlabs}
use xnet_socket.Loop.Fields.{Running}
use xnet_socket.Loop.Runs.{set_activity}
use xnet_socket.Loop.Kept.{AllValid, valid-Steady}
use xnet_socket.Loop.Ledger.{Ledger, LawfulCounts, NodelayWorks, Balanced, Balanced-Steady}
use xnet_socket.Loop.Distinct.{Identified}
use xnet_socket.Loop.Identity.{Identified-Steady}
use xnet_socket.XnetSocket.{Builder, build, run, listen, connect}
use xnet_socket.XnetSocket.Keeping.{Makes, Begins, socket-Ends}

module _ (e : Site) (l : LawfulSlabs e.slabs) where
  get-Begins :
      (s : Running e) (settings : Settings) (factory : e.f.F)
      → Begins factory settings s.loop
      → (t : ℕ) → e.slabs.get s.connections t ≡ none
  get-Begins s settings factory v t =
      ap (λ x. e.slabs.get x t) v.empty ∙ l.get_with_capacity settings.max_connections t

  module _ (q : Lawful e.p) where
    -- Whatever a builder makes, from any settings: to listen and run, and to connect and run, both end
    -- with valid connections only, where they end within their fuel and short of a panic, and also
    -- where they return an error.
    pub socket-AllValid :
        (rounds fuel : ℕ) (text : Str) (factory : e.f.F) (b : Builder) (w : e.p.World)
        → Makes {e = e}
            (λ x w'.
              let s : Running e = record { loop = x; world = w' } in
              Ends Unit AllValid (listen rounds fuel text s)
              × Ends Unit AllValid ((connect text >> run rounds fuel) s))
            (build {e = e} factory b w)
    unfolding set_activity
    socket-AllValid rounds fuel text factory b w =
        socket-Ends AllValid (valid-Steady q l) (λ a s v. v) (λ x s v. v) rounds fuel text factory b
          w (λ s v t c p. absurd (ground (arith, p, get-Begins s b.settings factory v t)))

  module _ (g : Ledger e) where
    -- Whatever a builder makes, from any settings by which `TCP_NODELAY` is off or can be set, around
    -- a factory that has been given back all handlers it had made: to listen and run, and to connect
    -- and run, both end with as many handlers made as connections in the loop and handlers given
    -- back to `connection_lost`, and with the settings of the builder, where they end within their
    -- fuel and short of a panic, and also where they return an error.
    pub socket-Balanced :
        LawfulCounts e.slabs
        → (rounds fuel : ℕ) (text : Str) (factory : e.f.F) (b : Builder) (w : e.p.World)
        → NodelayWorks e b.settings
        → g.made factory ≡ g.back factory
        → Makes {e = e}
            (λ x w'.
              let s : Running e = record { loop = x; world = w' } in
              Ends Unit (Balanced g b.settings) (listen rounds fuel text s)
              × Ends Unit (Balanced g b.settings) ((connect text >> run rounds fuel) s))
            (build {e = e} factory b w)
    unfolding set_activity
    socket-Balanced c rounds fuel text factory b w works clear =
        socket-Ends (Balanced g b.settings) (Balanced-Steady g b.settings c l works) (λ a s v. v)
          (λ x s v. v) rounds fuel text factory b w
          (λ s v. (
            ground (
              arith,
              clear,
              ap g.made v.same_factory,
              ap g.back v.same_factory,
              ap e.slabs.count v.empty,
              c.count_with_capacity b.settings.max_connections,
            ),
            v.same_settings,
          ))

    -- Whatever a builder makes, from any settings: to listen and run, and to connect and run, both end
    -- with connections of which no two have the same connection id, unless 2 ^ 32 handlers or more
    -- have been made in it, where they end within their fuel and short of a panic, and also where they
    -- return an error.
    pub socket-Identified :
        (rounds fuel : ℕ) (text : Str) (factory : e.f.F) (b : Builder) (w : e.p.World)
        → Makes {e = e}
            (λ x w'.
              let s : Running e = record { loop = x; world = w' } in
              Ends Unit (Identified g (g.made factory)) (listen rounds fuel text s)
              × Ends Unit (Identified g (g.made factory)) ((connect text >> run rounds fuel) s))
            (build {e = e} factory b w)
    unfolding set_activity
    socket-Identified rounds fuel text factory b w =
        socket-Ends (Identified g (g.made factory)) (Identified-Steady g (g.made factory) l)
          (λ a s v. v) (λ x s v. v) rounds fuel text factory b w
          (λ s v early. (
            ground (arith, ap g.made v.same_factory, v.first_id),
            (λ t c p. absurd (ground (arith, p, get-Begins s b.settings factory v t))),
            (λ t u c d p. absurd (ground (arith, p, get-Begins s b.settings factory v t))),
          ))
