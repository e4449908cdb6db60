-- ===== src/XnetSocket/Binding.antt =====
-- src/lib.rs: what `bind` leaves behind, and loops that `build` has made.
use xnet_socket.Base.{
  ◌≡◌, refl, subst, true, false, some, List, [], ◌∷◌, Str, ok, err, Outcome, done, fail, panic,
  out_of_fuel, and_then, or_else, arith,
}
use xnet_socket.Errors.{Error, IoResult}
use xnet_socket.Communication.{all_token}
use xnet_socket.Loop.Site.{Site}
use xnet_socket.Loop.Fields.{Loop, Running, Turn, update}
use xnet_socket.Loop.Turns.{give_io, is_client}
use xnet_socket.Loop.Runs.{listen, kept_listener}
use xnet_socket.XnetSocket.{bound_to, bind}

module _ {e : Site} where
  -- A result of `bind` on a loop: it listens, and nothing else of the loop has changed, or the loop is as it
  -- was; only a debug build panics, and only for a second listener.
  abbrev pub Listens : Loop e → Outcome (Running e) Error (Unit {0}) → Type 0
  Listens l (done u s) = (x : e.Listener) × s.loop ≡ record l { listener = some x }
  Listens l (fail x s) = s.loop ≡ l
  Listens l panic = (e.p.debug_assertions ≡ true) × (is_client l.listener ≡ false)
  Listens l out_of_fuel = ⊥

  given-Listens :
      {A : Type 0} (l : Loop e) (res : IoResult A) (k : A → Turn e (Unit {0})) (s : Running e)
      → s.loop ≡ l
      → ((a : A) → Listens l (k a s))
      → Listens l (and_then (give_io res s) k)
  given-Listens l (ok a) k s q v = v a
  given-Listens l (err x) k s q v = q

  kept_listener-Listens : (x : e.Listener) (s : Running e) → Listens s.loop (kept_listener x s)
  unfolding kept_listener
  kept_listener-Listens x s =
      given-Listens s.loop (e.register_listener x (all_token e.p) e.p.readable s.world).0
        (λ u r. done tt (update (λ l. record l { listener = some x }) r)) _ refl (λ u. (x, refl))

  listen-Listens : (addr : e.p.Addr) (s : Running e) → Listens s.loop (listen addr s)
  unfolding listen
  listen-Listens addr s = ground (
    arith,
    given-Listens s.loop (e.bind addr s.world).0 kept_listener
        (record s { world = (e.bind addr s.world).1 }) refl
        (λ x. kept_listener-Listens x (record s { world = (e.bind addr s.world).1 })),
  )

  otherwise-Listens :
      (l : Loop e) (r : Outcome (Running e) Error (Unit {0})) (k : Error → Turn e (Unit {0}))
      → Listens l r
      → ((x : Error) (s : Running e) → s.loop ≡ l → Listens l (k x s))
      → Listens l (or_else r k)
  otherwise-Listens l (done u s) k v next = v
  otherwise-Listens l (fail x s) k v next = next x s v
  otherwise-Listens l panic k v next = v
  otherwise-Listens l out_of_fuel k v next = v

  bound_to-Listens :
      (addrs : List e.p.Addr) (x : Error) (s : Running e) → Listens s.loop (bound_to addrs x s)
  unfolding bound_to
  bound_to-Listens [] x = λ s. refl
  bound_to-Listens (addr ∷ rest) x = λ s.
      otherwise-Listens s.loop (listen addr s) (bound_to rest) (listen-Listens addr s)
        (λ y t q. subst (λ l. Listens l (bound_to rest y t)) q (bound_to-Listens rest y t))

  -- `bind` ends in one of two ways, or in a panic: the loop listens, and nothing else of it has
  -- changed, or an error is returned and the loop is as it was. It panics only in a debug build, and only
  -- where the loop listened already.
  pub bind-Listens : (spec : Str) (s : Running e) → Listens s.loop (bind spec s)
  unfolding bind
  bind-Listens spec s =
      given-Listens s.loop (e.to_socket_addrs spec s.world).0 _ _ refl
        (λ addrs. bound_to-Listens addrs _ _)
