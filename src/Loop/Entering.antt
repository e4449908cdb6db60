-- ===== src/Loop/Entering.antt =====
-- src/io.rs: connections get into the loop, by connecting or accepting, and `J` is kept.
use xnet_socket.Base.{
  ℕ, inl, inr, List, [], ◌∷◌, Str, if◌then◌else◌, Outcome, done, fail, panic, out_of_fuel, and_then,
  ok, err, arith, Option-cases, Bool, true, false,
}
use mathlib.Core.List.{reverse}
use xnet_socket.Errors.{Error, IoResult}
use xnet_socket.Connection.{Live, new, open_connection, as_server, as_client, error}
use xnet_socket.Valid.Invariant.{Ends, and_then-Ends}
use xnet_socket.Loop.Site.{Site}
use xnet_socket.Loop.Fields.{Running, Turn, on_connection}
use xnet_socket.Loop.Turns.{give_io, remove_connection}
use xnet_socket.Loop.Entry.{
  inserted, opened, nodelay, dialled_one, answered_dial, dialled, lost, dropped, registered, joined,
  reached, looked_up, handed, connect, told, welcomed, accept,
}
use xnet_socket.Valid.History.{opens, serves, connects}
use xnet_socket.Loop.Steady.{Splits, Steady, give_io-Ends}
use xnet_socket.Loop.Turned.{
  KeepsAll, then-KeepsAll, guarded-KeepsAll, on_connection-KeepsAll, told-KeepsAll,
}

module _ {e : Site} (J : Running e → Type 0) (k : Steady J) where
  nodelay-KeepsAll : (sock : e.p.Socket) → KeepsAll J (nodelay sock)
  unfolding nodelay
  nodelay-KeepsAll sock s all = went s.settings.tcp_nodelay
    where
      went :
          (b : Bool)
          → Ends Unit J (
              if b
              then give_io
                  (e.set_nodelay sock s.world).0
                  (record s { world = (e.set_nodelay sock s.world).1 })
              else done tt s)
      went true = give_io-Ends J _ _ (k.outside s _ all)
      went false = all

  freely :
      {A B : Type 0} (t id : ℕ) (r : Outcome (Running e) Error A) (n : A → Turn e B)
      → Splits (k.between t id) J r
      → ((a : A) (s : Running e) → k.between t id s → Ends Unit J (n a s))
      → Ends Unit J (and_then r n)
  freely t id (done a s) n v next = next a s v
  freely t id (fail x s) n v next = v
  freely t id panic n v next = tt
  freely t id out_of_fuel n v next = tt

  opened-Ends :
      (r : Outcome (Live e.p e.h) Error (Unit {0})) (t id : ℕ) (s : Running e)
      → k.between t id s
      → Ends Unit (λ live. k.seat s t live.conn) r
      → Ends Unit J (opened r t s)
  unfolding opened
  opened-Ends (done u live) t id s f v = k.seating t id live.conn s live.world f v
  opened-Ends (fail x live) t id s f v = k.seating t id live.conn s live.world f v
  opened-Ends panic t id s f v = tt
  opened-Ends out_of_fuel t id s f v = tt

  dialled_one-Ends :
      (sock : e.p.Socket) (t id : ℕ) (handler : e.h.H) (s : Running e)
      → k.between t id s
      → Ends Unit J (dialled_one sock t id handler s)
  unfolding dialled_one
  dialled_one-Ends sock t id handler s f =
      freely t id (nodelay sock s) _ (k.nodelayed t id sock s f) (λ u r g.
        opened-Ends _ t id r g (k.called opens r t _ (k.fresh t id r g sock handler r.settings)))

  dialled-Ends :
      (addrs : List e.p.Addr) (url : Str) (t id : ℕ) (handler : e.h.H) (s : Running e)
      → k.between t id s
      → Ends Unit J (dialled addrs url t id handler s)
  unfolding dialled answered_dial lost
  dialled-Ends [] url t id handler s f = k.given_up t id handler s f
  dialled-Ends (addr ∷ rest) url t id handler s f =
      went (e.p.tcp_connect addr s.world).0 _ (k.meanwhile t id s _ f)
        (dialled-Ends rest url t id handler _ (k.meanwhile t id s _ f))
    where
      went :
          (res : IoResult e.p.Socket) (r : Running e)
          → k.between t id r
          → Ends Unit J (dialled rest url t id handler r)
          → Ends Unit J (answered_dial res (dialled rest url t id handler) rest t id handler r)
      went (ok sock) r g next =
          and_then-Ends Unit J (dialled_one sock t id handler r) _
            (dialled_one-Ends sock t id handler r g) (λ u q all. all)
      went (err x) r g next = next

  dropped-KeepsAll : (t : ℕ) (x : Error) → KeepsAll J (dropped t x)
  unfolding dropped
  dropped-KeepsAll t x = then-KeepsAll J (remove_connection t) _ (k.removed t) (λ u s all. all)

  pub registered-KeepsAll : (t : ℕ) → KeepsAll J (registered t)
  unfolding registered
  registered-KeepsAll t s all = elim (Option-cases (e.slabs.get s.connections t)) [
    | inl g ↦ rw (g, registered) tt
    | inr (conn, g) ↦ rw (g, registered) (give_io-Ends J _ _ (k.outside s _ all))
  ]

  joined-KeepsAll : (t : ℕ) (url : Str) (rest : List e.p.Addr) → KeepsAll J (joined t url rest)
  unfolding joined
  joined-KeepsAll t url rest =
      then-KeepsAll J _ _
        (guarded-KeepsAll J (on_connection t (as_client url rest)) (dropped t)
          (on_connection-KeepsAll J k t (as_client url rest) (k.called (connects url rest)))
          (dropped-KeepsAll t))
        (λ u.
          guarded-KeepsAll J (registered t) (dropped t) (registered-KeepsAll t)
            (dropped-KeepsAll t))

  reached-Ends :
      (addrs : IoResult (List e.p.Addr)) (url : Str) (t id : ℕ) (handler : e.h.H) (s : Running e)
      → k.between t id s
      → Ends Unit J (reached addrs url t id handler s)
  unfolding reached
  reached-Ends (err x) url t id handler s f = tt
  reached-Ends (ok addrs) url t id handler s f =
      and_then-Ends Unit J (dialled (reverse addrs) url t id handler s) _
        (dialled-Ends (reverse addrs) url t id handler s f)
        (λ rest. joined-KeepsAll t url (reverse rest))

  looked_up-Ends :
      (url : Str) (t id : ℕ) (handler : e.h.H) (s : Running e)
      → k.between t id s
      → Ends Unit J (looked_up url t id handler s)
  unfolding looked_up
  looked_up-Ends url t id handler s f =
      reached-Ends (e.to_socket_addrs url s.world).0 url t id handler
        (record s { world = (e.to_socket_addrs url s.world).1 }) (k.meanwhile t id s _ f)

  pub connect-KeepsAll : (url : Str) → KeepsAll J (connect url)
  unfolding connect
  connect-KeepsAll url s all = elim (Option-cases (e.slabs.vacant_entry s.connections)) [
    | inl g ↦ rw (g, connect) all
    | inr (t, g) ↦
        rw (g, connect)
          (freely t s.next_connection_id (handed e.f.client_connected t s)
            (looked_up url t s.next_connection_id) (k.dialling t s g all)
            (λ handler r f. looked_up-Ends url t s.next_connection_id handler r f))
  ]

  warned-KeepsAll : (t : ℕ) (x : Error) → KeepsAll J (told t x)
  warned-KeepsAll t x =
      then-KeepsAll J (on_connection t (error x)) _ (told-KeepsAll J k t x)
        (λ u s all. ground (arith, all))

  welcomed-KeepsAll : (t : ℕ) → KeepsAll J (welcomed t)
  unfolding welcomed
  welcomed-KeepsAll t =
      then-KeepsAll J _ _
        (then-KeepsAll J _ _ (on_connection-KeepsAll J k t as_server (k.called serves)) (λ u.
          guarded-KeepsAll J (registered t) (told t) (registered-KeepsAll t) (warned-KeepsAll t)))
        (λ u.
          guarded-KeepsAll J (on_connection t open_connection) (told t)
            (on_connection-KeepsAll J k t open_connection (k.called opens)) (warned-KeepsAll t))

  pub accept-KeepsAll : (sock : e.p.Socket) → KeepsAll J (accept sock)
  unfolding accept
  accept-KeepsAll sock s all =
      and_then-Ends Unit J (nodelay sock s) _ (nodelay-KeepsAll sock s all) (λ u r valid.
        elim (Option-cases (e.slabs.vacant_entry r.connections)) [
          | inl g ↦ rw g valid
          | inr (t, g) ↦ rw g (
              freely t r.next_connection_id (handed e.f.server_connected t r) _
                (k.answering t r g valid)
                (λ handler q f.
                  and_then-Ends Unit J
                    (inserted t (new t sock handler r.settings r.next_connection_id) q) _
                    (k.seating t r.next_connection_id _ q q.world f
                      (k.fresh t r.next_connection_id q f sock handler r.settings))
                    (λ v. welcomed-KeepsAll t)))
        ])
