-- ===== src/Loop/Leak.antt =====
-- src/io.rs: a handler that `connect` drops.
use xnet_socket.Base.{
  ℕ, ◌≡◌, refl, true, some, List, ◌∷◌, Str, Outcome, done, fail, panic, out_of_fuel, Action,
  and_then, ok, err, arith,
}
use mathlib.Core.List.{reverse}
use xnet_socket.Errors.{IoError, from_io}
use xnet_socket.Communication.Senders.{new_sender}
use xnet_socket.Loop.Site.{Site}
use xnet_socket.Loop.Fields.{Running}
use xnet_socket.Loop.Entry.{
  nodelay, dialled_one, answered_dial, dialled, reached, looked_up, connect,
}
use xnet_socket.Loop.Ledger.{Ledger, Missing, Balanced}

module _ {S E : Type 0} where
  -- A run returns this error, and `J` holds of the state that it leaves.
  abbrev pub Refuses : {A : Type 0} → E → (S → Type 0) → Outcome S E A → Type 0
  Refuses x J (done a s) = ⊥
  Refuses x J (fail y s) = (y ≡ x) × J s
  Refuses x J panic = ⊥
  Refuses x J out_of_fuel = ⊥

  and_then-Refuses :
      {A B : Type 0} (x : E) (J : S → Type 0) (r : Outcome S E A) (k : A → Action S E B)
      → Refuses x J r
      → Refuses x J (and_then r k)
  and_then-Refuses x J (done a s) k v = absurd v
  and_then-Refuses x J (fail y s) k v = v
  and_then-Refuses x J panic k v = absurd v
  and_then-Refuses x J out_of_fuel k v = absurd v

module _ {e : Site} (sock : e.p.Socket) (x : IoError)
    (broken : (w : e.p.World) → (e.set_nodelay sock w).0 ≡ err x) where
  nodelay-Refuses :
      (J : Running e → Type 0) (s : Running e)
      → s.settings.tcp_nodelay ≡ true
      → ((w : e.p.World) → J (record s { world = w }))
      → Refuses (from_io x) J (nodelay sock s)
  unfolding nodelay
  nodelay-Refuses J s on v = ground (arith, on, broken s.world, v (e.set_nodelay sock s.world).1)

  dialled_one-Refuses :
      (J : Running e → Type 0) (t id : ℕ) (handler : e.h.H) (s : Running e)
      → s.settings.tcp_nodelay ≡ true
      → ((w : e.p.World) → J (record s { world = w }))
      → Refuses (from_io x) J (dialled_one sock t id handler s)
  unfolding dialled_one
  dialled_one-Refuses J t id handler s on v =
      and_then-Refuses (from_io x) J (nodelay sock s) _ (nodelay-Refuses J s on v)

  dialled-Refuses :
      (J : Running e → Type 0) (a : e.p.Addr) (rest : List e.p.Addr) (url : Str) (t id : ℕ)
      (handler : e.h.H) (s : Running e)
      → (e.p.tcp_connect a s.world).0 ≡ ok sock
      → s.settings.tcp_nodelay ≡ true
      → ((w : e.p.World) → J (record s { world = w }))
      → Refuses (from_io x) J (dialled (a ∷ rest) url t id handler s)
  unfolding dialled answered_dial
  dialled-Refuses J a rest url t id handler s reach on v = rw reach (
      and_then-Refuses (from_io x) J
        (dialled_one sock t id handler (record s { world = (e.p.tcp_connect a s.world).1 })) _
        (dialled_one-Refuses J t id handler (record s { world = (e.p.tcp_connect a s.world).1 }) on
          v))

  reached-Refuses :
      (J : Running e → Type 0) (a : e.p.Addr) (rest addrs : List e.p.Addr) (url : Str) (t id : ℕ)
      (handler : e.h.H) (s : Running e)
      → reverse addrs ≡ a ∷ rest
      → (e.p.tcp_connect a s.world).0 ≡ ok sock
      → s.settings.tcp_nodelay ≡ true
      → ((w : e.p.World) → J (record s { world = w }))
      → Refuses (from_io x) J (reached (ok addrs) url t id handler s)
  unfolding reached
  reached-Refuses J a rest addrs url t id handler s last reach on v =
      and_then-Refuses (from_io x) J (dialled (reverse addrs) url t id handler s) _
        (rw last (dialled-Refuses J a rest url t id handler s reach on v))

  -- Where the last address of a name can be connected to, but `set_nodelay`, which the settings ask
  -- for, fails on its socket, `connect` returns that error and leaves the connections as they were;
  -- but if the handlers made were all in the loop or given back, then one is neither now: the handler
  -- that was made for the connection is never given to `connection_lost`. This needs a free slot.
  pub connect_leaks :
      (g : Ledger e) (a : e.p.Addr) (rest addrs : List e.p.Addr) (url : Str) (t : ℕ) (s : Running e)
      → e.slabs.vacant_entry s.connections ≡ some t
      → s.settings.tcp_nodelay ≡ true
      → ((w : e.p.World) → (e.to_socket_addrs url w).0 ≡ ok addrs)
      → reverse addrs ≡ a ∷ rest
      → ((w : e.p.World) → (e.p.tcp_connect a w).0 ≡ ok sock)
      → Balanced g s.settings s
      → Refuses
          (from_io x)
          (λ r. Missing g s.settings 1 r × (r.connections ≡ s.connections))
          (connect url s)
  unfolding connect looked_up
  connect_leaks g a rest addrs url t s vacant on found last reach v =
      let sender = new_sender {c = e.c} t s.queue_tx s.next_connection_id in
      let (handler, f, w) = e.f.client_connected sender s.factory s.world in
      rw (vacant, connect, found w)
        (reached-Refuses (λ r. Missing g s.settings 1 r × (r.connections ≡ s.connections)) a rest
          addrs url t s.next_connection_id handler _ last (reach _) on
          (λ z. ((ground (arith, v, g.client_made sender s.factory s.world), refl), refl)))
