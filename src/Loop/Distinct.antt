-- ===== src/Loop/Distinct.antt =====
-- src/io.rs: the connection ids in the loop, and what leaves them distinct.
use xnet_socket.Base.{
  ℕ, suc, none, ◌+◌, ◌<◌, ◌≡◌, refl, sym, ◌∙◌, subst, inl, inr, some, eq-cases, arith,
}
use xnet_socket.Connection.{Connection, Live}
use xnet_socket.Loop.Site.{Site, LawfulSlabs}
use xnet_socket.Loop.Fields.{Running, put_back}
use xnet_socket.Loop.Ledger.{Ledger}

module _ {e : Site} where
  -- Two connections with the same connection id are under the same token.
  abbrev pub Distinct : Running e → Type 0
  Distinct s =
      (t u : ℕ) (c d : Connection e.p e.h)
      → e.slabs.get s.connections t ≡ some c
      → e.slabs.get s.connections u ≡ some d
      → c.connection_id ≡ d.connection_id
      → t ≡ u

  -- All connection ids are below a bound.
  abbrev pub Below : ℕ → Running e → Type 0
  Below n s =
      (t : ℕ) (c : Connection e.p e.h) → e.slabs.get s.connections t ≡ some c → c.connection_id < n

  -- Each connection of the second state was there in the first, under its token and with its id.
  abbrev pub Within : (s r : Running e) → Type 0
  Within s r =
      (t : ℕ) (c : Connection e.p e.h)
      → e.slabs.get r.connections t ≡ some c
      → (d : Connection e.p e.h) × (e.slabs.get s.connections t ≡ some d)
        × (c.connection_id ≡ d.connection_id)

  pub Below-Within : (n : ℕ) (s r : Running e) → Within s r → Below n s → Below n r
  Below-Within n s r w below t c q = let (d, p, same) = w t c q in ground (arith, same, below t d p)

  pub Distinct-Within : (s r : Running e) → Within s r → Distinct s → Distinct r
  Distinct-Within s r w apart t u c d p q same =
      let (c', p', i) = w t c p in
      let (d', q', j) = w u d q in apart t u c' d' p' q' (sym i ∙ same ∙ j)

  module _ (l : LawfulSlabs e.slabs) where
    pub put_back-Within :
        (t : ℕ) (conn : Connection e.p e.h) (live : Live e.p e.h) (s : Running e)
        → e.slabs.get s.connections t ≡ some conn
        → live.conn.connection_id ≡ conn.connection_id
        → Within s (put_back t live s)
    put_back-Within t conn live s g same u c q = elim (eq-cases t u) [
      | inl here ↦ (
        conn,
        subst (λ i. e.slabs.get s.connections i ≡ some conn) here g,
        ground (arith, here, q, same, l.get_put t live.conn conn s.connections g),
      )
      | inr other ↦ (c, sym (l.get_put_other t u live.conn s.connections other) ∙ q, refl)
    ]

module _ {e : Site} (g : Ledger e) (base : ℕ) where
  -- The handlers made are as many as the counter says, and the ids are distinct and below it.
  abbrev pub Numbered : Running e → Type 0
  Numbered s =
      (g.made s.factory ≡ base + s.next_connection_id) × Below s.next_connection_id s × Distinct s

  -- The counter has not wrapped around.
  abbrev pub Early : Running e → Type 0
  Early s = g.made s.factory < base + 4294967296

  -- Until it does, the connections are numbered.
  abbrev pub Identified : Running e → Type 0
  Identified s = Early s → Numbered s

  -- A handler has been made for a free slot, under an id that no connection has had.
  abbrev pub Pending : (t id : ℕ) → Running e → Type 0
  Pending t id s =
      (e.slabs.get s.connections t ≡ none)
      × (Early s
          → (g.made s.factory ≡ base + s.next_connection_id)
            × (suc id ≡ s.next_connection_id)
            × Below id s
            × Distinct s)

  -- The connection has the id of the one under its token, or the last one given out.
  abbrev pub Seat : Running e → ℕ → Connection e.p e.h → Type 0
  Seat s t conn =
      ((d : Connection e.p e.h)
        → e.slabs.get s.connections t ≡ some d
        → conn.connection_id ≡ d.connection_id)
      × (e.slabs.get s.connections t ≡ none
          → Early s
          → suc conn.connection_id ≡ s.next_connection_id)

  pub Identified-Within :
      (s r : Running e)
      → Within s r
      → g.made r.factory ≡ g.made s.factory
      → r.next_connection_id ≡ s.next_connection_id
      → Identified s
      → Identified r
  Identified-Within s r w m n v early =
      let (count, below, apart) = v (ground (arith, early, m)) in
      (
        ground (arith, count, m, n),
        subst (λ i. Below i r) (sym n) (Below-Within s.next_connection_id s r w below),
        Distinct-Within s r w apart,
      )

  pub Pending-Identified : (t id : ℕ) (s : Running e) → Pending t id s → Identified s
  Pending-Identified t id s (free, v) early =
      let (count, last, below, apart) = v early in
      (count, (λ u c q. ground (arith, last, below u c q)), apart)
