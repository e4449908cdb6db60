-- ===== src/Loop/Fields.antt =====
-- src/io.rs: the state of the event loop, and how it reaches its connections.
use xnet_socket.Base.{
  ℕ, Option, none, some, List, [], ◌∷◌, Outcome, done, fail, panic, out_of_fuel, Action, pure, ◌>>◌,
}
use xnet_socket.Errors.{Error}
use xnet_socket.Settings.{Settings}
use xnet_socket.Connection.{Connection, Live, Method}
use xnet_socket.Loop.Site.{Site}

-- The `State` of src/io.rs.
pub data Activity : Type 0 where
  active inactive : Activity

module _ (e : Site) where
  -- The channel's receiver and the timer lie in the world.
  pub record Loop : Type 0 where
    pub listener : Option e.Listener
    pub connections : e.slabs.Slab
    pub factory : e.f.F
    pub settings : Settings
    pub state : Activity
    pub queue_tx : e.c.SyncSender
    pub next_connection_id : ℕ

  pub record Running : Type 0 where
    pub loop : Loop
    pub open loop use *
    pub world : e.p.World

  abbrev pub Turn : Type 0 → Type 0
  Turn A = Action Running Error A

module _ {e : Site} where
  abbrev pub update : (Loop e → Loop e) → Running e → Running e
  update g s = record s { loop = g s.loop }

  abbrev pub put_back : ℕ → Live e.p e.h → Running e → Running e
  put_back t l s = record s {
    loop = record s.loop { connections = e.slabs.put t l.conn s.connections };
    world = l.world;
  }

  -- What a method of the connection under a token leaves behind.
  abbrev pub settled :
      {A : Type 0} → ℕ → Outcome (Live e.p e.h) Error A → Running e → Outcome (Running e) Error A
  settled t (done a l) s = done a (put_back t l s)
  settled t (fail x l) s = fail x (put_back t l s)
  settled t panic s = panic
  settled t out_of_fuel s = out_of_fuel

  -- A method of a connection that has been found.
  abbrev pub on_found : {A : Type 0} → ℕ → Connection e.p e.h → Method e.p e.h A → Turn e A
  on_found t conn m s = settled t (m (record { conn = conn; world = s.world })) s

  -- `self.connections[token]`, which panics on an empty slot.
  unfoldable pub on_connection : {A : Type 0} → ℕ → Method e.p e.h A → Turn e A
  on_connection t m s = elim (e.slabs.get s.connections t) [
    | none ↦ panic
    | some conn ↦ on_found t conn m s
  ]

  -- `for conn in self.connections.iter_mut()`.
  unfoldable pub on_each : List ℕ → Method e.p e.h (Unit {0}) → Turn e (Unit {0})
  on_each [] m = pure tt
  on_each (t ∷ ts) m = on_connection t m >> on_each ts m
