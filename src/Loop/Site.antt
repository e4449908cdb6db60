-- ===== src/Loop/Site.antt =====
-- What src/io.rs takes from elsewhere: the slab of the crate slab, and mio's poll and timer.
use xnet_socket.Base.{ℕ, ◌≡◌, ◌≢◌, Option, none, some, List, Str, StdResult, Bool, Among, Apart}
use xnet_socket.Errors.{IoResult, TimerError}
use xnet_socket.Platform.{Platform}
use xnet_socket.Handler.{Handler}
use xnet_socket.Communication.{Channels, Command}
use xnet_socket.Factory.{Factory}
use xnet_socket.Connection.{Connection}

-- `slab::Slab`, whose keys are tokens: `put` writes through `get_mut` or an index, `keys` are those
-- that an iteration meets, in its order.
pub record Slabs (A : Type 0) : Type 1 where
  pub Slab : Type 0
  pub get : Slab → ℕ → Option A
  pub put : ℕ → A → Slab → Slab
  pub remove : ℕ → Slab → Slab
  pub keys : Slab → List ℕ
  pub count : Slab → ℕ
  pub with_capacity : ℕ → Slab
  pub vacant_entry : Slab → Option ℕ
  pub insert : ℕ → A → Slab → Slab

pub record LawfulSlabs {A : Type 0} (s : Slabs A) : Type 0 where
  pub get_with_capacity : (n t : ℕ) → s.get (s.with_capacity n) t ≡ none
  pub get_put : (t : ℕ) (a b : A) (x : s.Slab) → s.get x t ≡ some b → s.get (s.put t a x) t ≡ some a
  pub get_put_other : (t u : ℕ) (a : A) (x : s.Slab) → t ≢ u → s.get (s.put t a x) u ≡ s.get x u
  pub get_remove : (t : ℕ) (x : s.Slab) → s.get (s.remove t x) t ≡ none
  pub get_remove_other : (t u : ℕ) (x : s.Slab) → t ≢ u → s.get (s.remove t x) u ≡ s.get x u
  pub vacant : (t : ℕ) (x : s.Slab) → s.vacant_entry x ≡ some t → s.get x t ≡ none
  pub get_insert :
      (t : ℕ) (a : A) (x : s.Slab) → s.get x t ≡ none → s.get (s.insert t a x) t ≡ some a
  pub get_insert_other :
      (t u : ℕ) (a : A) (x : s.Slab) → t ≢ u → s.get (s.insert t a x) u ≡ s.get x u

-- The keys are those in use, each once.
pub record LawfulKeys {A : Type 0} (s : Slabs A) : Type 0 where
  pub keys_apart : (x : s.Slab) → Apart (s.keys x)
  pub keys_hold : (t : ℕ) (x : s.Slab) → Among t (s.keys x) → (a : A) × (s.get x t ≡ some a)
  pub keys_among : (t : ℕ) (a : A) (x : s.Slab) → s.get x t ≡ some a → Among t (s.keys x)

-- `Timeout` of src/io.rs, lines 65 to 69: whom a timeout is for.
pub record Alarm : Type 0 where
  pub connection : ℕ
  pub event : ℕ

-- The program's surroundings, with the user's handlers and factory.
pub record Site : Type 1 where
  pub p : Platform
  pub h : Handler p
  pub c : Channels p
  pub f : Factory c h
  pub slabs : Slabs (Connection p h)
  -- `mio::tcp::TcpListener`.
  pub Listener : Type 0
  -- The addresses that a text names.
  pub to_socket_addrs : Str → p.World → IoResult (List p.Addr) × p.World
  pub set_nodelay : p.Socket → p.World → IoResult (Unit {0}) × p.World
  -- `Poll::register` and `Poll::reregister` of a connection's socket, for one event of the given readiness.
  pub register : p.Socket → ℕ → p.Ready → p.World → IoResult (Unit {0}) × p.World
  pub reregister : p.Socket → ℕ → p.Ready → p.World → IoResult (Unit {0}) × p.World
  -- `mio::timer::Timer`, which lies in the world.
  pub set_timeout : (delay : ℕ) → Alarm → p.World → StdResult p.Timeout TimerError × p.World
  pub cancel_timeout : p.Timeout → p.World → p.World
  pub next_timeout : p.World → Option Alarm × p.World
  -- `cfg(windows)`.
  pub windows : Bool
  -- The parts of the poll that are not for connections: a poll gives the events, each with its token
  -- and its readiness.
  pub new_poll : p.World → IoResult (Unit {0}) × p.World
  pub poll : (capacity : ℕ) → p.World → IoResult (List (ℕ × p.Ready)) × p.World
  pub register_listener : Listener → ℕ → p.Ready → p.World → IoResult (Unit {0}) × p.World
  pub register_queue : ℕ → p.World → IoResult (Unit {0}) × p.World
  pub reregister_queue : ℕ → p.World → IoResult (Unit {0}) × p.World
  pub deregister_queue : p.World → IoResult (Unit {0}) × p.World
  pub register_timer : ℕ → p.World → IoResult (Unit {0}) × p.World
  pub deregister_timer : p.World → IoResult (Unit {0}) × p.World
  -- `TcpListener`: `bind`, `accept` and `local_addr`.
  pub bind : p.Addr → p.World → IoResult Listener × p.World
  pub accept : Listener → p.World → IoResult p.Socket × p.World
  pub local_addr : Listener → IoResult p.Addr
  -- The channel of commands, whose receiver lies in the world; an error of the receiver is a text.
  pub sync_channel : ℕ → p.World → c.SyncSender × p.World
  pub try_recv : p.World → StdResult (Command p.Timeout) Str × p.World
