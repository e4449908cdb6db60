-- ===== src/Connection/Fields.antt =====
-- src/connection.rs: the state of a connection, and the steps that its methods are made of.
use xnet_socket.Base.{ℕ, List, Str, Bool, true, false, str, ok, err, done, fail, Action}
use xnet_socket.Errors.{Error, Result, IoResult, from_io}
use xnet_socket.Buffer.{Cursor}
use xnet_socket.Protocol.{CloseCode}
use xnet_socket.Message.{Message}
use xnet_socket.Settings.{Settings}
use xnet_socket.Platform.{Platform}
use xnet_socket.Handler.{Handler, Answer}
use xnet_socket.Stream.{Stream, peer_addr as ask_peer}

pub data State : Type 0 where
  connecting : Cursor → Cursor → State
  opened awaiting_close responding_close finished_close : State

pub data Endpoint : Type 0 where
  client : Str → Endpoint
  server : Endpoint

unfoldable pub is_connecting : State → Bool
is_connecting (State.connecting req res) = true
is_connecting _ = false

unfoldable pub is_open : State → Bool
is_open State.opened = true
is_open _ = false

unfoldable pub is_closing : State → Bool
is_closing State.awaiting_close = true
is_closing State.finished_close = true
is_closing _ = false

-- `Connection::is_client`.
unfoldable pub is_client : Endpoint → Bool
is_client (Endpoint.client url) = true
is_client Endpoint.server = false

-- `Connection::is_server`.
unfoldable pub is_server : Endpoint → Bool
is_server (Endpoint.client url) = false
is_server Endpoint.server = true

module _ (p : Platform) (h : Handler p) where
  pub record Connection : Type 0 where
    pub token : ℕ
    pub socket : Stream p.Socket
    pub state : State
    pub endpoint : Endpoint
    pub events : p.Ready
    pub in_buffer : Cursor
    pub out_buffer : Cursor
    pub handler : h.H
    pub addresses : List p.Addr
    pub settings : Settings
    pub connection_id : ℕ

  -- What a method of a connection reads and writes: its fields, and the world outside.
  pub record Live : Type 0 where
    pub conn : Connection
    pub open conn use *
    pub world : p.World

  abbrev pub Method : Type 0 → Type 0
  Method A = Action Live Error A

-- The peer's address, for the log.
shown_peer : (p : Platform) → IoResult p.Addr → Str
shown_peer p (ok addr) = p.addr_text addr
shown_peer p (err e) = str "UNKNOWN"

module _ {p : Platform} {h : Handler p} where
  abbrev pub update : (Connection p h → Connection p h) → Live p h → Live p h
  update f s = record s { conn = f s.conn }

  abbrev pub set_state : State → Live p h → Live p h
  set_state q = update λ c. record c { state = q }

  abbrev pub set_events : p.Ready → Live p h → Live p h
  set_events r = update λ c. record c { events = r }

  abbrev pub set_in : Cursor → Live p h → Live p h
  set_in b = update λ c. record c { in_buffer = b }

  abbrev pub set_out : Cursor → Live p h → Live p h
  set_out b = update λ c. record c { out_buffer = b }

  abbrev pub insert_event : p.Ready → Live p h → Live p h
  insert_event r s = set_events (p.insert s.events r) s

  abbrev pub remove_event : p.Ready → Live p h → Live p h
  remove_event r s = set_events (p.remove s.events r) s

  -- `Err(error)` and `Ok(value)` as the result of a step.
  abbrev pub give : {A : Type 0} → Result A → Method p h A
  give (ok a) s = done a s
  give (err e) s = fail e s

  -- `?` on an I/O result, through `From<io::Error>`.
  abbrev pub give_io : {A : Type 0} → IoResult A → Method p h A
  give_io (ok a) s = done a s
  give_io (err e) s = fail (from_io e) s

  -- A step of the state without a result.
  abbrev pub step : (Live p h → Live p h) → Method p h (Unit {0})
  step f s = done tt (f s)

  unfoldable pub peer_addr : Live p h → Str
  unfolding shown_peer ask_peer
  peer_addr s = shown_peer p (ask_peer p s.socket s.world)

  abbrev left_by : h.H × p.World → Live p h → Live p h
  left_by r s = record s { conn = record s.conn { handler = r.0 }; world = r.1 }

  -- The callbacks of the connection's handler.
  abbrev pub call_error : Error → Method p h (Unit {0})
  call_error e = step λ s. left_by (h.on_error e s.handler s.world) s

  abbrev pub call_close : CloseCode → Str → Method p h (Unit {0})
  call_close code reason = step λ s. left_by (h.on_close code reason s.handler s.world) s

  abbrev pub call_shutdown : Method p h (Unit {0})
  call_shutdown = step λ s. left_by (h.on_shutdown s.handler s.world) s

  abbrev pub answered : Answer h.H p.World → Method p h (Unit {0})
  answered a s = give a.0 (left_by (a.1, a.2) s)

  abbrev pub call_message : Message → Method p h (Unit {0})
  call_message m s = answered (h.on_message m s.handler s.world) s

  abbrev pub call_timeout : ℕ → Method p h (Unit {0})
  call_timeout event s = answered (h.on_timeout event s.handler s.world) s

  abbrev pub call_new_timeout : ℕ → p.Timeout → Method p h (Unit {0})
  call_new_timeout event timeout s = answered (h.on_new_timeout event timeout s.handler s.world) s
