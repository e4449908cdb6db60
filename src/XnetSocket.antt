-- ===== src/XnetSocket.antt =====
-- src/lib.rs: the library's face, `XnetSocket`, with its `Builder` and the two functions that make one
-- and run it. An `XnetSocket` is the loop and the world, in which its poll lies.
pub mod Binding
pub mod Keeping
pub mod Whole
use xnet_socket.Base.{
  List, [], ◌∷◌, Str, str, Outcome, Action, done, fail, panic, out_of_fuel, pure, ◌>>=◌, ◌>>◌,
  or_else, and_then, StdResult, ok, err, ℕ,
}
use xnet_socket.Errors.{Error, Kind, new_error, IoResult, from_io}
use xnet_socket.Settings.{Settings, default_settings}
use xnet_socket.Communication.Senders.{Sender, connect as send_connect}
use xnet_socket.Loop.Site.{Site}
use xnet_socket.Loop.Fields.{Loop, Running, Turn}
use xnet_socket.Loop.Turns.{give_io}
use xnet_socket.Loop.Runs.{
  give, new_loop, sender, sender_handler as loop_sender, local_addr as loop_addr,
  listen as listen_on, run as run_loop,
}

pub record Builder : Type 0 where
  pub settings : Settings

unfoldable pub new_builder : Builder
unfolding default_settings
new_builder = record { settings = default_settings }

unfoldable pub with_settings : Settings → Builder → Builder
with_settings settings b = record b { settings = settings }

abbrev no_address : Error
no_address = new_error Kind.internal (str "No address given")

-- What runs on a loop, as a run on the world alone: the loop is dropped at its end.
abbrev finished : {e : Site} {A : Type 0} → Outcome (Running e) Error A → Outcome e.p.World Error A
finished (done a s) = done a s.world
finished (fail x s) = fail x s.world
finished panic = panic
finished out_of_fuel = out_of_fuel

abbrev opened_poll : {W A : Type 0} → IoResult (Unit {0}) → Action W Error A → Action W Error A
opened_poll (ok u) m w = m w
opened_poll (err x) m w = fail (from_io x) w

module _ {e : Site} where
  open e use {p}

  unfoldable pub build : e.f.F → Builder → Action p.World Error (Loop e)
  unfolding new_loop
  build factory b w =
      let (res, w') = e.new_poll w in opened_poll res (new_loop factory b.settings) w'

  unfoldable pub new_socket : e.f.F → Action p.World Error (Loop e)
  unfolding build new_builder
  new_socket factory = build factory new_builder

  -- The addresses in turn, until one can be listened on; the last error, if none can.
  unfoldable pub bound_to : List p.Addr → Error → Turn e (Unit {0})
  unfolding listen_on
  bound_to [] last = fail last
  bound_to (addr ∷ rest) last = λ s. or_else (listen_on addr s) (bound_to rest)

  unfoldable pub bind : Str → Turn e (Unit {0})
  unfolding bound_to
  bind spec s =
      let (addrs, w) = e.to_socket_addrs spec s.world in
      (give_io addrs >>= λ list. bound_to list no_address) (record s { world = w })

  unfoldable pub run : (rounds fuel : ℕ) → Turn e (Unit {0})
  unfolding run_loop
  run rounds fuel = run_loop rounds fuel

  unfoldable pub listen : (rounds fuel : ℕ) → Str → Turn e (Unit {0})
  unfolding bind run
  listen rounds fuel spec = bind spec >> run rounds fuel

  unfoldable pub connect : Str → Turn e (Unit {0})
  unfolding send_connect sender
  connect url s =
      let (res, w) = send_connect url (sender s) s.world in give res (record s { world = w })

  unfoldable pub broadcaster : Running e → Sender e.c
  unfolding sender
  broadcaster s = sender s

  unfoldable pub local_addr : Running e → IoResult p.Addr
  unfolding loop_addr
  local_addr s = loop_addr s

  unfoldable pub sender_handler : Running e → e.c.SyncSender
  unfolding loop_sender
  sender_handler s = loop_sender s

  abbrev with_loop : Turn e (Unit {0}) → Loop e → Action p.World Error (Unit {0})
  with_loop m l w = finished (m (record { loop = l; world = w }))

module _ (e : Site) where
  -- `listen` and `connect` of the crate.
  unfoldable pub listen_with : (rounds fuel : ℕ) → Str → e.f.F → Action e.p.World Error (Unit {0})
  unfolding new_socket listen
  listen_with rounds fuel spec factory =
      new_socket {e = e} factory >>= with_loop (listen rounds fuel spec)

  unfoldable pub connect_with : (rounds fuel : ℕ) → Str → e.f.F → Action e.p.World Error (Unit {0})
  unfolding new_socket connect run
  connect_with rounds fuel url factory =
      new_socket {e = e} factory >>= with_loop (connect url >> run rounds fuel)
