-- ===== src/Connection/Setup.antt =====
-- src/connection.rs: the life of a connection before and after its traffic.
use xnet_socket.Base.{
  ℕ, List, [], Option, none, some, Str, str, pop, if◌then◌else◌, done, fail, panic, ◌>>=◌,
}
use xnet_socket.Errors.{Kind, IoResult, new_error}
use xnet_socket.Buffer.{Cursor, with_capacity, new_cursor, seek_start}
use xnet_socket.Settings.{Settings}
use xnet_socket.Platform.{Platform}
use xnet_socket.Handler.{Handler}
use xnet_socket.Stream.{tcp}
use xnet_socket.Connection.Fields.{
  State, Endpoint, is_connecting, is_client, Connection, Live, Method, update, set_state,
  insert_event, remove_event, give_io, step, call_timeout, call_new_timeout,
}

unfoldable pub new :
    {p : Platform} {h : Handler p} → ℕ → p.Socket → h.H → Settings → ℕ → Connection p h
new {p} {h} tok sock handler settings connection_id = record {
  token = tok;
  socket = tcp sock;
  state = State.connecting (new_cursor (with_capacity 2048)) (new_cursor (with_capacity 2048));
  endpoint = Endpoint.server;
  events = p.none_ready;
  in_buffer = new_cursor (with_capacity settings.in_buffer_capacity);
  out_buffer = new_cursor (with_capacity settings.out_buffer_capacity);
  handler = handler;
  addresses = [];
  settings = settings;
  connection_id = connection_id;
}

module _ {p : Platform} {h : Handler p} where
  -- `open`: the state is replaced also where the call is refused.
  unfoldable pub open_connection : Method p h (Unit {0})
  open_connection s =
      if is_connecting s.state
      then done tt (set_state State.opened s)
      else fail
          (new_error Kind.internal (str "Tried to write socket while not in connecting state!"))
          (set_state State.opened s)

  unfoldable pub as_server : Method p h (Unit {0})
  as_server = step (insert_event p.readable)

  made_client : Str → List p.Addr → Live p h → Live p h
  made_client url addrs s =
      update (λ c. record c { addresses = addrs; endpoint = Endpoint.client url })
        (insert_event p.readable s)

  unfoldable pub as_client : Str → List p.Addr → Method p h (Unit {0})
  unfolding made_client
  as_client url addrs s = elim s.state [
    | State.opened ↦ done tt (made_client url addrs s)
    | _ ↦
        fail
          (new_error Kind.internal (str "Tried to set connection to client while not connecting."))
          s
  ]

  reconnected : IoResult p.Socket → p.World → Method p h (Unit {0})
  reconnected res w s =
      (give_io res >>= λ sock. step (update λ c. record c { socket = tcp sock }))
        (record s { world = w })

  -- The address that `addresses.pop()` gave, if any.
  retried : Option (p.Addr × List p.Addr) → Method p h (Unit {0})
  unfolding reconnected
  retried none s =
      if s.settings.panic_on_new_connection
      then panic
      else fail (new_error Kind.internal (str "Exhausted possible addresses.")) s
  retried (some (addr, rest)) s =
      let (res, w) = p.tcp_connect addr s.world in
      reconnected res w (update (λ c. record c { addresses = rest }) s)

  rewound : Cursor → Cursor → Live p h → Live p h
  rewound req res s = insert_event p.readable (
      remove_event p.writable
        (set_state (State.connecting (seek_start 0 req) (seek_start 0 res)) s))

  reset_client : State → Method p h (Unit {0})
  unfolding retried rewound
  reset_client (State.connecting req res) s = retried (pop s.addresses) (rewound req res s)
  reset_client _ s =
      fail (new_error Kind.internal (str "Unable to reset client connection because it is active."))
        s

  unfoldable pub reset : Method p h (Unit {0})
  unfolding reset_client
  reset s =
      if is_client s.endpoint
      then reset_client s.state s
      else fail (new_error Kind.internal (str "Server connections cannot be reset.")) s

  unfoldable pub new_timeout : ℕ → p.Timeout → Method p h (Unit {0})
  new_timeout event timeout = call_new_timeout event timeout

  unfoldable pub timeout_triggered : ℕ → Method p h (Unit {0})
  timeout_triggered event = call_timeout event

  unfoldable pub consume : Connection p h → h.H
  consume c = c.handler
