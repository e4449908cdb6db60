-- ===== src/Tests/Office.antt =====
-- A loop with one connection.
use xnet_socket.Base.{
  Option, Str, StdResult, err, str, false, ℕ, zero, suc, subst, Bool, true, none, some, List, [],
  ◌∷◌, ok, arith,
}
use xnet_socket.Errors.{IoResult}
use xnet_socket.Settings.{default_settings}
use xnet_socket.Connection.{Connection}
use xnet_socket.Communication.{Command, Signal}
use xnet_socket.Message.{Message}
use xnet_socket.Valid.Invariant.{IsValid}
use xnet_socket.Loop.Site.{Site, Alarm}
use xnet_socket.Loop.Fields.{Activity, active, Running}
use xnet_socket.Loop.Kept.{AllValid}
use xnet_socket.Tests.Slots.{slot, slabs}
use xnet_socket.Tests.Network.{Net, demo, keeping, channels}
use xnet_socket.Tests.Examples.{talking, talking-IsValid}

abbrev received : Net → StdResult (Command (Unit {0})) Str × Net
received w = elim w.commands [
  | [] ↦ (err (str "empty"), w)
  | c ∷ cs ↦ (ok c, record w { commands = cs })
]

abbrev pub bell : Alarm
bell = record { connection = 0; event = 5 }

abbrev rung : Net → Option Alarm × Net
rung w = elim w.alarms [ zero ↦ (none, w) | suc n ↦ (some bell, record w { alarms = n }) ]

-- What a poll gives.
abbrev pub Polling : Type 0
Polling = IoResult (List (ℕ × (Bool × Bool)))

abbrev pub site_with : Polling → Site
site_with polling = record {
  p = demo;
  h = keeping;
  c = channels;
  f = record {
    F = Unit {0};
    connection_made = λ s f w. ([], f, w);
    on_shutdown = λ f w. (f, w);
    client_connected = λ s f w. ([], f, w);
    server_connected = λ s f w. ([], f, w);
    connection_lost = λ gone f w. (f, w);
  };
  slabs = slabs (Connection demo keeping);
  Listener = Unit {0};
  to_socket_addrs = λ url w. (ok (tt ∷ []), w);
  set_nodelay = λ s w. (ok tt, w);
  register = λ s t r w. (ok tt, w);
  reregister = λ s t r w. (ok tt, w);
  set_timeout = λ d a w. (ok tt, w);
  cancel_timeout = λ t w. w;
  next_timeout = rung;
  windows = false;
  new_poll = λ w. (ok tt, w);
  poll = λ n w. (polling, w);
  register_listener = λ l t r w. (ok tt, w);
  register_queue = λ t w. (ok tt, w);
  reregister_queue = λ t w. (ok tt, w);
  deregister_queue = λ w. (ok tt, w);
  register_timer = λ t w. (ok tt, w);
  deregister_timer = λ w. (ok tt, w);
  bind = λ a w. (ok tt, w);
  accept = λ l w. (ok tt, w);
  local_addr = λ l. ok tt;
  sync_channel = λ n w. (true, w);
  try_recv = received;
}

-- A command has come, and the connection 0 can be read and written.
abbrev pub site : Site
site = site_with (ok ((18446744073709551612, (true, false)) ∷ (0, (true, true)) ∷ []))

abbrev pub office_with :
    (polling : Polling) → Activity → Connection demo keeping → Running (site_with polling)
office_with polling activity conn = record {
  loop = record {
    listener = none;
    connections = some conn ∷ [];
    factory = tt;
    settings = default_settings;
    state = activity;
    queue_tx = true;
    next_connection_id = 1;
  };
  world = talking.world;
}

abbrev pub office : Running site
office =
    office_with (ok ((18446744073709551612, (true, false)) ∷ (0, (true, true)) ∷ [])) active
      talking.conn

pub office-AllValid : AllValid office
unfolding slot
office-AllValid zero conn e = subst IsValid (ground (arith, e)) talking-IsValid
office-AllValid (suc t) conn e = absurd (ground (arith, e))

-- A command for all connections.
abbrev pub hello : Command (Unit {0})
hello = record {
  token = 18446744073709551610;
  signal = Signal.message (Message.text (str "hello"));
  connection_id = 0;
}
