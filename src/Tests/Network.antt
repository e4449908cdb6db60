-- ===== src/Tests/Network.antt =====
-- A small network that keeps what is documented, to run the connections on: one socket with the
-- bytes that have come in, and those that have gone out.
use xnet_socket.Base.{
  ℕ, zero, suc, append-nil, ◌+◌, ◌≤◌, ◌≡◌, refl, ap, Bool, true, false, not, ◌&&◌, ◌||◌, Str, List,
  [], ◌∷◌, ◌++◌, none, ok, err, length, take, drop, max, length-append, take-append-drop,
  take-length, arith, ◌==◌, if◌then◌else◌, str, StdResult,
}
use xnet_socket.Errors.{SendError, IoKind, IoError, IoResult, from_io}
use xnet_socket.Buffer.{unread}
use xnet_socket.Platform.{Platform, Lawful, SentLog, ReceivedLog}
use xnet_socket.Handler.{Handler}
use xnet_socket.Message.{Message}
use xnet_socket.Communication.{Command, Channels, Fifo}

pub record Net : Type 0 where
  pub inbox : Str
  pub hung_up : Bool
  pub seen : Str
  pub outbox : Str
  pub commands : List (Command (Unit {0}))
  pub alarms : ℕ

abbrev blocked : IoError
blocked = record { kind = IoKind.would_block; raw_os_error = none; description = []; display = [] }

abbrev net_read : ℕ → Net → IoResult Str × Net
net_read n w = elim w.inbox [
  | [] ↦ (elim w.hung_up [ true ↦ ok [] | false ↦ err blocked ], w)
  | c ∷ cs ↦
      (ok (take n (c ∷ cs)), record w { inbox = drop n (c ∷ cs); seen = w.seen ++ take n (c ∷ cs) })
]

abbrev pub demo : Platform
demo = record {
  World = Net;
  usize_max = 18446744073709551615;
  debug_assertions = true;
  Ready = Bool × Bool;
  none_ready = (false, false);
  readable = (true, false);
  writable = (false, true);
  insert = λ a b. (a.0 || b.0, a.1 || b.1);
  remove = λ a b. (a.0 && not b.0, a.1 && not b.1);
  intersect = λ a b. (a.0 && b.0, a.1 && b.1);
  is_readable = λ a. a.0;
  is_writable = λ a. a.1;
  Socket = Unit;
  Addr = Unit;
  Timeout = Unit;
  tcp_read = λ s n w. net_read n w;
  tcp_write = λ s d w. (ok (length d), record w { outbox = w.outbox ++ d });
  tcp_flush = λ s w. (ok tt, w);
  tcp_peer_addr = λ s w. ok tt;
  tcp_local_addr = λ s w. ok tt;
  addr_text = λ a. str "peer";
  tcp_connect = λ a w. (ok tt, w);
  bytes_mut = λ v. record v { capacity = max v.capacity (length v.bytes + 4) };
  window = λ v. 4;
  advance_mut = λ d v. record v { bytes = v.bytes ++ d };
  chunk = unread;
  advance = λ n c. record c { position = c.position + n };
  grown = λ old need. need;
  utf8_error = λ bytes. record { description = []; display = str "invalid utf-8" };
}

length-take_le : (n : ℕ) (xs : Str) → length (take n xs) ≤ n
length-take_le zero xs = omega arith
length-take_le (suc n) [] = omega arith
length-take_le (suc n) (x ∷ xs) = omega (arith, length-take_le n xs)

module _ (hung_up : Bool) (seen outbox : Str) (commands : List (Command (Unit {0})))
    (alarms n : ℕ) where
  abbrev net : Str → Net
  net inbox = record {
    inbox = inbox;
    hung_up = hung_up;
    seen = seen;
    outbox = outbox;
    commands = commands;
    alarms = alarms;
  }

  net_fits : (inbox d : Str) → (net_read n (net inbox)).0 ≡ ok d → length d ≤ n
  net_fits [] d e = ground arith
  net_fits (c ∷ cs) d e = ground (arith, length-take_le n (c ∷ cs))

  pub net_given :
      (inbox d : Str)
      → (net_read n (net inbox)).0 ≡ ok d
      → ((net_read n (net inbox)).1.seen ≡ seen ++ d)
        × (length (net_read n (net inbox)).1.inbox + length d ≡ length inbox)
  net_given [] d e = ground (arith, append-nil seen)
  net_given (c ∷ cs) d e = ground (
    arith,
    ap length (take-append-drop n (c ∷ cs)),
    length-append (take n (c ∷ cs)) (drop n (c ∷ cs)),
  )

  pub net_not_given :
      (inbox : Str) (x : IoError)
      → (net_read n (net inbox)).0 ≡ err x
      → (net_read n (net inbox)).1.seen ≡ seen
  net_not_given [] x e = refl
  net_not_given (c ∷ cs) x e = cc

pub demo-Lawful : Lawful demo
demo-Lawful = record {
  usize_wide = omega arith;
  none_readable = refl;
  none_writable = refl;
  readable_readable = refl;
  readable_writable = refl;
  writable_readable = refl;
  writable_writable = refl;
  insert_readable = λ a b. refl;
  insert_writable = λ a b. refl;
  remove_readable = λ a b. refl;
  remove_writable = λ a b. refl;
  intersect_readable = λ a b. refl;
  intersect_writable = λ a b. refl;
  read_fits = λ s n w d e. net_fits w.hung_up w.seen w.outbox w.commands w.alarms n w.inbox d e;
  write_fits = λ s d w n e. ground arith;
  bytes_mut_bytes = λ v. refl;
  window_pos = λ v. omega arith;
  window_fits = λ v. omega arith;
  advance_mut_bytes = λ v d m. refl;
  advance_mut_capacity = λ v d m. refl;
  chunk_unread = λ c. refl;
  advance_position = λ c n m. refl;
  grown_fits = λ c n. omega arith;
}

pub net_taken :
    (s : Unit {0}) (d : Str) (w : Net) (n : ℕ)
    → (demo.tcp_write s d w).0 ≡ ok n
    → (demo.tcp_write s d w).1.outbox ≡ w.outbox ++ take n d
net_taken s d w n e = ground (arith, take-length d)

pub net_not_taken :
    (s : Unit {0}) (d : Str) (w : Net) (e : IoError)
    → (demo.tcp_write s d w).0 ≡ err e
    → (demo.tcp_write s d w).1.outbox ≡ w.outbox
net_not_taken s d w e q = cc

abbrev pub demo_sent : SentLog demo
demo_sent = record { sent = λ s w. w.outbox; taken = net_taken; not_taken = net_not_taken }

abbrev pub demo_received : ReceivedLog demo
demo_received = record {
  received = λ s w. w.seen;
  ready = λ s w. length w.inbox;
  given = λ s n w d e. net_given w.hung_up w.seen w.outbox w.commands w.alarms n w.inbox d e;
  not_given =
      λ s n w e q. net_not_given w.hung_up w.seen w.outbox w.commands w.alarms n w.inbox e q;
}

-- A handler that accepts every message, and keeps them.
-- An I/O error of the handler.
abbrev pub unplugged : IoError
unplugged = record { kind = IoKind.not_found; raw_os_error = none; description = []; display = [] }

-- A handler that keeps what it is told, and whose answer to the timeout 7 is an error.
abbrev pub keeping : Handler demo
keeping = record {
  H = List Message;
  on_shutdown = λ h w. (h, w);
  on_open = λ h w. (ok tt, h, w);
  on_message = λ m h w. (ok tt, m ∷ h, w);
  on_close = λ code reason h w. (h, w);
  on_error = λ e h w. (h, w);
  on_timeout = λ event h w. (if event == 7 then err (from_io unplugged) else ok tt, h, w);
  on_new_timeout = λ event timeout h w. (ok tt, h, w);
}

-- A channel, whose receiver is there or gone, as its sender says.
abbrev push : Bool → Command (Unit {0}) → Net → StdResult (Unit {0}) SendError × Net
push true x w = (ok tt, record w { commands = w.commands ++ (x ∷ []) })
push false x w = (err (SendError.refused (str "sending on a closed channel")), w)

abbrev pub channels : Channels demo
channels = record { SyncSender = Bool; push = push }

pub net_pushed :
    (s : Bool) (x : Command (Unit {0})) (w : Net)
    → (push s x w).0 ≡ ok tt
    → (push s x w).1.commands ≡ w.commands ++ (x ∷ [])
net_pushed true x w e = refl
net_pushed false x w e = absurd (ground arith)

pub net_turned_away :
    (s : Bool) (x : Command (Unit {0})) (w : Net) (t : Str)
    → (push s x w).0 ≡ err (SendError.refused t)
    → (push s x w).1.commands ≡ w.commands
net_turned_away true x w t e = absurd (ground arith)
net_turned_away false x w t e = refl

abbrev pub fifo : Fifo channels
fifo = record { waiting = λ s w. w.commands; pushed = net_pushed; turned_away = net_turned_away }
