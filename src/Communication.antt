-- ===== src/Communication.antt =====
-- src/communication.rs: the commands for the event loop, and the senders that queue them. Also the
-- reserved tokens of src/io.rs.
pub mod Senders
pub mod Queueing
use xnet_socket.Base.{ℕ, ◌-◌, ◌≡◌, List, [], ◌∷◌, ◌++◌, Str, str, StdResult, ok, err}
use xnet_socket.Errors.{SendError}
use xnet_socket.Protocol.{CloseCode}
use xnet_socket.Message.{Message}
use xnet_socket.Platform.{Platform}

pub data Signal (Timeout : Type 0) : Type 0 where
  message : Message → Signal Timeout
  close : CloseCode → Str → Signal Timeout
  connect : Str → Signal Timeout
  shutdown : Signal Timeout
  timeout : (delay token : ℕ) → Signal Timeout
  cancel : Timeout → Signal Timeout

pub record Command (Timeout : Type 0) : Type 0 where
  pub token : ℕ
  pub signal : Signal Timeout
  pub connection_id : ℕ

-- `mio::channel::SyncSender<Command>`.
pub record Channels (p : Platform) : Type 1 where
  pub SyncSender : Type 0
  pub push : SyncSender → Command p.Timeout → p.World → StdResult (Unit {0}) SendError × p.World

-- A channel as mio documents it: what waits in it is received in the order in which it was sent,
-- and a command that is refused is not sent.
pub record Fifo {p : Platform} (c : Channels p) : Type 0 where
  pub waiting : c.SyncSender → p.World → List (Command p.Timeout)
  pub pushed :
      (s : c.SyncSender) (x : Command p.Timeout) (w : p.World)
      → (c.push s x w).0 ≡ ok tt
      → waiting s (c.push s x w).1 ≡ waiting s w ++ (x ∷ [])
  pub turned_away :
      (s : c.SyncSender) (x : Command p.Timeout) (w : p.World) (t : Str)
      → (c.push s x w).0 ≡ err (SendError.refused t)
      → waiting s (c.push s x w).1 ≡ waiting s w

-- The tokens of the queue, the timer, all connections, and the system.
module _ (p : Platform) where
  unfoldable pub queue_token : ℕ
  queue_token = p.usize_max - 3

  unfoldable pub timer_token : ℕ
  timer_token = p.usize_max - 4

  unfoldable pub all_token : ℕ
  all_token = p.usize_max - 5

  unfoldable pub system_token : ℕ
  system_token = p.usize_max - 6
