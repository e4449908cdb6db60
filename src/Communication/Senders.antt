-- ===== src/Communication/Senders.antt =====
-- src/communication.rs: the senders.
use xnet_socket.Base.{ℕ, Str, str, StdResult, ok, err}
use xnet_socket.Errors.{SendError, Result, from_send}
use xnet_socket.Protocol.{CloseCode}
use xnet_socket.Message.{Message}
use xnet_socket.Platform.{Platform}
use xnet_socket.Communication.{Signal, Command, Channels, all_token}

pub record Sender {p : Platform} (c : Channels p) : Type 0 where
  pub token : ℕ
  pub channel : c.SyncSender
  pub connection_id : ℕ

-- `.map_err(Error::from)`.
unfoldable pub sent : StdResult (Unit {0}) SendError → Result (Unit {0})
sent (ok u) = ok u
sent (err e) = err (from_send e)

abbrev pub Sending : {p : Platform} → Channels p → Type 0
Sending {p} c = Sender c → p.World → Result (Unit {0}) × p.World

module _ {p : Platform} {c : Channels p} where
  unfoldable pub new_sender : ℕ → c.SyncSender → ℕ → Sender c
  new_sender token channel connection_id = record {
    token = token;
    channel = channel;
    connection_id = connection_id;
  }

  -- The body that the methods of `Sender` share.
  queued : (token : ℕ) → Signal p.Timeout → Sending c
  unfolding sent
  queued token signal s w =
      let cmd : Command p.Timeout = record {
        token = token;
        signal = signal;
        connection_id = s.connection_id;
      } in
      let (res, w') = c.push s.channel cmd w in (sent res, w')

  unfoldable pub send : Message → Sending c
  unfolding queued
  send msg s = queued s.token (Signal.message msg) s

  unfoldable pub broadcast : Message → Sending c
  unfolding queued all_token
  broadcast msg s = queued (all_token p) (Signal.message msg) s

  unfoldable pub close : CloseCode → Sending c
  unfolding queued
  close code s = queued s.token (Signal.close code (str "")) s

  unfoldable pub close_with_reason : CloseCode → Str → Sending c
  unfolding queued
  close_with_reason code reason s = queued s.token (Signal.close code reason) s

  unfoldable pub connect : Str → Sending c
  unfolding queued
  connect url s = queued s.token (Signal.connect url) s

  unfoldable pub shutdown : Sending c
  unfolding queued
  shutdown s = queued s.token Signal.shutdown s

  unfoldable pub timeout : (ms token : ℕ) → Sending c
  unfolding queued
  timeout ms token s = queued s.token (Signal.timeout ms token) s

  unfoldable pub cancel : p.Timeout → Sending c
  unfolding queued
  cancel t s = queued s.token (Signal.cancel t) s
