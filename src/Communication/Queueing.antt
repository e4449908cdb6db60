-- ===== src/Communication/Queueing.antt =====
-- src/communication.rs: what the methods of a sender leave in the channel.
use xnet_socket.Base.{
  ℕ, ◌≡◌, refl, sym, ◌∙◌, ap, subst, Bool, true, false, List, [], ◌∷◌, ◌++◌, append_assoc,
  append-nil, Str, str, StdResult, ok, err, arith,
}
use xnet_socket.Errors.{SendError, Kind, Result, from_send}
use xnet_socket.Protocol.{CloseCode}
use xnet_socket.Message.{Message}
use xnet_socket.Platform.{Platform}
use xnet_socket.Communication.{Signal, Command, Channels, Fifo, all_token}
use xnet_socket.Communication.Senders.{
  Sender, Sending, sent, send, broadcast, close, close_with_reason, connect, shutdown, timeout,
  cancel,
}

-- What a user asks of a sender.
pub data Request (p : Platform) : Type 0 where
  sends broadcasts : Message → Request p
  closes : CloseCode → Request p
  closes_with : CloseCode → Str → Request p
  connects : Str → Request p
  shuts_down : Request p
  waits : (ms token : ℕ) → Request p
  cancels : p.Timeout → Request p

module _ {p : Platform} where
  abbrev signal_of : Request p → Signal p.Timeout
  signal_of (sends m) = Signal.message m
  signal_of (broadcasts m) = Signal.message m
  signal_of (closes code) = Signal.close code (str "")
  signal_of (closes_with code reason) = Signal.close code reason
  signal_of (connects url) = Signal.connect url
  signal_of shuts_down = Signal.shutdown
  signal_of (waits ms token) = Signal.timeout ms token
  signal_of (cancels t) = Signal.cancel t

  abbrev receiver_of : Request p → ℕ → ℕ
  receiver_of (broadcasts m) token = all_token p
  receiver_of _ token = token

-- No answer is an I/O error, after which the command may have been sent.
abbrev pub is_certain : List (Result (Unit {0})) → Bool
is_certain [] = true
is_certain (ok u ∷ rest) = is_certain rest
is_certain (err e ∷ rest) = elim e.kind [ Kind.io x ↦ false | _ ↦ is_certain rest ]

module _ {p : Platform} {c : Channels p} where
  abbrev pub command_of : Request p → Sender c → Command p.Timeout
  command_of r s = record {
    token = receiver_of r s.token;
    signal = signal_of r;
    connection_id = s.connection_id;
  }

  unfoldable pub ask : Request p → Sending c
  ask (sends m) = send m
  ask (broadcasts m) = broadcast m
  ask (closes code) = close code
  ask (closes_with code reason) = close_with_reason code reason
  ask (connects url) = connect url
  ask shuts_down = shutdown
  ask (waits ms token) = timeout ms token
  ask (cancels t) = cancel t

  -- The answers to requests that are made one after the other, and the world after them.
  unfoldable pub ask_all :
      List (Request p) → Sender c → p.World → List (Result (Unit {0})) × p.World
  unfolding ask
  ask_all [] s w = ([], w)
  ask_all (r ∷ rs) s w =
      let (a, w') = ask r s w in let (later, w'') = ask_all rs s w' in (a ∷ later, w'')

  -- The commands of the requests that were answered by `Ok`.
  abbrev pub accepted_commands :
      List (Request p) → List (Result (Unit {0})) → Sender c → List (Command p.Timeout)
  accepted_commands (r ∷ rs) (ok u ∷ rest) s = command_of r s ∷ accepted_commands rs rest s
  accepted_commands (r ∷ rs) (err e ∷ rest) s = accepted_commands rs rest s
  accepted_commands _ _ s = []

  ask-command :
      (r : Request p) (s : Sender c) (w : p.World)
      → let (answer, w') = c.push s.channel (command_of r s) w in ask r s w ≡ (sent answer, w')
  unfolding ask send broadcast close close_with_reason connect shutdown timeout cancel
  ask-command (sends m) s w = refl
  ask-command (broadcasts m) s w = refl
  ask-command (closes code) s w = refl
  ask-command (closes_with code reason) s w = refl
  ask-command (connects url) s w = refl
  ask-command shuts_down s w = refl
  ask-command (waits ms token) s w = refl
  ask-command (cancels t) s w = refl

  one_waits :
      (f : Fifo c) (r : Request p) (rs : List (Request p)) (s : Sender c) (w : p.World)
      (answer : StdResult (Unit {0}) SendError) (rest : List (Result (Unit {0})))
      → (c.push s.channel (command_of r s) w).0 ≡ answer
      → is_certain (sent answer ∷ rest) ≡ true
      → (is_certain rest ≡ true)
        × (f.waiting s.channel (c.push s.channel (command_of r s) w).1
              ++ accepted_commands rs rest s
            ≡ f.waiting s.channel w ++ accepted_commands (r ∷ rs) (sent answer ∷ rest) s)
  unfolding sent from_send
  one_waits f r rs s w (ok u) rest e n = (
    n,
    ap (λ q. q ++ accepted_commands rs rest s) (f.pushed s.channel (command_of r s) w e)
        ∙ append_assoc (f.waiting s.channel w) (command_of r s ∷ []) (accepted_commands rs rest s),
  )
  one_waits f r rs s w (err (SendError.io x)) rest e n = absurd (ground arith)
  one_waits f r rs s w (err (SendError.refused t)) rest e n = (
    n,
    ap (λ q. q ++ accepted_commands rs rest s) (f.turned_away s.channel (command_of r s) w t e),
  )

  -- After any requests to a sender, none of them answered by an I/O error, what waits in its channel
  -- is what waited before and then, in the order of the requests, one command for each that was
  -- answered by `Ok` and none for the others. Each command carries the sender's connection id, and
  -- its token, but for a broadcast, which carries the token of all connections.
  pub ask_all-accepted :
      (f : Fifo c) (rs : List (Request p)) (s : Sender c) (w : p.World)
      → is_certain (ask_all rs s w).0 ≡ true
      → let (answers, w') = ask_all rs s w in
        f.waiting s.channel w' ≡ f.waiting s.channel w ++ accepted_commands rs answers s
  unfolding ask_all
  ask_all-accepted f [] s w n = sym (append-nil (f.waiting s.channel w))
  ask_all-accepted f (r ∷ rs) s w n =
      let certain_here =
        subst (λ q. is_certain (q.0 ∷ (ask_all rs s q.1).0) ≡ true) (ask-command r s w) n in
      let (certain_later, same) = one_waits f r rs s w _ _ refl certain_here in
      rw (ask-command r s w)
        (ask_all-accepted f rs s (c.push s.channel (command_of r s) w).1 certain_later ∙ same)
