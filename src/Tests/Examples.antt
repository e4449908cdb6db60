-- ===== src/Tests/Examples.antt =====
-- The theorems at inputs that meet their hypotheses.
use xnet_socket.Base.{
  List, drop, ok, err, ◌≡◌, ◌↔◌, ◌⊎◌, refl, str, Bool, true, false, Str, [], ◌∷◌, ◌++◌, some, done,
  fail, length, arith,
}
use xnet_socket.Errors.{Error, Kind, new_error, from_utf8_error}
use xnet_socket.Protocol.{
  OpCode, CloseCode, opcode_into, opcode_from, close_code_into, close_code_from,
}
use xnet_socket.Protocol.Codes.{
  IsCanonical, opcode_from-opcode_into, close_code_into-close_code_from,
  close_code_from-close_code_into,
}
use xnet_socket.Message.{Message, into_data, into_text, as_text, message_length, is_empty}
use xnet_socket.Message.Utf8.{is_utf8}
use xnet_socket.Message.Printing.{prefix, reading, display_message, display_message_lem}
use xnet_socket.Message.Contents.{into_data_lem}
use xnet_socket.Settings.{Settings, default_settings}
use xnet_socket.Buffer.{unread}
use xnet_socket.Stream.{tcp, evented}
use xnet_socket.Connection.{
  State, Endpoint, Connection, Live, is_connecting, is_closing, is_client, new, set_state,
  open_connection, read, read_data, write, buffer_in, reset, send_message, send_close, error,
}
use xnet_socket.Valid.Invariant.{IsValid, Ends}
use xnet_socket.Valid.History.{
  reads, writes, opens, perform, Risk, Reach, made, returned, perform-IsValid, Reach-IsValid,
  reset_never,
}
use xnet_socket.Communication.Queueing.{
  Request, sends, broadcasts, shuts_down, accepted_commands, ask_all, ask_all-accepted,
}
use xnet_socket.Communication.Senders.{Sender, send, broadcast, shutdown}
use xnet_socket.Tests.Network.{
  channels, fifo, Net, demo, demo-Lawful, demo_sent, demo_received, keeping,
}
use xnet_socket.Traffic.Sending.{Sends, send_message-Sends, send_message_unbounded}
use xnet_socket.Traffic.Writing.{output, write-output}
use xnet_socket.Traffic.Receiving.{Receives, buffer_in-Receives}
use xnet_socket.Traffic.Delivery.{consumed, split_text}
use xnet_socket.Traffic.Ending.{SameWatch, eof_unseen}
use xnet_socket.Lifecycle.Reactions.{Reaction, Silent, Waits, send_close-Silent, error-Reaction}
use xnet_socket.Lifecycle.Finality.{Steady, closing_is_final}

abbrev pub net : Str → Bool → Net
net inbox hung_up = record {
  inbox = inbox;
  hung_up = hung_up;
  seen = [];
  outbox = [];
  commands = [];
  alarms = 2;
}

-- The default settings, where growth is off.
abbrev pub settings : Settings
settings = record default_settings { out_buffer_grow = false; panic_on_internal = false }

-- A server's connection in a state, with what its input buffer has to be read.
abbrev pub at : State → Str → Net → Live demo keeping
at q bytes w = record {
  conn = record {
    token = 0;
    socket = tcp tt;
    state = q;
    endpoint = Endpoint.server;
    events = (true, true);
    in_buffer = record { inner = record { bytes = 104 ∷ bytes; capacity = 8 }; position = 1 };
    out_buffer = record { inner = record { bytes = 1 ∷ 2 ∷ 3 ∷ []; capacity = 4 }; position = 1 };
    handler = [];
    addresses = [];
    settings = settings;
    connection_id = 7;
  };
  world = w;
}

-- Five bytes wait in the socket.
abbrev pub talking : Live demo keeping
talking = at State.opened [] (net (104 ∷ 101 ∷ 108 ∷ 108 ∷ 111 ∷ []) false)

-- It has been closed from this side.
abbrev closing : Live demo keeping
closing = at State.awaiting_close [] (net (104 ∷ []) false)

-- The peer has hung up.
abbrev abandoned : Live demo keeping
abandoned = at State.opened [] (net [] true)

pub talking-IsValid : IsValid talking.conn
unfolding is_connecting is_client
talking-IsValid = ground arith

perform-IsValid_example :
    Ends (Risk (reads 9) talking.conn) (λ t. IsValid t.conn) (perform (reads 9) talking)
perform-IsValid_example = perform-IsValid demo-Lawful (reads 9) talking talking-IsValid

write-output_example : Ends ⊥ (λ t. output demo_sent t ≡ output demo_sent talking) (write talking)
write-output_example = write-output demo-Lawful demo_sent talking

buffer_in-Receives_example : Receives demo_received talking (buffer_in 9 talking)
unfolding evented
buffer_in-Receives_example =
    buffer_in-Receives demo-Lawful demo_received 9 talking talking-IsValid (omega arith)

send_message-Sends_example :
    Sends talking
      (into_data (Message.text (111 ∷ [])))
      (send_message (Message.text (111 ∷ [])) talking)
unfolding is_connecting is_closing
send_message-Sends_example =
    send_message-Sends demo-Lawful talking (Message.text (111 ∷ [])) refl refl
      talking-IsValid.out_fits

send_message_unbounded_example :
    (t : Live demo keeping) × (send_message (Message.binary (9 ∷ 9 ∷ 9 ∷ 9 ∷ 9 ∷ 9 ∷ [])) talking
      ≡ done tt t)
    × (unread t.out_buffer
        ≡ unread talking.out_buffer ++ into_data (Message.binary (9 ∷ 9 ∷ 9 ∷ 9 ∷ 9 ∷ 9 ∷ [])))
unfolding is_connecting is_closing
send_message_unbounded_example =
    send_message_unbounded demo-Lawful talking (Message.binary (9 ∷ 9 ∷ 9 ∷ 9 ∷ 9 ∷ 9 ∷ [])) refl
      refl talking-IsValid.out_fits (omega arith)

closing_is_final_example : Ends Unit (Steady closing) (perform writes closing)
unfolding is_closing
closing_is_final_example = closing_is_final demo-Lawful writes closing (λ e. cc) refl

abbrev capacity_error : Error
capacity_error = new_error Kind.capacity []

error-Reaction_example :
    Ends ⊥ (Reaction capacity_error.kind talking) (error capacity_error talking)
unfolding is_connecting default_settings
error-Reaction_example = error-Reaction demo-Lawful capacity_error talking talking-IsValid refl refl

send_close-Silent_example :
    Ends ⊥ (λ t. Silent talking t × Waits t) (send_close CloseCode.normal [] talking)
unfolding is_connecting
send_close-Silent_example =
    send_close-Silent demo-Lawful CloseCode.normal [] talking talking-IsValid refl

abbrev fresh_conn : Connection demo keeping
fresh_conn = new 0 tt [] settings 7

abbrev accepted : Live demo keeping
accepted = record { conn = fresh_conn; world = net [] false }

abbrev opened : Live demo keeping
opened = set_state State.opened accepted

opened-Reach : Reach opened.conn
unfolding open_connection new is_connecting
opened-Reach = returned accepted opened opens (made 0 tt [] settings 7) refl

Reach-IsValid_example : IsValid opened.conn
Reach-IsValid_example = Reach-IsValid demo-Lawful opened-Reach

reset_never_example :
    reset opened ≡ fail (new_error Kind.internal (str "Server connections cannot be reset.")) opened
unfolding new
reset_never_example = reset_never demo-Lawful opened opened-Reach

eof_unseen_example : Ends ⊥ (SameWatch abandoned) (read 1 abandoned)
unfolding is_connecting evented
eof_unseen_example = eof_unseen demo-Lawful 0 abandoned refl (omega arith) refl

-- "h" has been read of "hé", where the character after it takes two bytes.
abbrev first_half : Live demo keeping
first_half = at State.opened (0xc3 ∷ []) (net [] false)

abbrev second_half : Live demo keeping
second_half = at State.opened (0xa9 ∷ []) (net [] false)

split_text_example :
    (read_data first_half
      ≡ fail (from_utf8_error (demo.utf8_error (0xc3 ∷ []))) (consumed first_half))
    × (unread (consumed first_half).in_buffer ≡ [])
    × (read_data second_half
        ≡ fail (from_utf8_error (demo.utf8_error (0xa9 ∷ []))) (consumed second_half))
    × (unread (consumed second_half).in_buffer ≡ [])
unfolding is_utf8
split_text_example =
    split_text first_half second_half (0xc3 ∷ []) (0xa9 ∷ []) (ground arith) (ground arith) refl
      refl refl refl

opcode_from-opcode_into_example :
    (opcode_into true OpCode.close ≡ some 8) ↔ (opcode_from 8 ≡ OpCode.close)
opcode_from-opcode_into_example = opcode_from-opcode_into true OpCode.close 8 (λ e. cc)

close_code_into-close_code_from_example : close_code_into (close_code_from 1004) ≡ 1004
close_code_into-close_code_from_example = close_code_into-close_code_from 1004

close_code_from-close_code_into_example :
    (close_code_from (close_code_into (CloseCode.other 1000)) ≡ CloseCode.other 1000)
    ↔ IsCanonical (CloseCode.other 1000)
close_code_from-close_code_into_example = close_code_from-close_code_into (CloseCode.other 1000)

into_data_lem_example :
    let m = Message.text (0xc3 ∷ 0xa9 ∷ []) in
    (into_text demo.utf8_error (Message.binary (into_data m)) ≡ into_text demo.utf8_error m)
    × (as_text demo.utf8_error (Message.binary (into_data m)) ≡ into_text demo.utf8_error m)
    × (message_length m ≡ length (into_data m))
    × ((is_empty m ≡ true) ↔ (into_data m ≡ []))
unfolding is_utf8
into_data_lem_example = into_data_lem demo.utf8_error (Message.text (0xc3 ∷ 0xa9 ∷ [])) refl

abbrev sender : Sender channels
sender = record { token = 4; channel = true; connection_id = 9 }

abbrev requests : List (Request demo)
requests =
    sends (Message.text (str "to one")) ∷ broadcasts (Message.text (str "to all")) ∷ shuts_down ∷ []

ask_all-accepted_example :
    let (answers, w) = ask_all {c = channels} requests sender (net [] false) in
    w.commands ≡ accepted_commands {c = channels} requests answers sender
unfolding ask_all send broadcast shutdown
ask_all-accepted_example = ask_all-accepted fifo requests sender (net [] false) refl

display_message_lem_example :
    let shown = display_message demo.utf8_error (Message.binary (0 ∷ 1 ∷ 3 ∷ 4 ∷ 241 ∷ [])) in
    ((s : Str) × (as_text demo.utf8_error (Message.binary (0 ∷ 1 ∷ 3 ∷ 4 ∷ 241 ∷ [])) ≡ ok s)
      × (shown ≡ s))
    ⊎ ((x : Error) × (as_text demo.utf8_error (Message.binary (0 ∷ 1 ∷ 3 ∷ 4 ∷ 241 ∷ [])) ≡ err x)
        × (reading 0 (drop (length prefix) shown)
            ≡ message_length (Message.binary (0 ∷ 1 ∷ 3 ∷ 4 ∷ 241 ∷ []))))
display_message_lem_example =
    display_message_lem demo.utf8_error (Message.binary (0 ∷ 1 ∷ 3 ∷ 4 ∷ 241 ∷ []))
