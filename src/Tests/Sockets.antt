-- ===== src/Tests/Sockets.antt =====
-- The theorems of the messages and of the sockets at a loop with one connection.
use xnet_socket.Base.{◌≡◌, refl, inr, [], ◌∷◌, ◌++◌, str, Outcome, done, ◌>>◌, arith}
use xnet_socket.Errors.{Error}
use xnet_socket.Protocol.{CloseCode}
use xnet_socket.Message.{Message, into_data}
use xnet_socket.Communication.{Signal, all_token, system_token}
use xnet_socket.Connection.{
  Connection, is_closing, Live, send_message, write, check_buffer_out, renewed, check_events,
  appended, write_out, put_out, wrote,
}
use xnet_socket.Stream.{evented, is_negotiating, try_write_buf}
use xnet_socket.Valid.Invariant.{Ends}
use xnet_socket.Valid.History.{sends, writes, perform}
use xnet_socket.Traffic.Hearing.{Gets, for_open}
use xnet_socket.Loop.Fields.{Running}
use xnet_socket.Loop.Commands.{handle_queue, scheduled_one}
use xnet_socket.Loop.Kept.{AllValid}
use xnet_socket.Loop.Gone.{handle_queue-Stale}
use xnet_socket.Loop.Outputs.{Leads}
use xnet_socket.Loop.Broadcast.{broadcast-Reaches}
use xnet_socket.XnetSocket.{build, new_builder, bind, listen, connect, run as run_socket}
use xnet_socket.XnetSocket.Binding.{Listens, bind-Listens}
use xnet_socket.XnetSocket.Keeping.{Makes}
use xnet_socket.XnetSocket.Whole.{socket-AllValid}
use xnet_socket.Traffic.Writing.{output}
use xnet_socket.Traffic.Quiet.{Quiet}
use xnet_socket.Traffic.Replay.{over, returned, accepted, replay-output}
use xnet_socket.Tests.Network.{demo_sent, demo-Lawful, demo, keeping}
use xnet_socket.Tests.Slots.{slot, slabs-LawfulSlabs, slabs-LawfulKeys}
use xnet_socket.Tests.Examples.{talking, talking-IsValid}
use xnet_socket.Tests.Office.{site, office, office-AllValid}

handle_queue-Stale_example :
    (handle_queue
        (record {
          token = 0;
          signal = Signal.message (Message.text (str "late"));
          connection_id = 3;
        })
        office
      ≡ scheduled_one 0 office)
    × (handle_queue
          (record { token = 0; signal = Signal.close CloseCode.normal []; connection_id = 3 })
          office
        ≡ scheduled_one 0 office)
unfolding slot system_token
handle_queue-Stale_example =
    handle_queue-Stale 0 3 (Message.text (str "late")) CloseCode.normal [] office (omega arith)
      (inr (talking.conn, refl, λ e. absurd (omega (arith, e))))

broadcast-Reaches_example :
    Leads
      (λ c d. Gets (for_open (Message.text (str "hello")) c) c d)
      office
      (handle_queue
        (record {
          token = all_token demo;
          signal = Signal.message (Message.text (str "hello"));
          connection_id = 0;
        })
        office)
broadcast-Reaches_example =
    broadcast-Reaches (Message.text (str "hello")) (slabs-LawfulSlabs (Connection demo keeping))
      demo-Lawful (slabs-LawfulKeys (Connection demo keeping)) 0 office office-AllValid

bind-Listens_example : Listens office.loop (bind (str "host") office)
bind-Listens_example = bind-Listens (str "host") office

socket-AllValid_example :
    Makes
      (λ x w.
        let s : Running site = record { loop = x; world = w } in
        Ends Unit AllValid (listen 3 9 (str "host") s)
        × Ends Unit AllValid ((connect (str "host") >> run_socket 3 9) s))
      (build {e = site} tt new_builder talking.world)
socket-AllValid_example =
    socket-AllValid site (slabs-LawfulSlabs (Connection demo keeping)) demo-Lawful 3 9 (str "host")
      tt new_builder talking.world

demo-Quiet : Quiet keeping demo_sent
demo-Quiet = record {
  shutdown_quiet = λ s x w. refl;
  message_quiet = λ s m x w. refl;
  close_quiet = λ s code reason x w. refl;
  error_quiet = λ s e x w. refl;
  timeout_quiet = λ s event x w. refl;
  new_timeout_quiet = λ s event t x w. refl;
  read_quiet = λ s t n w. ground arith;
}

abbrev greeting : Message
greeting = Message.text (104 ∷ 105 ∷ [])

-- What a call leaves.
abbrev left : Outcome (Live demo keeping) Error (Unit {0}) → Live demo keeping
left (done u s) = s
left _ = talking

abbrev after_send : Live demo keeping
after_send = left (perform (sends greeting) talking)

abbrev after_write : Live demo keeping
after_write = left (perform writes after_send)

replay-output_example :
    output demo_sent after_write
    ≡ output demo_sent talking
      ++ (accepted (sends greeting) talking
          ++ (accepted {p = demo} {h = keeping} writes after_send ++ []))
unfolding send_message write evented is_closing check_buffer_out into_data renewed check_events
    is_negotiating appended write_out put_out try_write_buf wrote
replay-output_example = replay-output demo_sent demo-Lawful demo-Quiet talking-IsValid (
    returned talking after_send after_write (sends greeting) _ refl
      (returned after_send after_write after_write writes [] refl (over after_write)))
