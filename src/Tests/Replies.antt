-- ===== src/Tests/Replies.antt =====
-- The bytes that come in, at a connection in a network in memory.
use xnet_socket.Base.{refl, [], ◌++◌, Outcome, done}
use mathlib.Core.List.{reverse, reverse-cons}
use xnet_socket.Errors.{Error}
use xnet_socket.Message.{from_utf8}
use xnet_socket.Message.Utf8.{is_utf8}
use xnet_socket.Stream.{is_negotiating, try_read_buf}
use xnet_socket.Connection.{Live, read, is_connecting, buffer_in, take_in, took, read_data}
use xnet_socket.Valid.History.{reads, perform}
use xnet_socket.Traffic.Listening.{Attentive}
use xnet_socket.Traffic.Pieces.{over, returned, drawn, Delivers}
use xnet_socket.Traffic.Intake.{intake-Delivers}
use xnet_socket.Tests.Network.{demo, keeping, demo_received, demo-Lawful}
use xnet_socket.Tests.Examples.{talking, talking-IsValid}

-- The handler keeps its messages, the last one first.
abbrev attentive : Attentive keeping demo_received
attentive = record {
  heard = reverse;
  message_heard = λ m x w. reverse-cons m x;
  message_deaf = λ s m x w. refl;
  shutdown_heard = λ x w. refl;
  shutdown_deaf = λ s x w. refl;
  close_heard = λ code reason x w. refl;
  close_deaf = λ s code reason x w. refl;
  error_heard = λ e x w. refl;
  error_deaf = λ s e x w. refl;
  timeout_heard = λ event x w. refl;
  timeout_deaf = λ s event x w. refl;
  new_timeout_heard = λ event t x w. refl;
  new_timeout_deaf = λ s event t x w. refl;
  write_deaf = λ s t d w. refl;
}

-- What a call leaves.
abbrev left : Outcome (Live demo keeping) Error (Unit {0}) → Live demo keeping
left (done u s) = s
left _ = talking

abbrev after_read : Live demo keeping
after_read = left (perform (reads 9) talking)

intake-Delivers_example :
    Delivers demo_received attentive talking (drawn (reads 9) talking ++ []) after_read
unfolding read is_negotiating is_connecting buffer_in take_in try_read_buf took read_data from_utf8
    is_utf8
intake-Delivers_example =
    intake-Delivers demo_received attentive demo-Lawful talking-IsValid
      (returned talking after_read after_read (reads 9) [] refl (over after_read))
