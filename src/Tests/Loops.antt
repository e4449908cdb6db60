-- ===== src/Tests/Loops.antt =====
-- The theorems of the loop and of the sockets at a loop with one connection.
use xnet_socket.Base.{◌<◌, ℕ, zero, suc, ◌≡◌, refl, true, none, some, [], err, arith}
use xnet_socket.Errors.{IoKind, IoError}
use xnet_socket.Settings.{default_settings}
use xnet_socket.Communication.{system_token}
use xnet_socket.Connection.{Connection}
use xnet_socket.Stream.{evented}
use xnet_socket.Valid.Invariant.{Ends}
use xnet_socket.Loop.Site.{Alarm}
use xnet_socket.Loop.Fields.{Running, active, inactive}
use xnet_socket.Loop.Events.{handle_event, handle_timer}
use xnet_socket.Loop.Runs.{run, event_loop}
use xnet_socket.Loop.Served.{Returns, Served}
use xnet_socket.Loop.Rounds.{command, event, turn}
use xnet_socket.Loop.Kept.{AllValid, AllNamed, turn-AllValid, run-AllValid, run-AllNamed}
use xnet_socket.Loop.Stopping.{Stopped, run-Stopped, Finishes, SameLoop, run-interrupted}
use xnet_socket.Loop.Faults.{Blames, event_loop-Blames}
use xnet_socket.Loop.Heeded.{handle_event-Served}
use xnet_socket.Loop.Timers.{Timers, handle_timer-Returns}
use xnet_socket.Tests.Network.{Net, demo_received, demo-Lawful, demo, keeping}
use xnet_socket.Tests.Slots.{slot, slabs-LawfulSlabs}
use xnet_socket.Tests.Examples.{talking}
use xnet_socket.Tests.Office.{site_with, site, office_with, office, office-AllValid, hello}

turn-AllValid_example : Ends Unit AllValid (turn (command hello) office)
turn-AllValid_example =
    turn-AllValid demo-Lawful (slabs-LawfulSlabs (Connection demo keeping)) (command hello) office
      office-AllValid

run-AllValid_example : Ends Unit AllValid (run 3 9 office)
run-AllValid_example =
    run-AllValid demo-Lawful (slabs-LawfulSlabs (Connection demo keeping)) 3 9 office
      office-AllValid

office-AllNamed : AllNamed office
unfolding slot
office-AllNamed zero conn e = ground (arith, e)
office-AllNamed (suc t) conn e = absurd (ground (arith, e))

run-AllNamed_example :
    Ends Unit AllNamed (turn (event 9 0 (true, true)) office) × Ends Unit AllNamed (run 3 9 office)
run-AllNamed_example =
    run-AllNamed (slabs-LawfulSlabs (Connection demo keeping)) 3 9 (event 9 0 (true, true)) office
      office-AllNamed

-- The poll fails, with an error of some kind.
abbrev broken : IoKind → IoError
broken kind = record { kind = kind; raw_os_error = none; description = []; display = [] }

abbrev failing : (kind : IoKind) → Running (site_with (err (broken kind)))
failing kind = office_with (err (broken kind)) active talking.conn

run-Stopped_example :
    Ends Unit Stopped (run 3 9 (office_with (err (broken IoKind.not_found)) inactive talking.conn))
run-Stopped_example =
    run-Stopped 3 9 (office_with (err (broken IoKind.not_found)) inactive talking.conn) refl

abbrev idle : Running (site_with (err (broken IoKind.interrupted)))
idle = office_with (err (broken IoKind.interrupted)) inactive talking.conn

run-interrupted_example : Finishes (SameLoop idle) (run 1 9 idle)
unfolding default_settings
run-interrupted_example = run-interrupted 0 9 idle (broken IoKind.interrupted) refl refl refl refl

-- Five bytes wait in the socket.
handle_event-Served_example : Returns (λ u r. Served 0 r) (handle_event 9 0 (true, true) office)
unfolding evented system_token
handle_event-Served_example =
    handle_event-Served demo-Lawful (slabs-LawfulSlabs (Connection demo keeping)) demo_received 9 0
      (true, true) office (omega arith) office-AllValid (λ conn g. omega arith)

rung_fewer :
    (n : ℕ) (w : Net) (a : Alarm)
    → w.alarms ≡ n
    → (site.next_timeout w).0 ≡ some a
    → (site.next_timeout w).1.alarms < w.alarms
rung_fewer n w a e q = ground (arith, q)

abbrev site_timers : Timers site
site_timers = record {
  due = λ w. w.alarms;
  taken = λ w a q. rung_fewer w.alarms w a refl q;
  on_timeout_due = λ event x w. omega arith;
  on_error_due = λ y x w. omega arith;
  on_close_due = λ code reason x w. omega arith;
  reregister_due = λ s t r w. omega arith;
  lost_due = λ x f w. omega arith;
}

-- Two timeouts have come.
handle_timer-Returns_example :
    Returns
      (λ u r. (w : Net) × ((site.next_timeout w).0 ≡ none) × (r.world ≡ (site.next_timeout w).1))
      (handle_timer 3 office)
handle_timer-Returns_example =
    handle_timer-Returns (slabs-LawfulSlabs (Connection demo keeping)) site_timers 3 office
      (omega arith)

event_loop-Blames_example : Blames (event_loop 3 9 (failing IoKind.not_found))
event_loop-Blames_example = event_loop-Blames 3 9 (failing IoKind.not_found)
