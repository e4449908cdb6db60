-- ===== src/Tests/Endings.antt =====
-- The theorems of a loop that ends or is brought down, at a loop with one connection.
use xnet_socket.Base.{
  ◌<◌, ℕ, zero, suc, ◌≡◌, refl, true, false, none, some, [], ◌∷◌, Option, panic, arith,
}
use xnet_socket.Errors.{from_io}
use xnet_socket.Settings.{default_settings}
use xnet_socket.Communication.{Command, Signal, timer_token, system_token}
use xnet_socket.Connection.{Connection, is_connecting}
use xnet_socket.Loop.Site.{Site, Alarm}
use xnet_socket.Loop.Fields.{Running, active, inactive}
use xnet_socket.Loop.Runs.{run, event_loop, handle_events, set_activity}
use xnet_socket.Loop.Steady.{Splits}
use xnet_socket.Loop.Timers.{Timers}
use xnet_socket.Loop.Alarmed.{alarmed_panics}
use xnet_socket.Loop.Tally.{Tally, Told, Untold}
use xnet_socket.Loop.Farewell.{run-Told}
use xnet_socket.Tests.Network.{Net, demo-Lawful, demo, keeping, unplugged}
use xnet_socket.Tests.Slots.{slot, slabs-LawfulSlabs}
use xnet_socket.Tests.Examples.{talking, talking-IsValid}
use xnet_socket.Tests.Office.{site}

-- The timeout whose answer is an error.
abbrev last_bell : Alarm
last_bell = record { connection = 0; event = 7 }

abbrev rung : Net → Option Alarm × Net
rung w = elim w.alarms [ zero ↦ (none, w) | suc n ↦ (some last_bell, record w { alarms = n }) ]

abbrev alarmed : Site
alarmed = record site { next_timeout = rung }

abbrev alarmed_office : Running alarmed
alarmed_office = record {
  loop = record {
    listener = none;
    connections = some talking.conn ∷ [];
    factory = tt;
    settings = default_settings;
    state = active;
    queue_tx = true;
    next_connection_id = 1;
  };
  world = record talking.world { alarms = 1 };
}

rung_fewer :
    (n : ℕ) (w : Net) (a : Alarm)
    → w.alarms ≡ n
    → (alarmed.next_timeout w).0 ≡ some a
    → (alarmed.next_timeout w).1.alarms < w.alarms
rung_fewer n w a e q = ground (arith, q)

abbrev alarmed_timers : Timers alarmed
alarmed_timers = record {
  due = λ w. w.alarms;
  taken = λ w a q. rung_fewer w.alarms w a refl q;
  on_timeout_due = λ event x w. omega arith;
  on_error_due = λ y x w. omega arith;
  on_close_due = λ code reason x w. omega arith;
  reregister_due = λ s t r w. omega arith;
  lost_due = λ x f w. omega arith;
}

alarmed_panics_example :
    handle_events 3 ((timer_token demo, (true, false)) ∷ (0, (true, true)) ∷ []) alarmed_office
    ≡ panic
unfolding slot system_token is_connecting from_io default_settings
alarmed_panics_example =
    alarmed_panics demo-Lawful (slabs-LawfulSlabs (Connection demo keeping)) alarmed_timers 1
      last_bell talking.conn alarmed_office (true, false) (true, true) [] refl refl refl
      (record {
        why = from_io unplugged;
        is_answer = refl;
        breaks_off = tt;
        is_valid = talking-IsValid;
        past_connecting = refl;
        no_panic = refl;
      })
      (omega arith)

-- The factory's state: how often it has been told of the shutdown.
abbrev listening : Site
listening = record site {
  f = record {
    F = ℕ;
    connection_made = λ s f w. ([], f, w);
    on_shutdown = λ f w. (suc f, w);
    client_connected = λ s f w. ([], f, w);
    server_connected = λ s f w. ([], f, w);
    connection_lost = λ gone f w. (f, w);
  };
}

abbrev listening_tally : Tally listening
listening_tally = record {
  told = λ f. f;
  on_shutdown_told = λ f w. refl;
  client_told = λ s f w. refl;
  server_told = λ s f w. refl;
  lost_told = λ handler f w. refl;
}

-- The command to shut down.
abbrev goodbye : Command (Unit {0})
goodbye = record { token = 18446744073709551610; signal = Signal.shutdown; connection_id = 0 }

abbrev listening_office : Running listening
listening_office = record {
  loop = record {
    listener = none;
    connections = some talking.conn ∷ [];
    factory = 4;
    settings = default_settings;
    state = inactive;
    queue_tx = true;
    next_connection_id = 1;
  };
  world = record talking.world { commands = goodbye ∷ [] };
}

run-Told_example :
    Splits
      (Told listening_tally 4)
      (Untold listening_tally 4)
      (event_loop 3 9 (set_activity active listening_office))
    × Splits (Told listening_tally 4) (λ t. Unit) (run 3 9 listening_office)
run-Told_example =
    run-Told listening_tally 3 9 listening_office (λ on w x q. absurd (ground (arith, q)))
