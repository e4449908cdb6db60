-- ===== src/Tests/Accounts.antt =====
-- The theorems of the handlers and of the connection ids at a loop whose factory counts.
use xnet_socket.Base.{
  ℕ, zero, suc, ◌<◌, ◌≡◌, refl, true, none, some, [], ◌∷◌, str, err, ◌>>◌, arith,
}
use xnet_socket.Errors.{IoKind, IoError, from_io}
use xnet_socket.Settings.{Settings, default_settings}
use xnet_socket.Connection.{Connection}
use xnet_socket.Valid.Invariant.{Ends}
use xnet_socket.Loop.Site.{Site}
use xnet_socket.Loop.Fields.{active, Running}
use xnet_socket.Loop.Entry.{connect as connect_loop}
use xnet_socket.Loop.Runs.{run as run_loop}
use xnet_socket.Loop.Rounds.{url, turn}
use xnet_socket.Loop.Ledger.{Ledger, Missing, Balanced, run-Balanced}
use xnet_socket.Loop.Distinct.{Identified}
use xnet_socket.Loop.Identity.{run-Identified}
use xnet_socket.Loop.Leak.{Refuses, connect_leaks}
use xnet_socket.XnetSocket.{build, new_builder, listen, connect, run}
use xnet_socket.XnetSocket.Keeping.{Makes}
use xnet_socket.XnetSocket.Whole.{socket-Balanced, socket-Identified}
use xnet_socket.Tests.Network.{demo, keeping}
use xnet_socket.Tests.Slots.{slot, free, used, slabs-LawfulSlabs}
use xnet_socket.Tests.Counts.{slabs-LawfulCounts}
use xnet_socket.Tests.Examples.{talking}
use xnet_socket.Tests.Office.{site}

-- The factory's state: the handlers made, and those given back.
abbrev counting : Site
counting = record site {
  f = record {
    F = ℕ × ℕ;
    connection_made = λ s f w. ([], (suc f.0, f.1), w);
    on_shutdown = λ f w. (f, w);
    client_connected = λ s f w. ([], (suc f.0, f.1), w);
    server_connected = λ s f w. ([], (suc f.0, f.1), w);
    connection_lost = λ gone f w. ((f.0, suc f.1), w);
  };
}

abbrev counted : Ledger counting
counted = record {
  made = λ f. f.0;
  back = λ f. f.1;
  client_made = λ s f w. (refl, refl);
  server_made = λ s f w. (refl, refl);
  given_back = λ handler f w. (refl, refl);
  told_off = λ f w. (refl, refl);
}

-- One connection, which the last of eight handlers serves.
abbrev desk : Settings → Running counting
desk settings = record {
  loop = record {
    listener = none;
    connections = some talking.conn ∷ [];
    factory = (8, 7);
    settings = settings;
    state = active;
    queue_tx = true;
    next_connection_id = 8;
  };
  world = talking.world;
}

run-Balanced_example :
    Ends Unit (Balanced counted default_settings) (turn (url (str "host")) (desk default_settings))
    × Ends Unit (Balanced counted default_settings) (run_loop 3 9 (desk default_settings))
unfolding used
run-Balanced_example =
    run-Balanced counted (slabs-LawfulCounts (Connection demo keeping))
      (slabs-LawfulSlabs (Connection demo keeping)) 3 9 (url (str "host")) (desk default_settings)
      (λ on sock w. refl) (refl, refl)

desk-Identified : Identified counted 0 (desk default_settings)
unfolding slot
desk-Identified = λ early. (omega arith, below, apart)
  where
    below :
        (t : ℕ) (c : Connection demo keeping)
        → slot (some talking.conn ∷ []) t ≡ some c
        → c.connection_id < 8
    below zero c q = ground (arith, q)
    below (suc t) c q = absurd (ground (arith, q))

    apart :
        (t u : ℕ) (c d : Connection demo keeping)
        → slot (some talking.conn ∷ []) t ≡ some c
        → slot (some talking.conn ∷ []) u ≡ some d
        → c.connection_id ≡ d.connection_id
        → t ≡ u
    apart zero zero c d p q same = refl
    apart zero (suc u) c d p q same = absurd (ground (arith, q))
    apart (suc t) u c d p q same = absurd (ground (arith, p))

run-Identified_example :
    Ends Unit (Identified counted 0) (turn (url (str "host")) (desk default_settings))
    × Ends Unit (Identified counted 0) (run_loop 3 9 (desk default_settings))
run-Identified_example =
    run-Identified counted (slabs-LawfulSlabs (Connection demo keeping)) 0 3 9 (url (str "host"))
      (desk default_settings) desk-Identified

socket-Balanced_example :
    Makes
      (λ x w.
        let s : Running counting = record { loop = x; world = w } in
        Ends Unit (Balanced counted new_builder.settings) (listen 3 9 (str "host") s)
        × Ends Unit (Balanced counted new_builder.settings) ((connect (str "host") >> run 3 9) s))
      (build {e = counting} (0, 0) new_builder talking.world)
socket-Balanced_example =
    socket-Balanced counting (slabs-LawfulSlabs (Connection demo keeping)) counted
      (slabs-LawfulCounts (Connection demo keeping)) 3 9 (str "host") (0, 0) new_builder
      talking.world (λ on sock w. refl) refl

socket-Identified_example :
    Makes
      (λ x w.
        let s : Running counting = record { loop = x; world = w } in
        Ends Unit (Identified counted 0) (listen 3 9 (str "host") s)
        × Ends Unit (Identified counted 0) ((connect (str "host") >> run 3 9) s))
      (build {e = counting} (0, 0) new_builder talking.world)
socket-Identified_example =
    socket-Identified counting (slabs-LawfulSlabs (Connection demo keeping)) counted 3 9
      (str "host") (0, 0) new_builder talking.world

abbrev stubborn : IoError
stubborn = record { kind = IoKind.not_found; raw_os_error = none; description = []; display = [] }

-- `TCP_NODELAY` cannot be set.
abbrev slow : Site
slow = record counting { set_nodelay = λ s w. (err stubborn, w) }

abbrev counted_slow : Ledger slow
counted_slow = record {
  made = λ f. f.0;
  back = λ f. f.1;
  client_made = λ s f w. (refl, refl);
  server_made = λ s f w. (refl, refl);
  given_back = λ handler f w. (refl, refl);
  told_off = λ f w. (refl, refl);
}

abbrev hasty : Settings
hasty = record default_settings { tcp_nodelay = true }

abbrev slow_desk : Running slow
slow_desk = record {
  loop = record {
    listener = none;
    connections = some talking.conn ∷ [];
    factory = (8, 7);
    settings = hasty;
    state = active;
    queue_tx = true;
    next_connection_id = 8;
  };
  world = talking.world;
}

connect_leaks_example :
    Refuses
      (from_io stubborn)
      (λ r. Missing counted_slow hasty 1 r × (r.connections ≡ slow_desk.connections))
      (connect_loop (str "host") slow_desk)
unfolding free used
connect_leaks_example =
    connect_leaks tt stubborn (λ w. refl) counted_slow tt [] (tt ∷ []) (str "host") 1 slow_desk refl
      refl (λ w. refl) refl (λ w. refl) (refl, refl)
