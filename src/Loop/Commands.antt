-- ===== src/Loop/Commands.antt =====
-- src/io.rs: the commands of the queue.
use xnet_socket.Base.{
  ℕ, ◌==◌, none, some, List, [], ◌∷◌, ◌++◌, StdResult, ok, err, if◌then◌else◌, done, panic, pure,
  ◌>>=◌, ◌>>◌, or_else,
}
use xnet_socket.Errors.{Error, TimerError, from_timer}
use xnet_socket.Communication.{Signal, Command, all_token, system_token}
use xnet_socket.Connection.{Connection, Method, send_message, send_close, new_timeout, error}
use xnet_socket.Loop.Site.{Site, Alarm}
use xnet_socket.Loop.Fields.{Turn, on_found, on_connection, on_each}
use xnet_socket.Loop.Turns.{schedule, shutdown, reported}
use xnet_socket.Loop.Entry.{connect}

-- The connections that failed, each with its error.
abbrev pub Dead : Type 0
Dead = List (ℕ × Error)

module _ {e : Site} where
  open e use {p, h}

  abbrev pub noted : Connection p h → Dead → Turn e (Unit {0}) → Turn e Dead
  noted conn dead m s = or_else ((m >> pure dead) s) (λ x. pure (dead ++ ((conn.token, x) ∷ [])))

  -- A method of every connection; the errors are collected.
  unfoldable pub sent_each : List ℕ → Method p h (Unit {0}) → Dead → Turn e Dead
  sent_each [] m dead = λ s. done dead s
  sent_each (t ∷ ts) m dead = λ s. elim (e.slabs.get s.connections t) [
    | none ↦ panic
    | some conn ↦ (noted conn dead (on_found t conn m) >>= sent_each ts m) s
  ]

  unfoldable pub scheduled_each : List ℕ → Dead → Turn e Dead
  unfolding schedule
  scheduled_each [] dead = λ s. done dead s
  scheduled_each (t ∷ ts) dead = λ s. elim (e.slabs.get s.connections t) [
    | none ↦ panic
    | some conn ↦ (noted conn dead (schedule conn) >>= scheduled_each ts) s
  ]

  unfoldable pub told_dead : Dead → Turn e (Unit {0})
  unfolding on_connection
  told_dead [] = pure tt
  told_dead ((t, x) ∷ dead) = on_connection t (error x) >> told_dead dead

  -- Every connection is scheduled again; then those that failed hear of it.
  unfoldable pub scheduled_all : Dead → Turn e (Unit {0})
  unfolding scheduled_each told_dead
  scheduled_all dead s = (scheduled_each (e.slabs.keys s.connections) dead >>= told_dead) s

  unfoldable pub all_sent : Method p h (Unit {0}) → Turn e (Unit {0})
  unfolding sent_each scheduled_all
  all_sent m s = (sent_each (e.slabs.keys s.connections) m [] >>= scheduled_all) s

  unfoldable pub all_timed : StdResult p.Timeout TimerError → ℕ → Turn e (Unit {0})
  unfolding on_each
  all_timed (ok timeout) event s =
      on_each (e.slabs.keys s.connections) (reported (new_timeout event timeout)) s
  all_timed (err x) event s = if s.settings.panic_on_timeout then panic else done tt s

  -- A command for all connections.
  unfoldable pub handle_all : Signal p.Timeout → Turn e (Unit {0})
  unfolding all_sent all_timed connect shutdown scheduled_all all_token
  handle_all (Signal.message msg) = all_sent (send_message msg)
  handle_all (Signal.close code reason) = all_sent (send_close code reason)
  handle_all (Signal.connect url) = λ s.
      or_else (connect url s)
        (λ x t. if t.settings.panic_on_new_connection then panic else done tt t)
  handle_all Signal.shutdown = shutdown >> scheduled_all []
  handle_all (Signal.timeout delay event) = λ s.
      let alarm : Alarm = record { connection = all_token p; event = event } in
      let (res, w) = e.set_timeout delay alarm s.world in
      all_timed res event (record s { world = w })
  handle_all (Signal.cancel timeout) =
      λ s. done tt (record s { world = e.cancel_timeout timeout s.world })

  -- `if let Some(conn) = self.connections.get_mut(token)`.
  abbrev pub if_there : ℕ → Method p h (Unit {0}) → Turn e (Unit {0}) → Turn e (Unit {0})
  if_there t m otherwise s = elim (e.slabs.get s.connections t) [
    | none ↦ otherwise s
    | some conn ↦ on_found t conn m s
  ]

  -- The same, if the connection is still the one that the command was for.
  unfoldable pub if_same : (t id : ℕ) → Method p h (Unit {0}) → Turn e (Unit {0})
  if_same t id m s = elim (e.slabs.get s.connections t) [
    | none ↦ done tt s
    | some conn ↦ if conn.connection_id == id then on_found t conn m s else done tt s
  ]

  unfoldable pub scheduled_one : ℕ → Turn e (Unit {0})
  unfolding schedule on_connection
  scheduled_one t s = elim (e.slabs.get s.connections t) [
    | none ↦ done tt s
    | some conn ↦ or_else (schedule conn s) (λ x. on_connection t (error x))
  ]

  unfoldable pub one_timed : StdResult p.Timeout TimerError → (t event : ℕ) → Turn e (Unit {0})
  one_timed (ok timeout) t event = if_there t (reported (new_timeout event timeout)) (pure tt)
  one_timed (err x) t event = if_there t (error (from_timer x)) (pure tt)

  -- A command for one connection.
  unfoldable pub handle_one : (t id : ℕ) → Signal p.Timeout → Turn e (Unit {0})
  unfolding one_timed connect shutdown scheduled_one if_same
  handle_one t id (Signal.message msg) =
      if_same t id (reported (send_message msg)) >> scheduled_one t
  handle_one t id (Signal.close code reason) =
      if_same t id (reported (send_close code reason)) >> scheduled_one t
  handle_one t id (Signal.connect url) = λ s. or_else (connect url s) (λ x.
      if_there t (error x) (λ r. if r.settings.panic_on_new_connection then panic else done tt r))
  handle_one t id Signal.shutdown = shutdown >> scheduled_one t
  handle_one t id (Signal.timeout delay event) = λ s.
      let alarm : Alarm = record { connection = t; event = event } in
      let (res, w) = e.set_timeout delay alarm s.world in
      one_timed res t event (record s { world = w })
  handle_one t id (Signal.cancel timeout) =
      λ s. done tt (record s { world = e.cancel_timeout timeout s.world })

  unfoldable pub handle_queue : Command p.Timeout → Turn e (Unit {0})
  unfolding handle_all handle_one all_token system_token
  handle_queue cmd s =
      if cmd.token == system_token p
      then done tt s
      else if cmd.token == all_token p
      then handle_all cmd.signal s
      else handle_one cmd.token cmd.connection_id cmd.signal s
