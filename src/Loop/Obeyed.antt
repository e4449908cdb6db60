-- ===== src/Loop/Obeyed.antt =====
-- src/io.rs: no command of the queue makes the loop return an error.
use xnet_socket.Base.{
  ℕ, Option, none, some, List, [], ◌∷◌, ok, err, StdResult, Str, done, panic, pure, or_else, ◌==◌,
  ◌>>=◌, ◌>>◌, Option-cases, Bool-cases, inl, inr, if◌then◌else◌, arith,
}
use xnet_socket.Errors.{Error, TimerError, from_timer}
use xnet_socket.Communication.{Signal, Command, all_token}
use xnet_socket.Connection.{Connection, Method, error, new_timeout, send_message, send_close}
use xnet_socket.Loop.Site.{Site, Alarm}
use xnet_socket.Loop.Fields.{Running, Turn, on_found, on_connection}
use xnet_socket.Loop.Turns.{schedule, shutdown, reported}
use xnet_socket.Loop.Entry.{connect}
use xnet_socket.Loop.Commands.{
  Dead, noted, sent_each, scheduled_each, told_dead, scheduled_all, all_sent, all_timed, handle_all,
  if_there, if_same, scheduled_one, one_timed, handle_one, handle_queue,
}
use xnet_socket.Loop.Unfailing.{
  Unfailing, AllUnfailing, then-Unfailing, or_else-Unfailing, error-Unfailing, reported-Unfailing,
  settled-Unfailing, told-Unfailing, on_each-Unfailing, shutdown-Unfailing,
}

module _ {e : Site} where
  noted-Unfailing :
      (conn : Connection e.p e.h) (dead : Dead) (m : Turn e (Unit {0})) (s : Running e)
      → Unfailing (noted conn dead m s)
  noted-Unfailing conn dead m s = or_else-Unfailing ((m >> pure dead) s) _ (λ x r. tt)

  sent_each-Unfailing :
      (ts : List ℕ) (m : Method e.p e.h (Unit {0})) (dead : Dead)
      → AllUnfailing {e = e} (sent_each ts m dead)
  unfolding sent_each
  sent_each-Unfailing [] m dead = λ s. tt
  sent_each-Unfailing (t ∷ ts) m dead = λ s. elim (Option-cases (e.slabs.get s.connections t)) [
    | inl g ↦ rw g tt
    | inr (conn, g) ↦ rw g (
        then-Unfailing (noted conn dead (on_found t conn m) s) (sent_each ts m)
          (noted-Unfailing conn dead (on_found t conn m) s) (λ d. sent_each-Unfailing ts m d))
  ]

  scheduled_each-Unfailing :
      (ts : List ℕ) (dead : Dead) → AllUnfailing {e = e} (scheduled_each ts dead)
  unfolding scheduled_each
  scheduled_each-Unfailing [] dead = λ s. tt
  scheduled_each-Unfailing (t ∷ ts) dead =
      λ s. went s (e.slabs.get s.connections t) (λ d. scheduled_each-Unfailing ts d)
    where
      went :
          (s : Running e) (o : Option (Connection e.p e.h))
          → ((d : Dead) → AllUnfailing {e = e} (scheduled_each ts d))
          → Unfailing (elim o [
            | none ↦ panic
            | some conn ↦ (noted conn dead (schedule conn) >>= scheduled_each ts) s
          ])
      went s none next = tt
      went s (some conn) next =
          then-Unfailing (noted conn dead (schedule conn) s) (scheduled_each ts)
            (noted-Unfailing conn dead (schedule conn) s) next

  told_dead-Unfailing : (dead : Dead) → AllUnfailing {e = e} (told_dead dead)
  unfolding told_dead
  told_dead-Unfailing [] = λ s. tt
  told_dead-Unfailing ((t, x) ∷ dead) = λ s.
      then-Unfailing (on_connection t (error x) s) _ (told-Unfailing t x s)
        (λ u. told_dead-Unfailing dead)

  scheduled_all-Unfailing : (dead : Dead) → AllUnfailing {e = e} (scheduled_all dead)
  unfolding scheduled_all
  scheduled_all-Unfailing dead s =
      then-Unfailing (scheduled_each (e.slabs.keys s.connections) dead s) told_dead
        (scheduled_each-Unfailing (e.slabs.keys s.connections) dead s) told_dead-Unfailing

  all_sent-Unfailing : (m : Method e.p e.h (Unit {0})) → AllUnfailing {e = e} (all_sent m)
  unfolding all_sent
  all_sent-Unfailing m s =
      then-Unfailing (sent_each (e.slabs.keys s.connections) m [] s) scheduled_all
        (sent_each-Unfailing (e.slabs.keys s.connections) m [] s) scheduled_all-Unfailing

  scheduled_one-Unfailing : (t : ℕ) → AllUnfailing {e = e} (scheduled_one t)
  unfolding scheduled_one
  scheduled_one-Unfailing t s = elim (Option-cases (e.slabs.get s.connections t)) [
    | inl g ↦ rw (g, scheduled_one) tt
    | inr (conn, g) ↦
        rw (g, scheduled_one) (or_else-Unfailing (schedule conn s) _ (told-Unfailing t))
  ]

  if_there-Unfailing :
      (t : ℕ) (m : Method e.p e.h (Unit {0})) (otherwise : Turn e (Unit {0})) (s : Running e)
      → ((conn : Connection e.p e.h) → Unfailing (m (record { conn = conn; world = s.world })))
      → Unfailing (otherwise s)
      → Unfailing (if_there t m otherwise s)
  if_there-Unfailing t m otherwise s v o = elim (Option-cases (e.slabs.get s.connections t)) [
    | inl g ↦ rw g o
    | inr (conn, g) ↦ rw g (settled-Unfailing t _ s (v conn))
  ]

  if_same-Unfailing :
      (t id : ℕ) (m : Method e.p e.h (Unit {0})) (s : Running e)
      → ((conn : Connection e.p e.h) → Unfailing (m (record { conn = conn; world = s.world })))
      → Unfailing (if_same t id m s)
  unfolding if_same
  if_same-Unfailing t id m s v = elim (Option-cases (e.slabs.get s.connections t)) [
    | inl g ↦ rw (g, if_same) tt
    | inr (conn, g) ↦
        rw (g, if_same)
          (elim (Bool-cases (conn.connection_id == id)) [
            | inl same ↦ rw same (settled-Unfailing t _ s (v conn))
            | inr other ↦ rw other tt
          ])
  ]

  all_timed-Unfailing :
      (r : StdResult e.p.Timeout TimerError) (event : ℕ) → AllUnfailing {e = e} (all_timed r event)
  unfolding all_timed
  all_timed-Unfailing (ok timeout) event s =
      on_each-Unfailing (e.slabs.keys s.connections) (reported (new_timeout event timeout))
        (reported-Unfailing (new_timeout event timeout)) s
  all_timed-Unfailing (err x) event s = ground arith

  connect-Unfailing :
      (url : Str) (k : Error → Turn e (Unit {0})) (s : Running e)
      → ((x : Error) → AllUnfailing (k x))
      → Unfailing (or_else (connect url s) k)
  connect-Unfailing url k s v = or_else-Unfailing (connect url s) k v

  handle_all-Unfailing : (x : Signal e.p.Timeout) → AllUnfailing {e = e} (handle_all x)
  unfolding handle_all
  handle_all-Unfailing (Signal.message msg) = all_sent-Unfailing (send_message msg)
  handle_all-Unfailing (Signal.close code reason) = all_sent-Unfailing (send_close code reason)
  handle_all-Unfailing (Signal.connect url) = λ s. connect-Unfailing url _ s (λ x r. ground arith)
  handle_all-Unfailing Signal.shutdown =
      λ s. then-Unfailing (shutdown s) _ (shutdown-Unfailing s) (λ u. scheduled_all-Unfailing [])
  handle_all-Unfailing (Signal.timeout delay event) = λ s.
      let alarm : Alarm = record { connection = all_token e.p; event = event } in
      let (res, w) = e.set_timeout delay alarm s.world in
      all_timed-Unfailing res event (record s { world = w })
  handle_all-Unfailing (Signal.cancel timeout) = λ s. tt

  one_timed-Unfailing :
      (r : StdResult e.p.Timeout TimerError) (t event : ℕ)
      → AllUnfailing {e = e} (one_timed r t event)
  unfolding one_timed
  one_timed-Unfailing (ok timeout) t event s =
      if_there-Unfailing t (reported (new_timeout event timeout)) (pure tt) s
        (λ conn. reported-Unfailing (new_timeout event timeout) _) tt
  one_timed-Unfailing (err x) t event s =
      if_there-Unfailing t (error (from_timer x)) (pure tt) s
        (λ conn. error-Unfailing (from_timer x) _) tt

  handle_one-Unfailing :
      (t id : ℕ) (x : Signal e.p.Timeout) → AllUnfailing {e = e} (handle_one t id x)
  unfolding handle_one
  handle_one-Unfailing t id (Signal.message msg) = λ s.
      then-Unfailing (if_same t id (reported (send_message msg)) s) _
        (if_same-Unfailing t id (reported (send_message msg)) s
          (λ conn. reported-Unfailing (send_message msg) _))
        (λ u. scheduled_one-Unfailing t)
  handle_one-Unfailing t id (Signal.close code reason) = λ s.
      then-Unfailing (if_same t id (reported (send_close code reason)) s) _
        (if_same-Unfailing t id (reported (send_close code reason)) s
          (λ conn. reported-Unfailing (send_close code reason) _))
        (λ u. scheduled_one-Unfailing t)
  handle_one-Unfailing t id (Signal.connect url) = λ s. connect-Unfailing url _ s (λ x r.
      if_there-Unfailing t (error x)
        (λ q. if q.settings.panic_on_new_connection then panic else done tt q) r
        (λ conn. error-Unfailing x _) (ground arith))
  handle_one-Unfailing t id Signal.shutdown =
      λ s. then-Unfailing (shutdown s) _ (shutdown-Unfailing s) (λ u. scheduled_one-Unfailing t)
  handle_one-Unfailing t id (Signal.timeout delay event) = λ s.
      let alarm : Alarm = record { connection = t; event = event } in
      let (res, w) = e.set_timeout delay alarm s.world in
      one_timed-Unfailing res t event (record s { world = w })
  handle_one-Unfailing t id (Signal.cancel timeout) = λ s. tt

  pub handle_queue-Unfailing : (cmd : Command e.p.Timeout) → AllUnfailing {e = e} (handle_queue cmd)
  unfolding handle_queue
  handle_queue-Unfailing cmd s = ground (
    arith,
    handle_all-Unfailing cmd.signal s,
    handle_one-Unfailing cmd.token cmd.connection_id cmd.signal s,
  )
