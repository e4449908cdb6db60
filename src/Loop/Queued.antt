-- ===== src/Loop/Queued.antt =====
-- src/io.rs: the commands of the queue, and the invariant of the connections.
use xnet_socket.Base.{
  ℕ, ◌==◌, inl, inr, Bool, true, false, Option, none, some, List, [], ◌∷◌, StdResult, ok, err,
  Outcome, done, panic, ◌>>=◌, Option-cases, arith, if◌then◌else◌, and_then,
}
use xnet_socket.Errors.{Error, TimerError, from_timer}
use xnet_socket.Communication.{Signal, Command, all_token}
use xnet_socket.Connection.{Connection, Method, send_message, send_close, new_timeout, error}
use xnet_socket.Valid.Invariant.{Ends, and_then-Ends, or_else-Ends}
use xnet_socket.Loop.Site.{Site}
use xnet_socket.Loop.Fields.{Running, Turn, on_found, on_connection}
use xnet_socket.Loop.Turns.{schedule, shutdown, reported}
use xnet_socket.Loop.Entry.{connect}
use xnet_socket.Loop.Commands.{
  Dead, noted, sent_each, scheduled_each, told_dead, scheduled_all, all_sent, all_timed, handle_all,
  if_there, if_same, scheduled_one, one_timed, handle_one, handle_queue,
}
use xnet_socket.Valid.History.{errs, sends, closes, hears}
use xnet_socket.Loop.Steady.{Steady}
use xnet_socket.Loop.Turned.{
  schedule-KeepsAll, found-Ends, Keeping, reported-Keeping, KeepsAll, then-KeepsAll,
  on_connection-KeepsAll, on_each-KeepsAll, shutdown-KeepsAll, guarded-KeepsAll,
}
use xnet_socket.Loop.Entering.{connect-KeepsAll}

module _ {e : Site} (J : Running e → Type 0) where
  noted-Ends :
      (conn : Connection e.p e.h) (dead : Dead) (m : Turn e (Unit {0})) (s : Running e)
      → Ends Unit J (m s)
      → Ends Unit J (noted conn dead m s)
  noted-Ends conn dead m s v =
      or_else-Ends Unit J (and_then (m s) (λ u. done dead)) _
        (and_then-Ends Unit J (m s) (λ u. done dead) v (λ u r all. all)) (λ x r all. all)

  module _ (k : Steady J) where
    scheduled_each-KeepsAll : (ts : List ℕ) (dead : Dead) → KeepsAll J (scheduled_each ts dead)
    unfolding scheduled_each
    scheduled_each-KeepsAll [] dead = λ s all. all
    scheduled_each-KeepsAll (t ∷ ts) dead =
        λ s all. went s all (e.slabs.get s.connections t) (λ d. scheduled_each-KeepsAll ts d)
      where
        went :
            (s : Running e)
            → J s
            → (o : Option (Connection e.p e.h)) → ((d : Dead) → KeepsAll J (scheduled_each ts d))
            → Ends Unit J (elim o [
              | none ↦ panic
              | some conn ↦ (noted conn dead (schedule conn) >>= scheduled_each ts) s
            ])
        went s all none next = tt
        went s all (some conn) next =
            and_then-Ends Unit J (noted conn dead (schedule conn) s) (scheduled_each ts)
              (noted-Ends conn dead (schedule conn) s (schedule-KeepsAll J k conn s all)) next

    sent_each-KeepsAll :
        (ts : List ℕ) (m : Method e.p e.h (Unit {0})) (dead : Dead)
        → Keeping J k m
        → KeepsAll J (sent_each ts m dead)
    unfolding sent_each
    sent_each-KeepsAll [] m dead v = λ s all. all
    sent_each-KeepsAll (t ∷ ts) m dead v = λ s all.
        elim (Option-cases (e.slabs.get s.connections t)) [
          | inl g ↦ rw g tt
          | inr (conn, g) ↦ rw g (
              and_then-Ends Unit J (noted conn dead (on_found t conn m) s) (sent_each ts m)
                (noted-Ends conn dead (on_found t conn m) s (found-Ends J k t conn m s v g all))
                (λ d. sent_each-KeepsAll ts m d v))
        ]

    told_dead-KeepsAll : (dead : Dead) → KeepsAll J (told_dead dead)
    unfolding told_dead
    told_dead-KeepsAll [] = λ s all. all
    told_dead-KeepsAll ((t, x) ∷ dead) =
        then-KeepsAll J (on_connection t (error x)) _
          (on_connection-KeepsAll J k t (error x) (k.called (errs x)))
          (λ u. told_dead-KeepsAll dead)

    scheduled_all-KeepsAll : (dead : Dead) → KeepsAll J (scheduled_all dead)
    unfolding scheduled_all
    scheduled_all-KeepsAll dead s all =
        and_then-Ends Unit J (scheduled_each (e.slabs.keys s.connections) dead s) told_dead
          (scheduled_each-KeepsAll (e.slabs.keys s.connections) dead s all)
          (λ d. told_dead-KeepsAll d)

    all_sent-KeepsAll : (m : Method e.p e.h (Unit {0})) → Keeping J k m → KeepsAll J (all_sent m)
    unfolding all_sent
    all_sent-KeepsAll m v s all =
        and_then-Ends Unit J (sent_each (e.slabs.keys s.connections) m [] s) scheduled_all
          (sent_each-KeepsAll (e.slabs.keys s.connections) m [] v s all)
          (λ d. scheduled_all-KeepsAll d)

    scheduled_one-KeepsAll : (t : ℕ) → KeepsAll J (scheduled_one t)
    unfolding scheduled_one
    scheduled_one-KeepsAll t s all = elim (Option-cases (e.slabs.get s.connections t)) [
      | inl g ↦ rw (g, scheduled_one) all
      | inr (conn, g) ↦
          rw (g, scheduled_one)
            (or_else-Ends Unit J (schedule conn s) _ (schedule-KeepsAll J k conn s all)
              (λ x. on_connection-KeepsAll J k t (error x) (k.called (errs x))))
    ]

    if_there-KeepsAll :
        (t : ℕ) (m : Method e.p e.h (Unit {0})) (otherwise : Turn e (Unit {0}))
        → Keeping J k m
        → KeepsAll J otherwise
        → KeepsAll J (if_there t m otherwise)
    if_there-KeepsAll t m otherwise v o s all = elim (Option-cases (e.slabs.get s.connections t)) [
      | inl g ↦ rw g (o s all)
      | inr (conn, g) ↦ rw g (found-Ends J k t conn m s v g all)
    ]

    if_same-KeepsAll :
        (t id : ℕ) (m : Method e.p e.h (Unit {0})) → Keeping J k m → KeepsAll J (if_same t id m)
    unfolding if_same
    if_same-KeepsAll t id m v s all = elim (Option-cases (e.slabs.get s.connections t)) [
      | inl g ↦ rw (g, if_same) all
      | inr (conn, g) ↦
          rw (g, if_same) (same _ (conn.connection_id == id) (found-Ends J k t conn m s v g all))
    ]
      where
        same :
            (r : Outcome (Running e) Error (Unit {0})) (b : Bool)
            → Ends Unit J r
            → Ends Unit J (if b then r else done tt s)
        same r true v = v
        same r false v = all

    all_timed-KeepsAll :
        (r : StdResult e.p.Timeout TimerError) (event : ℕ) → KeepsAll J (all_timed r event)
    unfolding all_timed
    all_timed-KeepsAll (ok timeout) event s all =
        on_each-KeepsAll J k (e.slabs.keys s.connections) _
          (reported-Keeping J k (new_timeout event timeout) (k.called (hears event timeout))) s all
    all_timed-KeepsAll (err x) event s all = ground (arith, all)

    handle_all-KeepsAll : (x : Signal e.p.Timeout) → KeepsAll J (handle_all x)
    unfolding handle_all all_timed
    handle_all-KeepsAll (Signal.message msg) =
        all_sent-KeepsAll (send_message msg) (k.called (sends msg))
    handle_all-KeepsAll (Signal.close code reason) =
        all_sent-KeepsAll (send_close code reason) (k.called (closes code reason))
    handle_all-KeepsAll (Signal.connect url) =
        guarded-KeepsAll J (connect url) _ (connect-KeepsAll J k url)
          (λ x s all. ground (arith, all))
    handle_all-KeepsAll Signal.shutdown =
        then-KeepsAll J shutdown _ (shutdown-KeepsAll J k) (λ u. scheduled_all-KeepsAll [])
    handle_all-KeepsAll (Signal.timeout delay event) = λ s all.
        all_timed-KeepsAll
          (e.set_timeout delay (record { connection = all_token e.p; event = event }) s.world).0
          event _ (k.outside s _ all)
    handle_all-KeepsAll (Signal.cancel timeout) = λ s all. k.outside s _ all

    one_timed-KeepsAll :
        (r : StdResult e.p.Timeout TimerError) (t event : ℕ) → KeepsAll J (one_timed r t event)
    unfolding one_timed
    one_timed-KeepsAll (ok timeout) t event =
        if_there-KeepsAll t (reported (new_timeout event timeout)) _
          (reported-Keeping J k (new_timeout event timeout) (k.called (hears event timeout)))
          (λ s all. all)
    one_timed-KeepsAll (err x) t event =
        if_there-KeepsAll t (error (from_timer x)) _ (k.called (errs (from_timer x))) (λ s all. all)

    handle_one-KeepsAll : (t id : ℕ) (x : Signal e.p.Timeout) → KeepsAll J (handle_one t id x)
    unfolding handle_one all_token
    handle_one-KeepsAll t id (Signal.message msg) =
        then-KeepsAll J _ _
          (if_same-KeepsAll t id (reported (send_message msg))
            (reported-Keeping J k (send_message msg) (k.called (sends msg))))
          (λ u. scheduled_one-KeepsAll t)
    handle_one-KeepsAll t id (Signal.close code reason) =
        then-KeepsAll J _ _
          (if_same-KeepsAll t id (reported (send_close code reason))
            (reported-Keeping J k (send_close code reason) (k.called (closes code reason))))
          (λ u. scheduled_one-KeepsAll t)
    handle_one-KeepsAll t id (Signal.connect url) =
        guarded-KeepsAll J (connect url) _ (connect-KeepsAll J k url)
          (λ x. if_there-KeepsAll t (error x) _ (k.called (errs x)) (λ s all. ground (arith, all)))
    handle_one-KeepsAll t id Signal.shutdown =
        then-KeepsAll J shutdown _ (shutdown-KeepsAll J k) (λ u. scheduled_one-KeepsAll t)
    handle_one-KeepsAll t id (Signal.timeout delay event) = λ s all.
        one_timed-KeepsAll
          (e.set_timeout delay (record { connection = t; event = event }) s.world).0 t event _
          (k.outside s _ all)
    handle_one-KeepsAll t id (Signal.cancel timeout) = λ s all. k.outside s _ all

    pub handle_queue-KeepsAll : (cmd : Command e.p.Timeout) → KeepsAll J (handle_queue cmd)
    unfolding handle_queue
    handle_queue-KeepsAll cmd s all = ground (
      arith,
      all,
      handle_all-KeepsAll cmd.signal s all,
      handle_one-KeepsAll cmd.token cmd.connection_id cmd.signal s all,
    )
