-- ===== src/Loop/Runs.antt =====
-- src/io.rs: setting the loop up, and running it.
use xnet_socket.Base.{
  ℕ, zero, suc, ◌*◌, ◌+◌, ◌%◌, ltb, not, ◌&&◌, Bool, true, false, StdResult, Option, none, some,
  List, [], ◌∷◌, str, if◌then◌else◌, Action, done, fail, panic, out_of_fuel, pure, ◌>>=◌, ◌>>◌, ok,
  err,
}
use xnet_socket.Errors.{Error, IoKind, IoError, IoResult, from_io}
use xnet_socket.Settings.{Settings}
use xnet_socket.Communication.{queue_token, timer_token, all_token}
use xnet_socket.Communication.Senders.{Sender, new_sender}
use xnet_socket.Loop.Site.{Site}
use xnet_socket.Loop.Fields.{Activity, active, inactive, Loop, Running, Turn, update}
use xnet_socket.Loop.Turns.{give_io, check_count, is_active, is_client}
use xnet_socket.Loop.Events.{handle_event, result_of}

-- The capacity of the event buffer.
abbrev pub max_events : ℕ
max_events = 1024

unfoldable pub is_interrupted : IoKind → Bool
is_interrupted IoKind.interrupted = true
is_interrupted _ = false

-- `result.and(a).and(b)`.
unfoldable pub first_error :
    StdResult (Unit {0}) Error → (a b : IoResult (Unit {0})) → StdResult (Unit {0}) Error
first_error (err x) a b = err x
first_error (ok u) (err x) b = err (from_io x)
first_error (ok u) (ok v) (err x) = err (from_io x)
first_error (ok u) (ok v) (ok z) = ok tt

address_of : {L A : Type 0} → (L → IoResult A) → Option L → IoResult A
address_of ask (some l) = ask l
address_of ask none = err (record {
  kind = IoKind.not_found;
  raw_os_error = none;
  description = str "Not a listening socket";
  display = str "Not a listening socket";
})

module _ {e : Site} where
  open e use {p}

  abbrev pub give : {A : Type 0} → StdResult A Error → Turn e A
  give (ok a) s = done a s
  give (err x) s = fail x s

  abbrev made : ℕ → e.f.F → Settings → Action p.World Error (Loop e)
  made bound factory settings w =
      let (tx, w') = e.sync_channel bound w in
      done
        (record {
          listener = none;
          connections = e.slabs.with_capacity settings.max_connections;
          factory = factory;
          settings = settings;
          state = inactive;
          queue_tx = tx;
          next_connection_id = 0;
        })
        w'

  -- The product of the sizes wraps around in a release build, and panics in a debug build.
  unfoldable pub new_loop : e.f.F → Settings → Action p.World Error (Loop e)
  new_loop factory settings w =
      let bound = settings.max_connections * settings.queue_size in
      if ltb p.usize_max bound && p.debug_assertions
      then panic
      else made (bound % (p.usize_max + 1)) factory settings w

  unfoldable pub sender : Running e → Sender e.c
  unfolding new_sender all_token
  sender s = new_sender (all_token p) s.queue_tx 0

  unfoldable pub sender_handler : Running e → e.c.SyncSender
  sender_handler s = s.queue_tx

  -- The listener is kept once the poll knows it.
  unfoldable pub kept_listener : e.Listener → Turn e (Unit {0})
  unfolding all_token
  kept_listener l s =
      let (res, w) = e.register_listener l (all_token p) p.readable s.world in
      (give_io res >> λ r. done tt (update (λ x. record x { listener = some l }) r))
        (record s { world = w })

  unfoldable pub listen : p.Addr → Turn e (Unit {0})
  unfolding is_client kept_listener
  listen addr s =
      if p.debug_assertions && not (is_client s.listener)
      then panic
      else let (res, w) = e.bind addr s.world in
        (give_io res >>= kept_listener) (record s { world = w })

  unfoldable pub local_addr : Running e → IoResult p.Addr
  unfolding address_of
  local_addr s = address_of e.local_addr s.listener

  -- The events of one poll, in their order.
  unfoldable pub handle_events : (fuel : ℕ) → List (ℕ × p.Ready) → Turn e (Unit {0})
  unfolding handle_event
  handle_events fuel [] = pure tt
  handle_events fuel ((t, events) ∷ rest) = handle_event fuel t events >> handle_events fuel rest

  unfoldable pub set_activity : Activity → Running e → Running e
  set_activity a = update λ x. record x { state = a }

  -- An interrupt gives no events, and may be set to end the loop.
  unfoldable pub interrupted : IoError → Turn e (List (ℕ × p.Ready))
  unfolding is_interrupted set_activity
  interrupted x s =
      if is_interrupted x.kind
      then (if s.settings.shutdown_on_interrupt
          then done [] (set_activity inactive s)
          else done [] s)
      else fail (from_io x) s

  unfoldable pub polled : IoResult (List (ℕ × p.Ready)) → Turn e (List (ℕ × p.Ready))
  unfolding interrupted
  polled (ok events) = pure events
  polled (err x) = interrupted x

  -- One round of the loop.
  unfoldable pub round : (fuel : ℕ) → Turn e (Unit {0})
  unfolding polled handle_events check_count
  round fuel s =
      let (res, w) = e.poll max_events s.world in
      ((polled res >>= handle_events fuel) >> check_count) (record s { world = w })

  unfoldable pub event_loop : (rounds fuel : ℕ) → Turn e (Unit {0})
  unfolding is_active round
  event_loop zero fuel s = if is_active s.state then out_of_fuel else done tt s
  event_loop (suc rounds) fuel s =
      let next = (round fuel >> event_loop rounds fuel) s in
      if is_active s.state then next else done tt s

  -- The loop is over: the poll forgets the timer and the queue, whatever the result is, and the
  -- first error of the three is returned.
  unfoldable pub ended : StdResult (Unit {0}) Error → Turn e (Unit {0})
  unfolding set_activity first_error
  ended result s =
      let (a, w) = e.deregister_timer s.world in
      let (b, w') = e.deregister_queue w in
      give (first_error result a b) (record (set_activity inactive s) { world = w' })

  unfoldable pub queued : Turn e (Unit {0})
  unfolding queue_token
  queued s =
      let (res, w) = e.register_queue (queue_token p) s.world in
      give_io res (record s { world = w })

  unfoldable pub timed : Turn e (Unit {0})
  unfolding timer_token
  timed s =
      let (res, w) = e.register_timer (timer_token p) s.world in
      give_io res (record s { world = w })

  -- The poll knows the queue and the timer, and the loop is active.
  unfoldable pub started : Turn e (Unit {0})
  unfolding queued timed set_activity
  started = queued >> timed >> λ s. done tt (set_activity active s)

  unfoldable pub run : (rounds fuel : ℕ) → Turn e (Unit {0})
  unfolding event_loop ended started
  run rounds fuel = started >> (λ r. result_of (event_loop rounds fuel r)) >>= ended
