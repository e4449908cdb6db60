-- ===== src/Loop/Rounds.antt =====
-- src/io.rs: a property that the connections' methods keep holds through the rounds of the loop, and
-- through a whole run. So does each single turn of it.
use xnet_socket.Base.{ℕ, zero, suc, List, [], ◌∷◌, StdResult, ok, err, ◌>>◌, arith}
use xnet_socket.Errors.{Error, IoResult}
use xnet_socket.Valid.Invariant.{Ends}
use xnet_socket.Loop.Site.{Site}
use xnet_socket.Loop.Fields.{active, inactive, Running}
use xnet_socket.Loop.Events.{result_of, handle_event}
use xnet_socket.Loop.Runs.{
  give, handle_events, interrupted, polled, round, event_loop, ended, run, set_activity,
  first_error, queued, timed, started,
}
use xnet_socket.Loop.Steady.{Steady, Lasts, give_io-Ends}
use xnet_socket.Loop.Turned.{KeepsAll, then-KeepsAll, check_count-KeepsAll}
use xnet_socket.Loop.Handled.{result_of-Ends, handle_event-KeepsAll}
use xnet_socket.Platform.{Platform}
use xnet_socket.Communication.{Command}
use xnet_socket.Loop.Site.{Alarm}
use xnet_socket.Loop.Turns.{handle_timeout, shutdown, check_count}
use xnet_socket.Loop.Entry.{connect, accept}
use xnet_socket.Loop.Commands.{handle_queue}
use xnet_socket.Loop.Turned.{handle_timeout-KeepsAll, shutdown-KeepsAll}
use xnet_socket.Loop.Entering.{connect-KeepsAll, accept-KeepsAll}
use xnet_socket.Loop.Queued.{handle_queue-KeepsAll}
use xnet_socket.Base.{Str}
use xnet_socket.Loop.Fields.{Turn}

-- What makes the loop work: a timeout, the end of the loop, the check after some
-- events, a socket that the listener accepts, the wish to connect, a command of the queue, or an
-- event of the poll.
pub data Cause (p : Platform) : Type 0 where
  alarm : Alarm → Cause p
  stop check : Cause p
  socket : p.Socket → Cause p
  url : Str → Cause p
  command : Command p.Timeout → Cause p
  event : (fuel token : ℕ) → p.Ready → Cause p

module _ {e : Site} where
  abbrev pub turn : Cause e.p → Turn e (Unit {0})
  turn (alarm a) = handle_timeout a
  turn stop = shutdown
  turn check = check_count
  turn (socket sock) = accept sock
  turn (url u) = connect u
  turn (command cmd) = handle_queue cmd
  turn (event fuel t events) = handle_event fuel t events

module _ {e : Site} (J : Running e → Type 0) (k : Steady J) where
  pub handle_events-KeepsAll :
      (fuel : ℕ) (events : List (ℕ × e.p.Ready)) → KeepsAll J (handle_events fuel events)
  unfolding handle_events
  handle_events-KeepsAll fuel [] = λ s all. all
  handle_events-KeepsAll fuel ((t, events) ∷ rest) =
      then-KeepsAll J (handle_event fuel t events) _ (handle_event-KeepsAll J k fuel t events)
        (λ u. handle_events-KeepsAll fuel rest)

  pub turn-KeepsAll : (c : Cause e.p) → KeepsAll J (turn c)
  turn-KeepsAll (alarm a) = handle_timeout-KeepsAll J k a
  turn-KeepsAll stop = shutdown-KeepsAll J k
  turn-KeepsAll check = check_count-KeepsAll J k
  turn-KeepsAll (socket sock) = accept-KeepsAll J k sock
  turn-KeepsAll (url u) = connect-KeepsAll J k u
  turn-KeepsAll (command cmd) = handle_queue-KeepsAll J k cmd
  turn-KeepsAll (event fuel t events) = handle_event-KeepsAll J k fuel t events

module _ {e : Site} (J : Running e → Type 0) (k : Steady J) (act : Lasts J) where
  polled-KeepsAll : (r : IoResult (List (ℕ × e.p.Ready))) → KeepsAll J (polled r)
  unfolding polled interrupted set_activity
  polled-KeepsAll (ok events) s all = all
  polled-KeepsAll (err x) s all = ground (arith, all, act inactive s all)

  round-KeepsAll : (fuel : ℕ) → KeepsAll J (round fuel)
  unfolding round
  round-KeepsAll fuel s all =
      then-KeepsAll J _ _
        (then-KeepsAll J _ _ (polled-KeepsAll (e.poll 1024 s.world).0)
          (handle_events-KeepsAll J k fuel))
        (λ u. check_count-KeepsAll J k) _ (k.outside s _ all)

  event_loop-KeepsAll : (rounds fuel : ℕ) → KeepsAll J (event_loop rounds fuel)
  unfolding event_loop
  event_loop-KeepsAll zero fuel s all = ground (arith, all)
  event_loop-KeepsAll (suc rounds) fuel s all = ground (
    arith,
    then-KeepsAll J (round fuel) _ (round-KeepsAll fuel) (λ u. event_loop-KeepsAll rounds fuel) s
        all,
  )

  ended-KeepsAll : (r : StdResult (Unit {0}) Error) → KeepsAll J (ended r)
  unfolding ended set_activity
  ended-KeepsAll r s all =
      given
        (first_error r (e.deregister_timer s.world).0
          (e.deregister_queue (e.deregister_timer s.world).1).0)
        _ (k.outside _ _ (act inactive s all))
    where
      given : (x : StdResult (Unit {0}) Error) (q : Running e) → J q → Ends Unit J (give x q)
      given (ok u) q v = v
      given (err y) q v = v

  queued-KeepsAll : KeepsAll J queued
  unfolding queued
  queued-KeepsAll s all = give_io-Ends J _ _ (k.outside s _ all)

  timed-KeepsAll : KeepsAll J timed
  unfolding timed
  timed-KeepsAll s all = give_io-Ends J _ _ (k.outside s _ all)

  started-KeepsAll : KeepsAll J started
  unfolding started set_activity
  started-KeepsAll =
      then-KeepsAll J (queued >> timed) _
        (then-KeepsAll J queued _ queued-KeepsAll (λ u. timed-KeepsAll)) (λ u. act active)

  looped-KeepsAll : (rounds fuel : ℕ) → KeepsAll J (λ s. result_of (event_loop rounds fuel s))
  looped-KeepsAll rounds fuel s all = result_of-Ends J _ (event_loop-KeepsAll rounds fuel s all)

  pub run-KeepsAll : (rounds fuel : ℕ) → KeepsAll J (run rounds fuel)
  unfolding run
  run-KeepsAll rounds fuel =
      then-KeepsAll J (started >> (λ r. result_of (event_loop rounds fuel r))) ended
        (then-KeepsAll J started _ started-KeepsAll (λ u. looped-KeepsAll rounds fuel))
        ended-KeepsAll
