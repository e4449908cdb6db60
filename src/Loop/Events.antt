-- ===== src/Loop/Events.antt =====
-- src/io.rs: the events of the poll.
use xnet_socket.Base.{
  ℕ, zero, suc, ◌==◌, Bool, true, false, none, some, StdResult, ok, err, if◌then◌else◌, Outcome,
  done, fail, panic, out_of_fuel, pure, ◌>>=◌, ◌>>◌, or_else, Str,
}
use xnet_socket.Errors.{Error, Kind, IoResult}
use xnet_socket.Communication.{Command, queue_token, timer_token, all_token, system_token}
use xnet_socket.Connection.{Method, read, write, reset, error}
use xnet_socket.Loop.Site.{Site}
use xnet_socket.Loop.Fields.{Running, Turn, on_found, on_connection}
use xnet_socket.Loop.Turns.{check_active, remove_connection, handle_timeout, waits}
use xnet_socket.Loop.Entry.{accept, registered}
use xnet_socket.Loop.Commands.{handle_queue}

-- `CONNECTION_REFUSED`.
abbrev pub connection_refused : (windows : Bool) → ℕ
connection_refused windows = if windows then 61 else 111

-- The error is an I/O error with the errno of a refused connection.
is_refused : (windows : Bool) → Kind → Bool
is_refused windows (Kind.io x) = elim x.raw_os_error [
  | none ↦ false
  | some errno ↦ errno == connection_refused windows
]
is_refused windows _ = false

module _ {e : Site} where
  open e use {p, h}

  -- The result of a step, with the state that it leaves, as a value.
  abbrev pub result_of :
      {A : Type 0} → Outcome (Running e) Error A → Outcome (Running e) Error (StdResult A Error)
  result_of (done a s) = done (ok a) s
  result_of (fail x s) = done (err x) s
  result_of panic = panic
  result_of out_of_fuel = out_of_fuel

  -- A connection that has been reset is registered anew, or removed.
  unfoldable pub registered_anew : ℕ → Turn e (Unit {0})
  unfolding registered remove_connection on_connection
  registered_anew t s =
      or_else (registered t s) (λ x. on_connection t (error x) >> remove_connection t)

  -- After the reset of a refused connection; `true` is the early return.
  unfoldable pub after_reset : ℕ → Error → StdResult (Unit {0}) Error → Turn e Bool
  unfolding registered_anew on_connection
  after_reset t x (ok u) = registered_anew t >> pure true
  after_reset t x (err y) = on_connection t (error x) >> pure false

  unfoldable pub failed : ℕ → Error → Turn e Bool
  unfolding after_reset on_connection is_refused
  failed t x =
      if is_refused e.windows x.kind
      then ((λ s. result_of (on_connection t reset s)) >>= after_reset t x)
      else (on_connection t (error x) >> pure false)

  unfoldable pub after_call : ℕ → StdResult (Unit {0}) Error → Turn e Bool
  unfolding failed
  after_call t (ok u) = pure false
  after_call t (err x) = failed t x

  -- The part of an event for reading or for writing, if the connection asks for it.
  unfoldable pub half : (p.Ready → Bool) → Method p h (Unit {0}) → ℕ → p.Ready → Turn e Bool
  unfolding after_call
  half asks m t events s = elim (e.slabs.get s.connections t) [
    | none ↦ panic
    | some conn ↦
        if asks (p.intersect events conn.events)
        then ((λ r. result_of (on_found t conn m r)) >>= after_call t) s
        else done false s
  ]

  unfoldable pub after_event : ℕ → Turn e (Unit {0})
  unfolding check_active
  after_event t s = elim (e.slabs.get s.connections t) [
    | none ↦ panic
    | some conn ↦ check_active (waits conn) t s
  ]

  -- The next part, unless the one before has returned.
  abbrev pub unless_back : Turn e (Unit {0}) → Bool → Turn e (Unit {0})
  unless_back next true = pure tt
  unless_back next false = next

  unfoldable pub handle_connection : (fuel : ℕ) → ℕ → p.Ready → Turn e (Unit {0})
  unfolding half after_event
  handle_connection fuel t events =
      half p.is_readable (read fuel) t events
      >>= unless_back (half p.is_writable write t events >>= unless_back (after_event t))

  -- A socket that the listener accepts; an error is only logged, unless the setting says otherwise.
  unfoldable pub accepted : IoResult p.Socket → Turn e (Unit {0})
  unfolding accept
  accepted (ok sock) s =
      or_else (accept sock s)
        (λ x r. if r.settings.panic_on_new_connection then panic else done tt r)
  accepted (err x) s = done tt s

  unfoldable pub handle_listener : p.Ready → Turn e (Unit {0})
  unfolding accepted
  handle_listener events s =
      if p.is_readable events
      then elim s.listener [
        | none ↦ panic
        | some l ↦ let (res, w) = e.accept l s.world in accepted res (record s { world = w })
      ]
      else done tt s

  -- The timeouts that have come.
  unfoldable pub handle_timer : (fuel : ℕ) → Turn e (Unit {0})
  unfolding handle_timeout
  handle_timer zero s = out_of_fuel
  handle_timer (suc fuel) s =
      let (next, w) = e.next_timeout s.world in
      elim next [
        | none ↦ done tt (record s { world = w })
        | some a ↦ (handle_timeout a >> handle_timer fuel) (record s { world = w })
      ]

  unfoldable pub received : StdResult (Command p.Timeout) Str → Turn e (Unit {0})
  unfolding handle_queue
  received (ok cmd) = handle_queue cmd
  received (err x) = pure tt

  -- One command; the loop over `MESSAGES_PER_TICK` ends in a `break`.
  unfoldable pub handle_commands : Turn e (Unit {0})
  unfolding received queue_token
  handle_commands s =
      let (cmd, w) = e.try_recv s.world in
      (received cmd >> λ r.
      done tt (record r { world = (e.reregister_queue (queue_token p) r.world).1 }))
        (record s { world = w })

  unfoldable pub handle_event : (fuel : ℕ) → ℕ → p.Ready → Turn e (Unit {0})
  unfolding handle_listener handle_timer handle_commands handle_connection queue_token timer_token
      all_token system_token
  handle_event fuel t events s =
      if t == system_token p
      then (if p.debug_assertions then panic else done tt s)
      else if t == all_token p
      then handle_listener events s
      else if t == timer_token p
      then handle_timer fuel s
      else if t == queue_token p
      then handle_commands s
      else handle_connection fuel t events s
