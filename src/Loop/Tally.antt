-- ===== src/Loop/Tally.antt =====
-- src/io.rs: a factory that counts how often it is told of the shutdown.
use xnet_socket.Base.{ℕ, suc, ◌<◌, ◌≡◌, sym, subst, true, false, inl, inr, err, Option-cases, arith}
use xnet_socket.Errors.{IoError}
use xnet_socket.Settings.{Settings}
use xnet_socket.Communication.Senders.{Sender, new_sender}
use xnet_socket.Connection.{consume}
use xnet_socket.Valid.History.{perform}
use xnet_socket.Valid.Invariant.{Ends}
use xnet_socket.Loop.Site.{Site}
use xnet_socket.Loop.Fields.{Activity, active, inactive, Running}
use xnet_socket.Loop.Turns.{remove_connection, told_shutdown}
use xnet_socket.Loop.Entry.{lost, inserted, nodelay}
use xnet_socket.Loop.Runs.{is_interrupted}
use xnet_socket.Loop.Steady.{whatever, Steady}

-- A factory that counts how often it is told of the shutdown.
pub record Tally (e : Site) : Type 0 where
  pub told : e.f.F → ℕ
  pub on_shutdown_told : (f : e.f.F) (w : e.p.World) → told (e.f.on_shutdown f w).0 ≡ suc (told f)
  pub client_told :
      (s : Sender e.c) (f : e.f.F) (w : e.p.World) → told (e.f.client_connected s f w).1 ≡ told f
  pub server_told :
      (s : Sender e.c) (f : e.f.F) (w : e.p.World) → told (e.f.server_connected s f w).1 ≡ told f
  pub lost_told :
      (handler : e.h.H) (f : e.f.F) (w : e.p.World)
      → told (e.f.connection_lost handler f w).0 ≡ told f

-- Interrupts are not set to end the loop, or the poll is never interrupted.
abbrev pub Calm : Site → Settings → Type 0
Calm e o =
    o.shutdown_on_interrupt ≡ true
    → (w : e.p.World) (x : IoError) → (e.poll 1024 w).0 ≡ err x
    → is_interrupted x.kind ≡ false

module _ {e : Site} (g : Tally e) where
  -- The factory has been told more often than so many times.
  abbrev pub Told : ℕ → Running e → Type 0
  Told base s = base < g.told s.factory

  -- The factory has been told just so many times.
  abbrev pub Untold : ℕ → Running e → Type 0
  Untold base s = g.told s.factory ≡ base

module _ {e : Site} (g : Tally e) (o : Settings) (base : ℕ) where
  abbrev pub Count : Activity → ℕ → Type 0
  Count active n = n ≡ base
  Count inactive n = base < n

  told_more : (a : Activity) (n : ℕ) → Count a n → base < suc n
  told_more active n v = omega (arith, v)
  told_more inactive n v = omega (arith, v)

  -- The factory has been told since if the loop is not active any more, and only then; the settings
  -- are as they were.
  abbrev pub Tallied : Running e → Type 0
  Tallied s = (s.settings ≡ o) × Count s.state (g.told s.factory)

  removed-Tallied : (t : ℕ) (s : Running e) → Tallied s → Ends Unit Tallied (remove_connection t s)
  unfolding remove_connection
  removed-Tallied t s v = elim (Option-cases (e.slabs.get s.connections t)) [
    | inl q ↦ rw (q, remove_connection) tt
    | inr (conn, q) ↦
        rw (q, remove_connection)
          (v.0, subst (Count s.state) (sym (g.lost_told (consume conn) s.factory s.world)) v.1)
  ]

  pub Tallied-Steady : Steady {e = e} Tallied
  unfolding told_shutdown lost inserted nodelay new_sender
  Tallied-Steady = record {
    seat = λ s t conn. Unit;
    between = λ t id. Tallied;
    called = λ call s t r i. whatever (perform call r);
    outside = λ s w v. v;
    told = λ s v. (
      v.0,
      subst (λ n. base < n) (sym (g.on_shutdown_told s.factory s.world))
          (told_more s.state (g.told s.factory) v.1),
    );
    seated = λ t conn s q v. tt;
    put = λ t conn live s q v u. v;
    removed = removed-Tallied;
    dialling = λ t s q v. (
      v.0,
      subst (Count s.state)
          (sym (g.client_told (new_sender t s.queue_tx s.next_connection_id) s.factory s.world))
          v.1,
    );
    answering = λ t s q v. (
      v.0,
      subst (Count s.state)
          (sym (g.server_told (new_sender t s.queue_tx s.next_connection_id) s.factory s.world))
          v.1,
    );
    meanwhile = λ t id s w v. v;
    nodelayed = λ t id sock s v. ground (arith, v.0, v.1);
    given_up = λ t id handler s v.
        (v.0, subst (Count s.state) (sym (g.lost_told handler s.factory s.world)) v.1);
    fresh = λ t id s v sock handler settings. tt;
    seating = λ t id conn s w v u. v;
  }
