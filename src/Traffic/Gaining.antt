-- ===== src/Traffic/Gaining.antt =====
-- src/connection.rs: a round of reading puts what the socket gives behind what is to be read.
use xnet_socket.Base.{
  ℕ, ◌+◌, ◌<◌, ◌≡◌, refl, sym, ap, ◌∙◌, Str, [], ◌++◌, append_assoc, append-nil, Option, none, some,
  ok, err, done, fail, panic, out_of_fuel, Outcome, and_then, ◌>>=◌, ◌==◌, arith, Bool-cases, inl,
  inr, drop, drop-append,
}
use xnet_socket.Errors.{Error, IoResult}
use xnet_socket.Buffer.{Vec, unread, cursor_length}
use xnet_socket.Buffer.Fits.{Fits}
use xnet_socket.Platform.{Platform, Lawful, ReceivedLog}
use xnet_socket.Handler.{Handler}
use xnet_socket.Stream.{Stream, evented, tcp, try_read_buf}
use xnet_socket.Stream.Transfers.{Fills, try_read_buf-Fills}
use xnet_socket.Connection.{
  Live, set_in, give_io, Round, again, return, fresh, take_in, took, replace_in, Renewal, maxed_out,
  out_of_range,
}
use xnet_socket.Valid.Rooms.{Renews, renewed-Renews}
use xnet_socket.Valid.Invariant.{IsValid, Ends}
use xnet_socket.Valid.Input.{take_in-Keeps, with_in}

-- What the socket has given to the connection.
abbrev pub given : {p : Platform} {h : Handler p} → ReceivedLog p → Live p h → Str
given log s = log.received (evented s.socket) s.world

-- What the socket gave between two states is behind what was to be read; the connection has the
-- same socket.
pub record Gains {p : Platform} {h : Handler p} (log : ReceivedLog p) (s t : Live p h)
    : Type 0 where
  pub gained : Str
  pub from_socket : given log t ≡ given log s ++ gained
  pub to_reader : unread t.in_buffer ≡ unread s.in_buffer ++ gained
  pub same_socket : t.socket ≡ s.socket
  pub same_handler : t.handler ≡ s.handler

try_read_buf-world :
    (p : Platform) (s : Stream p.Socket) (v : Vec) (w : p.World)
    → (try_read_buf p s v w).2 ≡ (p.tcp_read (evented s) (p.window v) w).1
unfolding try_read_buf evented
try_read_buf-world p (tcp sock) v w = refl

module _ {p : Platform} {h : Handler p} (log : ReceivedLog p) where
  pub Gains-trans : {s t u : Live p h} → Gains log s t → Gains log t u → Gains log s u
  Gains-trans {s} a b = record {
    gained = a.gained ++ b.gained;
    from_socket =
        b.from_socket
        ∙ ap (λ z. z ++ b.gained) a.from_socket
        ∙ append_assoc (given log s) a.gained b.gained;
    to_reader =
        b.to_reader
        ∙ ap (λ z. z ++ b.gained) a.to_reader
        ∙ append_assoc (unread s.in_buffer) a.gained b.gained;
    same_socket = b.same_socket ∙ a.same_socket;
    same_handler = b.same_handler ∙ a.same_handler;
  }

  -- The bytes still to come, by the log.
  abbrev pub still : Live p h → ℕ
  still s = log.ready (evented s.socket) s.world

  -- After `try_read_buf` in a connection.
  abbrev Took : Live p h → Outcome (Live p h) Error (Option ℕ) → Type 0
  Took s (done none t) = Gains log s t
  Took s (done (some n) t) = Gains log s t × (still t + n ≡ still s)
  Took s (fail e t) = Gains log s t
  Took s panic = ⊥
  Took s out_of_fuel = ⊥

  Gains-nothing :
      (s t : Live p h)
      → given log t ≡ given log s
      → unread t.in_buffer ≡ unread s.in_buffer
      → t.socket ≡ s.socket
      → t.handler ≡ s.handler
      → Gains log s t
  Gains-nothing s t g u k f = record {
    gained = [];
    from_socket = g ∙ sym (append-nil (given log s));
    to_reader = u ∙ sym (append-nil (unread s.in_buffer));
    same_socket = k;
    same_handler = f;
  }

  -- The state after the socket's answer, with the bytes of `b` in the input buffer.
  abbrev taken : (s : Live p h) → Vec → Live p h
  taken s b = record (set_in (record s.in_buffer { inner = b }) s) {
    world = (p.tcp_read (evented s.socket) (p.window s.in_buffer.inner) s.world).1;
  }

  answer-Took :
      (s : Live p h) (answer : IoResult Str) (res : IoResult (Option ℕ)) (b : Vec)
      → (p.tcp_read (evented s.socket) (p.window s.in_buffer.inner) s.world).0 ≡ answer
      → Fits s.in_buffer
      → Fills s.in_buffer.inner answer res b
      → Took s (give_io res (taken s b))
  answer-Took s (ok d) res b e f (r, bytes, _) =
      let (more, fewer) = log.given (evented s.socket) (p.window s.in_buffer.inner) s.world d e in
      rw r (
        record {
          gained = d;
          from_socket = more;
          to_reader =
              ap (drop s.in_buffer.position) bytes
              ∙ drop-append s.in_buffer.position s.in_buffer.inner.bytes d f.position_in;
          same_socket = refl;
          same_handler = refl;
        },
        fewer,
      )
  answer-Took s (err x) res b e f (r, bytes, _) =
      let same = log.not_given (evented s.socket) (p.window s.in_buffer.inner) s.world x e in
      let nothing =
        Gains-nothing s (taken s b) same (ap (drop s.in_buffer.position) bytes) refl refl in
      elim r [ inl (_, q) ↦ rw q nothing | inr (_, q) ↦ rw q nothing ]

  -- What a round of the loop leaves, by what it decides.
  abbrev pub Rounds : Live p h → Outcome (Live p h) Error Round → Type 0
  Rounds s (done again t) = Gains log s t × (still t < still s) × IsValid t.conn
  Rounds s (done (return n) t) = Gains log s t
  Rounds s (fail e t) = Gains log s t
  Rounds s panic = ⊥
  Rounds s out_of_fuel = ⊥

module _ {p : Platform} {h : Handler p} (l : Lawful p) (log : ReceivedLog p) where
  take_in-Took : (s : Live p h) → Fits s.in_buffer → Took log s (take_in s)
  unfolding take_in
  take_in-Took s f =
      rw (try_read_buf-world p s.socket s.in_buffer.inner s.world)
        (answer-Took log s _ _ _ refl f (try_read_buf-Fills l s.socket s.in_buffer.inner s.world))

  renewed_round :
      (s t : Live p h) (r : Renewal)
      → Gains log s t
      → still log t < still log s
      → IsValid t.conn
      → Renews t.settings.in_buffer_grow t.in_buffer r
      → Rounds log s (replace_in r t)
  renewed_round s t (fresh c) g less v (same, _, f) = (
    record {
      gained = g.gained;
      from_socket = g.from_socket;
      to_reader = same ∙ g.to_reader;
      same_socket = g.same_socket;
      same_handler = g.same_handler;
    },
    less,
    with_in t c v f,
  )
  renewed_round s t maxed_out g less v r = g
  renewed_round s t out_of_range g less v r = r

  took-Rounds :
      (s t : Live p h) (n : Option ℕ)
      → Took log s (done n t)
      → IsValid t.conn
      → Rounds log s (took n t)
  unfolding took
  took-Rounds s t none g v = g
  took-Rounds s t (some n) (g, count) v = elim (Bool-cases (n == 0)) [
    | inl end ↦ rw end g
    | inr more ↦
        rw more (elim (Bool-cases (cursor_length t.in_buffer == t.in_buffer.inner.capacity)) [
          | inl full ↦ rw full (
              renewed_round s t _ g (ground arith) v (
                renewed-Renews p.grown l.grown_fits t.settings.in_buffer_grow
                  t.settings.in_buffer_capacity t.in_buffer v.in_fits))
          | inr free ↦ rw free g
        ])
  ]

  pub round-Rounds : (s : Live p h) → IsValid s.conn → Rounds log s ((take_in >>= took) s)
  round-Rounds s v = went (take_in s) (take_in-Took s v.in_fits) (take_in-Keeps l s v)
    where
      went :
          (o : Outcome (Live p h) Error (Option ℕ))
          → Took log s o
          → Ends ⊥ (λ t. IsValid t.conn) o
          → Rounds log s (and_then o took)
      went (done n t) g w = took-Rounds s t n g w
      went (fail e t) g w = g
      went panic g w = g
      went out_of_fuel g w = g
