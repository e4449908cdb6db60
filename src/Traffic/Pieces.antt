-- ===== src/Traffic/Pieces.antt =====
-- src/connection.rs: the pieces in which what a socket gives is read, and their bookkeeping.
use xnet_socket.Base.{
  ℕ, ◌≡◌, refl, ap, ◌∙◌, sym, List, [], ◌∷◌, Str, ◌++◌, append-nil, append_assoc, if◌then◌else◌,
  Option, some, Outcome, done, fail, arith,
}
use mathlib.Core.List.{flatten}
use xnet_socket.Errors.{Error}
use xnet_socket.Message.{Message}
use xnet_socket.Message.Utf8.{is_utf8}
use xnet_socket.Buffer.{unread}
use xnet_socket.Platform.{Platform, ReceivedLog}
use xnet_socket.Handler.{Handler}
use xnet_socket.Stream.{evented, is_negotiating}
use xnet_socket.Connection.{is_connecting, Live, buffer_in}
use xnet_socket.Valid.History.{Call, perform, reads}
use xnet_socket.Traffic.Gaining.{given, Gains}
use xnet_socket.Traffic.Listening.{Attentive, Same}

-- The pieces that are texts, as messages.
unfoldable pub texts : List Str → List Message
texts [] = []
texts (x ∷ xs) = if is_utf8 x then Message.text x ∷ texts xs else texts xs

texts-append : (xs ys : List Str) → texts (xs ++ ys) ≡ texts xs ++ texts ys
unfolding texts
texts-append [] ys = refl
texts-append (x ∷ xs) ys = ground (arith, texts-append xs ys)

flatten-append : (xs ys : List Str) → flatten (xs ++ ys) ≡ flatten xs ++ flatten ys
unfolding flatten
flatten-append [] ys = refl
flatten-append (x ∷ xs) ys =
    ap (λ l. x ++ l) (flatten-append xs ys) ∙ sym (append_assoc x (flatten xs) (flatten ys))

module _ {p : Platform} {h : Handler p} where
  abbrev pub pulled : Outcome (Live p h) Error (Option ℕ) → List Str
  pulled (done (some n) t) = unread t.in_buffer ∷ []
  pulled _ = []

  -- The piece that a call takes out of the input buffer, if any: all that is to be read, once the
  -- socket has given what it has.
  abbrev pub drawn : Call p → Live p h → List Str
  drawn (reads fuel) s =
      if is_negotiating s.socket
      then []
      else if is_connecting s.state
      then []
      else pulled (buffer_in fuel s)
  drawn _ s = []

  module _ (log : ReceivedLog p) where
    -- A sequence of calls on a connection, with the pieces that are taken out of its input buffer,
    -- from a state to another. Between two calls the world may change by whatever takes nothing from
    -- the connection's socket.
    pub data Intake : Live p h → List Str → Live p h → Type 0 where
      over : (s : Live p h) → Intake s [] s
      elsewhere :
          (s u : Live p h) (w : p.World) (xs : List Str)
          → log.received (evented s.socket) w ≡ given log s
          → Intake (record s { world = w }) xs u
          → Intake s xs u
      returned :
          (s t u : Live p h) (call : Call p) (xs : List Str)
          → perform call s ≡ done tt t
          → Intake t xs u
          → Intake s (drawn call s ++ xs) u
      refused :
          (s t u : Live p h) (e : Error) (call : Call p) (xs : List Str)
          → perform call s ≡ fail e t
          → Intake t xs u
          → Intake s (drawn call s ++ xs) u

    module _ (q : Attentive h log) where
      -- What the socket has given since `s`, behind what was to be read then, is the pieces and then
      -- what is still to be read; the handler has been given the pieces that are texts.
      pub record Delivers (s : Live p h) (xs : List Str) (u : Live p h) : Type 0 where
        pub gained : Str
        pub from_socket : given log u ≡ given log s ++ gained
        pub in_order : unread s.in_buffer ++ gained ≡ flatten xs ++ unread u.in_buffer
        pub told : q.heard u.handler ≡ q.heard s.handler ++ texts xs

      Delivers-none :
          (s t : Live p h)
          → given log t ≡ given log s
          → unread t.in_buffer ≡ unread s.in_buffer
          → q.heard t.handler ≡ q.heard s.handler
          → Delivers s [] t
      unfolding flatten texts
      Delivers-none s t g b k = record {
        gained = [];
        from_socket = g ∙ sym (append-nil (given log s));
        in_order = append-nil (unread s.in_buffer) ∙ sym b;
        told = k ∙ sym (append-nil (q.heard s.handler));
      }

      pub Same-Delivers : (s t : Live p h) → Same log q s t → Delivers s [] t
      Same-Delivers s t (g, k, b, m) =
          Delivers-none s t (ap (λ z. log.received (evented z) t.world) k ∙ g) (ap unread b) m

      pub Delivers-trans :
          {s t u : Live p h} (xs ys : List Str)
          → Delivers s xs t
          → Delivers t ys u
          → Delivers s (xs ++ ys) u
      Delivers-trans {s} {t} {u} xs ys a b = record {
        gained = a.gained ++ b.gained;
        from_socket =
            b.from_socket
            ∙ ap (λ z. z ++ b.gained) a.from_socket
            ∙ append_assoc (given log s) a.gained b.gained;
        in_order =
            sym (append_assoc (unread s.in_buffer) a.gained b.gained)
            ∙ ap (λ z. z ++ b.gained) a.in_order
            ∙ append_assoc (flatten xs) (unread t.in_buffer) b.gained
            ∙ ap (λ z. flatten xs ++ z) b.in_order
            ∙ sym (append_assoc (flatten xs) (flatten ys) (unread u.in_buffer))
            ∙ ap (λ z. z ++ unread u.in_buffer) (sym (flatten-append xs ys));
        told =
            b.told
            ∙ ap (λ z. z ++ texts ys) a.told
            ∙ append_assoc (q.heard s.handler) (texts xs) (texts ys)
            ∙ ap (λ z. q.heard s.handler ++ z) (sym (texts-append xs ys));
      }

      pub Gains-Delivers : (s t : Live p h) → Gains log s t → Delivers s [] t
      unfolding flatten texts
      Gains-Delivers s t g = record {
        gained = g.gained;
        from_socket = g.from_socket;
        in_order = sym g.to_reader;
        told = ap q.heard g.same_handler ∙ sym (append-nil (q.heard s.handler));
      }
