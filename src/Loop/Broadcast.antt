-- ===== src/Loop/Broadcast.antt =====
-- src/io.rs: a message for all connections reaches each of them once.
use xnet_socket.Base.{
  ℕ, ◌≡◌, ◌≢◌, inl, inr, refl, sym, ◌∙◌, subst, some, List, [], ◌∷◌, ◌++◌, Among, Apart, Outcome,
  done, fail, panic, out_of_fuel, and_then, arith, eq-cases,
}
use xnet_socket.Errors.{Error}
use xnet_socket.Message.{Message}
use xnet_socket.Communication.{Signal, all_token, system_token}
use xnet_socket.Connection.{
  Connection, Live, send_message, buffered, check_buffer_out, check_events,
}
use xnet_socket.Valid.Invariant.{IsValid, Ends}
use xnet_socket.Valid.Output.{send_message-Keeps}
use xnet_socket.Traffic.Hearing.{Gets, for_open, send_message-Heard}
use xnet_socket.Loop.Site.{Site, LawfulSlabs, LawfulKeys}
use xnet_socket.Loop.Fields.{Running, put_back, settled}
use xnet_socket.Loop.Commands.{
  Dead, noted, sent_each, scheduled_all, all_sent, handle_all, handle_queue,
}
use xnet_socket.Platform.{Platform, Lawful}
use xnet_socket.Handler.{Handler}
use xnet_socket.Loop.Served.{Returns, Meets}
use xnet_socket.Loop.Outputs.{Leads, Gets-SameOut, on_same, scheduled_all-SameOut}
use xnet_socket.Loop.Kept.{AllValid}

module _ {S E A : Type 0} (I J : S → Type 0) where
  Returns-map :
      ((s : S) → I s → J s) → (o : Outcome S E A) → Returns (λ a s. I s) o → Returns (λ a s. J s) o
  Returns-map m (done a s) v = m s v
  Returns-map m (fail x s) v = v
  Returns-map m panic v = tt
  Returns-map m out_of_fuel v = v

module _ {p : Platform} {h : Handler p} where
  send_message-Meets : (m : Message) (s : Live p h) → Meets (send_message m s)
  unfolding send_message buffered check_buffer_out check_events
  send_message-Meets m s = ground arith

module _ {e : Site} (m : Message) where
  -- The connections under the tokens have got the message, and the others are as they were.
  abbrev Delivered : List ℕ → Running e → Running e → Type 0
  Delivered ts s r =
      (t : ℕ) (c : Connection e.p e.h)
      → e.slabs.get s.connections t ≡ some c
      → (d : Connection e.p e.h) × (e.slabs.get r.connections t ≡ some d)
        × ((Among t ts → Gets (for_open m c) c d) × (¬ Among t ts → d ≡ c))

  abbrev Taken : List ℕ → Running e → Type 0
  Taken ts s =
      (t : ℕ) → Among t ts → (c : Connection e.p e.h) × (e.slabs.get s.connections t ≡ some c)

  module _ (l : LawfulSlabs e.slabs) where
    module _ (t : ℕ) (conn : Connection e.p e.h) (live : Live e.p e.h) (s : Running e)
        (g : e.slabs.get s.connections t ≡ some conn) where
      now : e.slabs.get (put_back t live s).connections t ≡ some live.conn
      now = l.get_put t live.conn conn s.connections g

      elsewhere :
          (u : ℕ)
          → t ≢ u
          → e.slabs.get (put_back t live s).connections u ≡ e.slabs.get s.connections u
      elsewhere u n = l.get_put_other t u live.conn s.connections n

      put_back-AllValid : IsValid live.conn → AllValid s → AllValid (put_back t live s)
      put_back-AllValid v all u c q = elim (eq-cases t u) [
        | inl same ↦ subst IsValid (ground (arith, now, q, same)) v
        | inr other ↦ all u c (sym (elsewhere u other) ∙ q)
      ]

      put_back-Taken : (ts : List ℕ) → ¬ Among t ts → Taken ts s → Taken ts (put_back t live s)
      put_back-Taken ts n v u a =
          let (c, q) = v u a in
          (c, elsewhere u (λ same. n (subst (λ i. Among i ts) (sym same) a)) ∙ q)

      one_more :
          (ts : List ℕ) (r : Running e)
          → ¬ Among t ts
          → Gets (for_open m conn) conn live.conn
          → Delivered ts (put_back t live s) r
          → Delivered (t ∷ ts) s r
      one_more ts r n v w u c q = elim (eq-cases t u) [
        | inl same ↦
            let (d, g', (hears, stays)) = w t live.conn now in
            let alike : conn ≡ c = ground (arith, g, q, same) in
            (
              d,
              subst (λ i. e.slabs.get r.connections i ≡ some d) same g',
              (
                (λ a.
                    subst (λ x. Gets (for_open m x) x d) alike
                      (subst (Gets (for_open m conn) conn) (sym (stays n)) v)),
                λ b. absurd (b (inl (sym same))),
              ),
            )
        | inr other ↦
            let (d, g', (hears, stays)) = w u c (elsewhere u other ∙ q) in
            (
              d,
              g',
              (
                (λ a. elim a [ inl same ↦ absurd (other (sym same)) | inr among ↦ hears among ]),
                λ b. stays (λ among. b (inr among)),
              ),
            )
      ]

    module _ (q : Lawful e.p) where
      sent_each-Delivered :
          (ts : List ℕ) (dead : Dead) (s : Running e)
          → Apart ts
          → Taken ts s
          → AllValid s
          → Returns (λ d r. Delivered ts s r) (sent_each ts (send_message m) dead s)
      unfolding sent_each
      sent_each-Delivered [] dead = λ s apart taken all t c g. (c, g, ((λ a. absurd a), λ n. refl))
      sent_each-Delivered (t ∷ ts) dead = λ s apart taken all.
          let (conn, g) = taken t (inl refl) in
          let start : Live e.p e.h = record { conn = conn; world = s.world } in
          let step : (d : Dead) (live : Live e.p e.h)
              → Gets (for_open m conn) conn live.conn
              → IsValid live.conn
              → Returns (λ d r. Delivered (t ∷ ts) s r)
                  (sent_each ts (send_message m) d (put_back t live s)) =
            λ d live got valid.
              Returns-map (Delivered ts (put_back t live s)) (Delivered (t ∷ ts) s)
                (λ r w. one_more t conn live s g ts r apart.0 got w)
                (sent_each ts (send_message m) d (put_back t live s))
                (sent_each-Delivered ts d (put_back t live s) apart.1
                  (put_back-Taken t conn live s g ts apart.0 (λ u a. taken u (inr a)))
                  (put_back-AllValid t conn live s g valid all)) in
          rw g (
            went s t ts conn dead (send_message m start) step
              (send_message-Heard q m start (all t conn g).out_fits)
              (send_message-Keeps q m start (all t conn g)) (send_message-Meets m start))
        where
          went :
              (s : Running e) (t : ℕ) (ts : List ℕ) (conn : Connection e.p e.h) (dead : Dead)
              (o : Outcome (Live e.p e.h) Error (Unit {0}))
              → ((d : Dead) (live : Live e.p e.h)
                  → Gets (for_open m conn) conn live.conn
                  → IsValid live.conn
                  → Returns
                      (λ d r. Delivered (t ∷ ts) s r)
                      (sent_each ts (send_message m) d (put_back t live s)))
              → Ends ⊥ (λ r. Gets (for_open m conn) conn r.conn) o
              → Ends ⊥ (λ r. IsValid r.conn) o
              → Meets o
              → Returns
                  (λ d r. Delivered (t ∷ ts) s r)
                  (and_then (noted conn dead (settled t o) s) (sent_each ts (send_message m)))
          went s t ts conn dead (done u live) step got valid meets = step dead live got valid
          went s t ts conn dead (fail x live) step got valid meets =
              step (dead ++ ((conn.token, x) ∷ [])) live got valid
          went s t ts conn dead panic step got valid meets = tt
          went s t ts conn dead out_of_fuel step got valid meets = meets

      delivered :
          (s : Running e) (o : Outcome (Running e) Error Dead)
          → ((t : ℕ) (c : Connection e.p e.h)
              → e.slabs.get s.connections t ≡ some c
              → Among t (e.slabs.keys s.connections))
          → Returns (λ d r. Delivered (e.slabs.keys s.connections) s r) o
          → Leads (λ c d. Gets (for_open m c) c d) s (and_then o scheduled_all)
      delivered s (done dead r) among v =
          on_same (λ c d. Gets (for_open m c) c d)
            (λ c d f x y. Gets-SameOut (for_open m c) c d f x y) s r (scheduled_all dead r)
            (λ t c g. let (d, g', (hears, stays)) = v t c g in (d, g', hears (among t c g)))
            (scheduled_all-SameOut l dead r)
      delivered s (fail x r) among v = v
      delivered s panic among v = tt
      delivered s out_of_fuel among v = v

      -- In a loop of valid connections, the command that broadcasts a message comes to an end without
      -- an error, unless it panics, and reaches every connection once: each is still there, and the
      -- message's bytes are at the end of what is to be written on it. A connection that is closing
      -- has the same to write as before, and so has one whose output buffer is full and must not grow.
      pub broadcast-Reaches :
          LawfulKeys e.slabs
          → (id : ℕ) (s : Running e) → AllValid s
          → Leads
              (λ c d. Gets (for_open m c) c d)
              s
              (handle_queue
                (record { token = all_token e.p; signal = Signal.message m; connection_id = id })
                s)
      unfolding handle_queue handle_all all_sent all_token system_token
      broadcast-Reaches k id s all = ground (
        arith,
        q.usize_wide,
        delivered s (sent_each (e.slabs.keys s.connections) (send_message m) [] s)
            (λ t c g. k.keys_among t c s.connections g)
            (sent_each-Delivered (e.slabs.keys s.connections) [] s (k.keys_apart s.connections)
              (λ t a. k.keys_hold t s.connections a) all),
      )
