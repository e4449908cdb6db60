-- ===== src/Traffic/Receiving.antt =====
-- What the socket gives goes to the end of what is to be read, and the loop ends.
use xnet_socket.Base.{
  ℕ, zero, suc, ◌<◌, Option, done, fail, panic, out_of_fuel, Outcome, and_then, ◌>>=◌, arith,
}
use xnet_socket.Errors.{Error}
use xnet_socket.Platform.{Platform, Lawful, ReceivedLog}
use xnet_socket.Handler.{Handler}
use xnet_socket.Connection.{Live, Round, again, return, looped, take_in, took, buffer_in}
use xnet_socket.Valid.Invariant.{IsValid, Ends}
use xnet_socket.Traffic.Gaining.{Gains, Gains-trans, still, Rounds, round-Rounds}

module _ {p : Platform} {h : Handler p} (log : ReceivedLog p) where
  -- What the loop leaves: it has come to an end, and has put what the socket gave where it is read.
  abbrev pub Receives : Live p h → Outcome (Live p h) Error (Option ℕ) → Type 0
  Receives s (done n t) = Gains log s t
  Receives s (fail e t) = Gains log s t
  Receives s panic = ⊥
  Receives s out_of_fuel = ⊥

module _ {p : Platform} {h : Handler p} (l : Lawful p) (log : ReceivedLog p) where
  Receives-trans :
      (s t : Live p h) (o : Outcome (Live p h) Error (Option ℕ))
      → Gains log s t
      → Receives log t o
      → Receives log s o
  Receives-trans s t (done n u) a b = Gains-trans log a b
  Receives-trans s t (fail e u) a b = Gains-trans log a b
  Receives-trans s t panic a b = b
  Receives-trans s t out_of_fuel a b = b

  -- Where the fuel exceeds the bytes that the socket has to give before it would block, reading
  -- into the input buffer of a valid connection comes to an end. Then the bytes that the socket gave
  -- are, in their order, behind those that were to be read: growth loses and doubles none, also
  -- where the call returns an error.
  pub buffer_in-Receives :
      (fuel : ℕ) (s : Live p h)
      → IsValid s.conn
      → still log s < fuel
      → Receives log s (buffer_in fuel s)
  unfolding buffer_in
  buffer_in-Receives zero s v enough = absurd (omega arith)
  buffer_in-Receives (suc fuel) s v enough =
      went ((take_in >>= took) s) (round-Rounds l log s v) (buffer_in-Receives fuel)
    where
      went :
          (o : Outcome (Live p h) Error Round)
          → Rounds log s o
          → ((t : Live p h)
              → IsValid t.conn
              → still log t < fuel
              → Receives log t (buffer_in fuel t))
          → Receives log s (and_then o (looped (buffer_in fuel)))
      went (done again t) (g, less, w) rest = Receives-trans s t _ g (rest t w (omega arith))
      went (done (return n) t) g rest = g
      went (fail e t) g rest = g
      went panic g rest = g
      went out_of_fuel g rest = g

  -- The same, with any fuel, where it ends.
  pub buffer_in-Gains :
      (fuel : ℕ) (s : Live p h) → IsValid s.conn → Ends ⊥ (λ t. Gains log s t) (buffer_in fuel s)
  unfolding buffer_in
  buffer_in-Gains zero s v = tt
  buffer_in-Gains (suc fuel) s v =
      went ((take_in >>= took) s) (round-Rounds l log s v) (buffer_in-Gains fuel)
    where
      further :
          (t : Live p h) (o : Outcome (Live p h) Error (Option ℕ))
          → Gains log s t
          → Ends ⊥ (λ u. Gains log t u) o
          → Ends ⊥ (λ u. Gains log s u) o
      further t (done n u) a b = Gains-trans log a b
      further t (fail e u) a b = Gains-trans log a b
      further t panic a b = b
      further t out_of_fuel a b = tt

      went :
          (o : Outcome (Live p h) Error Round)
          → Rounds log s o
          → ((t : Live p h) → IsValid t.conn → Ends ⊥ (λ u. Gains log t u) (buffer_in fuel t))
          → Ends ⊥ (λ u. Gains log s u) (and_then o (looped (buffer_in fuel)))
      went (done again t) (g, less, w) rest = further t (buffer_in fuel t) g (rest t w)
      went (done (return n) t) g rest = g
      went (fail e t) g rest = g
      went panic g rest = g
      went out_of_fuel g rest = tt
