-- ===== src/Valid/History.antt =====
-- Every call that src/io.rs makes of a connection, and the connections that calls lead to.
use xnet_socket.Base.{ℕ, ◌≡◌, List, Str, str, done, fail, subst, arith}
use xnet_socket.Errors.{Kind, Error, new_error}
use xnet_socket.Protocol.{CloseCode}
use xnet_socket.Message.{Message}
use xnet_socket.Settings.{Settings}
use xnet_socket.Platform.{Platform, Lawful}
use xnet_socket.Handler.{Handler}
use xnet_socket.Connection.{
  Endpoint, is_connecting, is_client, Connection, Live, Method, new, open_connection, as_server,
  as_client, reset, shutdown, new_timeout, timeout_triggered, error, disconnect, read, write,
  send_message, send_close,
}
use xnet_socket.Valid.Invariant.{IsValid, Ends, Keeps}
use xnet_socket.Valid.Closing.{
  TooEarly, PanicsOn, error-Keeps, shutdown-Keeps, disconnect-Keeps, send_close-Keeps,
}
use xnet_socket.Valid.Setup.{
  new-IsValid, open_connection-Keeps, as_server-Keeps, as_client-Keeps, reset-Keeps,
  new_timeout-Keeps, timeout_triggered-Keeps,
}
use xnet_socket.Valid.Output.{send_message-Keeps, write-Keeps}
use xnet_socket.Valid.Input.{read-Keeps}

pub data Call (p : Platform) : Type 0 where
  opens serves resets shuts_down writes disconnects : Call p
  connects : Str → List p.Addr → Call p
  hears : ℕ → p.Timeout → Call p
  times_out : ℕ → Call p
  errs : Error → Call p
  reads : (fuel : ℕ) → Call p
  sends : Message → Call p
  closes : CloseCode → Str → Call p

module _ {p : Platform} {h : Handler p} where
  abbrev pub perform : Call p → Method p h (Unit {0})
  perform opens = open_connection
  perform serves = as_server
  perform resets = reset
  perform shuts_down = shutdown
  perform writes = write
  perform disconnects = disconnect
  perform (connects url addrs) = as_client url addrs
  perform (hears event timeout) = new_timeout event timeout
  perform (times_out event) = timeout_triggered event
  perform (errs e) = error e
  perform (reads fuel) = read fuel
  perform (sends m) = send_message m
  perform (closes code reason) = send_close code reason

  -- What a panic of a call needs: the setting for that kind of error, or a close in a debug build
  -- of a connection that is not open yet.
  abbrev pub Risk : Call p → Connection p h → Type 0
  Risk (errs e) c = PanicsOn e c
  Risk shuts_down c = TooEarly c
  Risk (closes code reason) c = TooEarly c
  Risk _ c = ⊥

  -- The connections that calls lead to from a new one. Between two calls the world may change in
  -- any way.
  pub data Reach : Connection p h → Type 0 where
    made :
        (tok : ℕ) (sock : p.Socket) (handler : h.H) (settings : Settings) (id : ℕ)
        → Reach (new tok sock handler settings id)
    returned :
        (s t : Live p h) (call : Call p) → Reach s.conn → perform call s ≡ done tt t → Reach t.conn
    refused :
        (s t : Live p h) (e : Error) (call : Call p)
        → Reach s.conn
        → perform call s ≡ fail e t
        → Reach t.conn

abbrev pub refusal : Endpoint → Error
refusal (Endpoint.client url) =
    new_error Kind.internal (str "Unable to reset client connection because it is active.")
refusal Endpoint.server = new_error Kind.internal (str "Server connections cannot be reset.")

module _ {p : Platform} {h : Handler p} (l : Lawful p) where
  perform-Keeps : (call : Call p) → Keeps {p = p} {h = h} (Risk call) (perform call)
  perform-Keeps opens = open_connection-Keeps
  perform-Keeps serves = as_server-Keeps
  perform-Keeps resets = reset-Keeps
  perform-Keeps shuts_down = shutdown-Keeps
  perform-Keeps writes = write-Keeps l
  perform-Keeps disconnects = disconnect-Keeps
  perform-Keeps (connects url addrs) = as_client-Keeps url addrs
  perform-Keeps (hears event timeout) = new_timeout-Keeps event timeout
  perform-Keeps (times_out event) = timeout_triggered-Keeps event
  perform-Keeps (errs e) = error-Keeps e
  perform-Keeps (reads fuel) = read-Keeps l fuel
  perform-Keeps (sends m) = send_message-Keeps l m
  perform-Keeps (closes code reason) = send_close-Keeps code reason

  -- Every call on a valid connection, also one that returns an error, leaves a valid connection; it
  -- panics only by the setting for that kind of error, on a connection past connecting, or, for a
  -- shutdown or a close, in a debug build on a connection that is still connecting.
  pub perform-IsValid :
      (call : Call p) (s : Live p h)
      → IsValid s.conn
      → Ends (Risk call s.conn) (λ t. IsValid t.conn) (perform call s)
  perform-IsValid call s v = perform-Keeps call s v

  -- Every connection that calls lead to from a new one is valid: it is connecting, open or awaiting
  -- a close, a client is past connecting, and the positions of both buffers lie within their bytes
  -- and those within their capacities.
  pub Reach-IsValid : {c : Connection p h} → Reach c → IsValid c
  Reach-IsValid (made tok sock handler settings id) = new-IsValid tok sock handler settings id
  Reach-IsValid (returned s t call r e) =
      subst (Ends (Risk call s.conn) (λ t. IsValid t.conn)) e
        (perform-Keeps call s (Reach-IsValid r))
  Reach-IsValid (refused s t x call r e) =
      subst (Ends (Risk call s.conn) (λ t. IsValid t.conn)) e
        (perform-Keeps call s (Reach-IsValid r))

  pub reset-IsValid : (s : Live p h) → IsValid s.conn → reset s ≡ fail (refusal s.endpoint) s
  unfolding reset is_connecting is_client
  reset-IsValid s v = ground (arith, v)

  -- The retry after a refused connection never takes place: `reset` of any connection that calls
  -- lead to returns an internal error and changes nothing.
  pub reset_never : (s : Live p h) → Reach s.conn → reset s ≡ fail (refusal s.endpoint) s
  reset_never s r = reset-IsValid s (Reach-IsValid r)
