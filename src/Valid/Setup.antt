-- ===== src/Valid/Setup.antt =====
-- The calls around the traffic of a connection keep the invariant.
use xnet_socket.Base.{ℕ, List, Str, arith}
use xnet_socket.Settings.{Settings}
use xnet_socket.Platform.{Platform}
use xnet_socket.Handler.{Handler}
use xnet_socket.Connection.{
  is_connecting, is_client, new, open_connection, as_server, as_client, reset, new_timeout,
  timeout_triggered,
}
use xnet_socket.Valid.Invariant.{IsValid, Keeps, Never}

module _ {p : Platform} {h : Handler p} where
  pub new-IsValid :
      (tok : ℕ) (sock : p.Socket) (handler : h.H) (settings : Settings) (id : ℕ)
      → IsValid (new {h = h} tok sock handler settings id)
  unfolding new is_connecting is_client
  new-IsValid tok sock handler settings id = ground arith

  pub open_connection-Keeps : Keeps {p = p} {h = h} Never open_connection
  unfolding open_connection is_connecting
  open_connection-Keeps s v = ground arith

  pub as_server-Keeps : Keeps {p = p} {h = h} Never as_server
  unfolding as_server
  as_server-Keeps s v = ground arith

  pub as_client-Keeps :
      (url : Str) (addrs : List p.Addr) → Keeps {p = p} {h = h} Never (as_client url addrs)
  unfolding as_client is_connecting
  as_client-Keeps url addrs s v = ground arith

  pub reset-Keeps : Keeps {p = p} {h = h} Never reset
  unfolding reset is_connecting
  reset-Keeps s v = ground arith

  pub new_timeout-Keeps :
      (event : ℕ) (t : p.Timeout) → Keeps {p = p} {h = h} Never (new_timeout event t)
  unfolding new_timeout
  new_timeout-Keeps event t s v = ground arith

  pub timeout_triggered-Keeps : (event : ℕ) → Keeps {p = p} {h = h} Never (timeout_triggered event)
  unfolding timeout_triggered
  timeout_triggered-Keeps event s v = ground arith
