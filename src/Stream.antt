-- ===== src/Stream.antt =====
-- src/stream.rs: the stream of a connection, and reads and writes that do not block.
pub mod Transfers
use xnet_socket.Base.{ℕ, Bool, false, Option, none, some, Str, str, ok, err, length}
use xnet_socket.Errors.{Kind, IoKind, IoError, IoResult, Result, new_error}
use xnet_socket.Buffer.{Vec, Cursor}
use xnet_socket.Platform.{Platform}

would_block_to_none : {A : Type 0} → IoKind → IoError → IoResult (Option A)
would_block_to_none IoKind.would_block e = ok none
would_block_to_none _ e = err e

unfoldable pub map_non_block : {A : Type 0} → IoResult A → IoResult (Option A)
unfolding would_block_to_none
map_non_block (ok value) = ok (some value)
map_non_block (err e) = would_block_to_none e.kind e

-- The stream has one variant, a TCP socket.
pub data Stream (Socket : Type 0) : Type 0 where
  tcp : Socket → Stream Socket

module _ {Socket : Type 0} where
  unfoldable pub evented : Stream Socket → Socket
  evented (tcp sock) = sock

  unfoldable pub is_negotiating : Stream Socket → Bool
  is_negotiating (tcp sock) = false

  unfoldable pub clear_negotiating : Stream Socket → Result (Unit {0})
  clear_negotiating (tcp sock) =
      err
        (new_error Kind.internal (str "Attempted to clear negotiating flag on non ssl connection."))

module _ (p : Platform) where
  open p use {World, Socket}

  -- `io::Read` and `io::Write` for the stream pass the call on.
  unfoldable pub read : Stream Socket → ℕ → World → IoResult Str × World
  read (tcp sock) n w = p.tcp_read sock n w

  unfoldable pub write : Stream Socket → Str → World → IoResult ℕ × World
  write (tcp sock) bytes w = p.tcp_write sock bytes w

  unfoldable pub flush : Stream Socket → World → IoResult (Unit {0}) × World
  flush (tcp sock) w = p.tcp_flush sock w

  unfoldable pub peer_addr : Stream Socket → World → IoResult p.Addr
  peer_addr (tcp sock) w = p.tcp_peer_addr sock w

  unfoldable pub local_addr : Stream Socket → World → IoResult p.Addr
  local_addr (tcp sock) w = p.tcp_local_addr sock w

  -- The count of bytes and the vector after `advance_mut`.
  unfoldable pub filled : IoResult (Option Str) → Vec → IoResult (Option ℕ) × Vec
  filled (ok none) v = (ok none, v)
  filled (ok (some d)) v = (ok (some (length d)), p.advance_mut d v)
  filled (err e) v = (err e, v)

  unfoldable pub try_read_buf : Stream Socket → Vec → World → IoResult (Option ℕ) × Vec × World
  unfolding read map_non_block filled
  try_read_buf s v w =
      let (res, w') = read s (p.window v) w in
      let (count, v') = filled (map_non_block res) (p.bytes_mut v) in (count, v', w')

  unfoldable pub drained : IoResult (Option ℕ) → Cursor → Cursor
  drained (ok (some n)) c = p.advance n c
  drained _ c = c

  unfoldable pub try_write_buf :
      Stream Socket → Cursor → World → IoResult (Option ℕ) × Cursor × World
  unfolding write map_non_block drained
  try_write_buf s c w =
      let (sent, w') = write s (p.chunk c) w in
      let res : IoResult (Option ℕ) = map_non_block sent in (res, drained res c, w')
