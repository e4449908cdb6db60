-- ===== src/Platform.antt =====
-- What src/ calls and does not contain: the crates mio and bytes, the allocator, and the error
-- values of the standard library. A `Platform` is their operations; a `Lawful` platform keeps what
-- they document. mio's `Token` is the number in it.
use xnet_socket.Base.{
  ℕ, ◌+◌, ◌≤◌, ◌<◌, ◌≡◌, List, ◌++◌, Str, Bool, true, false, not, ◌&&◌, ◌||◌, length, take, ok, err,
}
use xnet_socket.Errors.{IoError, IoResult, Utf8Error}
use xnet_socket.Buffer.{Vec, Cursor, unread}

pub record Platform : Type 1 where
  -- What lies outside the process: the network, the poll, the channel.
  pub World : Type 0
  -- `usize::MAX`.
  pub usize_max : ℕ
  -- `cfg(debug_assertions)`.
  pub debug_assertions : Bool
  -- `mio::Ready`.
  pub Ready : Type 0
  pub none_ready : Ready
  pub readable : Ready
  pub writable : Ready
  pub insert : Ready → Ready → Ready
  pub remove : Ready → Ready → Ready
  -- The operator `&`.
  pub intersect : Ready → Ready → Ready
  pub is_readable : Ready → Bool
  pub is_writable : Ready → Bool
  -- `mio::tcp::TcpStream`, `std::net::SocketAddr`, `mio::timer::Timeout`.
  pub Socket : Type 0
  pub Addr : Type 0
  pub Timeout : Type 0
  -- `read` into a slice of that length gives the bytes that it put there.
  pub tcp_read : Socket → ℕ → World → IoResult Str × World
  pub tcp_write : Socket → Str → World → IoResult ℕ × World
  pub tcp_flush : Socket → World → IoResult (Unit {0}) × World
  pub tcp_peer_addr : Socket → World → IoResult Addr
  pub tcp_local_addr : Socket → World → IoResult Addr
  -- `SocketAddr::to_string`.
  pub addr_text : Addr → Str
  pub tcp_connect : Addr → World → IoResult Socket × World
  -- `bytes::BufMut for Vec<u8>`: the vector and the length of the free slice after `bytes_mut`, and
  -- `advance_mut` over bytes that were put in that slice.
  pub bytes_mut : Vec → Vec
  pub window : Vec → ℕ
  pub advance_mut : Str → Vec → Vec
  -- `bytes::Buf for Cursor<Vec<u8>>`: `bytes` and `advance`.
  pub chunk : Cursor → Str
  pub advance : ℕ → Cursor → Cursor
  -- The capacity of a vector of the first capacity that has to hold the second number of bytes.
  pub grown : ℕ → ℕ → ℕ
  -- The standard library's error for bytes that are not UTF-8.
  pub utf8_error : List ℕ → Utf8Error

pub record Lawful (p : Platform) : Type 0 where
  pub usize_wide : 65535 ≤ p.usize_max
  pub none_readable : p.is_readable p.none_ready ≡ false
  pub none_writable : p.is_writable p.none_ready ≡ false
  pub readable_readable : p.is_readable p.readable ≡ true
  pub readable_writable : p.is_writable p.readable ≡ false
  pub writable_readable : p.is_readable p.writable ≡ false
  pub writable_writable : p.is_writable p.writable ≡ true
  pub insert_readable :
      (a b : p.Ready) → p.is_readable (p.insert a b) ≡ p.is_readable a || p.is_readable b
  pub insert_writable :
      (a b : p.Ready) → p.is_writable (p.insert a b) ≡ p.is_writable a || p.is_writable b
  pub remove_readable :
      (a b : p.Ready) → p.is_readable (p.remove a b) ≡ p.is_readable a && not (p.is_readable b)
  pub remove_writable :
      (a b : p.Ready) → p.is_writable (p.remove a b) ≡ p.is_writable a && not (p.is_writable b)
  pub intersect_readable :
      (a b : p.Ready) → p.is_readable (p.intersect a b) ≡ p.is_readable a && p.is_readable b
  pub intersect_writable :
      (a b : p.Ready) → p.is_writable (p.intersect a b) ≡ p.is_writable a && p.is_writable b
  pub read_fits :
      (s : p.Socket) (n : ℕ) (w : p.World) (d : Str) → (p.tcp_read s n w).0 ≡ ok d → length d ≤ n
  pub write_fits :
      (s : p.Socket) (d : Str) (w : p.World) (n : ℕ) → (p.tcp_write s d w).0 ≡ ok n → n ≤ length d
  pub bytes_mut_bytes : (v : Vec) → (p.bytes_mut v).bytes ≡ v.bytes
  pub window_pos : (v : Vec) → 0 < p.window v
  pub window_fits : (v : Vec) → length v.bytes + p.window v ≤ (p.bytes_mut v).capacity
  pub advance_mut_bytes :
      (v : Vec) (d : Str)
      → length d ≤ p.window v
      → (p.advance_mut d (p.bytes_mut v)).bytes ≡ v.bytes ++ d
  pub advance_mut_capacity :
      (v : Vec) (d : Str)
      → length d ≤ p.window v
      → (p.advance_mut d (p.bytes_mut v)).capacity ≡ (p.bytes_mut v).capacity
  pub chunk_unread : (c : Cursor) → p.chunk c ≡ unread c
  pub advance_position :
      (c : Cursor) (n : ℕ)
      → n ≤ length (unread c)
      → p.advance n c ≡ record c { position = c.position + n }
  pub grown_fits : (c n : ℕ) → n ≤ p.grown c n

-- What a peer could read of a socket: all bytes that `write` took, in order. Nothing else writes.
pub record SentLog (p : Platform) : Type 0 where
  pub sent : p.Socket → p.World → Str
  pub taken :
      (s : p.Socket) (d : Str) (w : p.World) (n : ℕ)
      → (p.tcp_write s d w).0 ≡ ok n
      → sent s (p.tcp_write s d w).1 ≡ sent s w ++ take n d
  pub not_taken :
      (s : p.Socket) (d : Str) (w : p.World) (e : IoError)
      → (p.tcp_write s d w).0 ≡ err e
      → sent s (p.tcp_write s d w).1 ≡ sent s w

-- What a socket has given to `read`, and how much more it has to give before it would block.
pub record ReceivedLog (p : Platform) : Type 0 where
  pub received : p.Socket → p.World → Str
  pub ready : p.Socket → p.World → ℕ
  pub given :
      (s : p.Socket) (n : ℕ) (w : p.World) (d : Str)
      → (p.tcp_read s n w).0 ≡ ok d
      → (received s (p.tcp_read s n w).1 ≡ received s w ++ d)
        × (ready s (p.tcp_read s n w).1 + length d ≡ ready s w)
  pub not_given :
      (s : p.Socket) (n : ℕ) (w : p.World) (e : IoError)
      → (p.tcp_read s n w).0 ≡ err e
      → received s (p.tcp_read s n w).1 ≡ received s w
