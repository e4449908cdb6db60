-- ===== src/Buffer.antt =====
-- The standard library's `Vec<u8>` and `Cursor<Vec<u8>>`, as src/connection.rs uses them. `grown`
-- is the allocator's choice of a capacity for a vector that has to grow.
pub mod Fits
use xnet_socket.Base.{
  ℕ, ◌+◌, [], ◌++◌, Str, Option, none, some, length, take, drop, ltb, if◌then◌else◌,
}

pub record Vec : Type 0 where
  pub bytes : Str
  pub capacity : ℕ

pub record Cursor : Type 0 where
  pub inner : Vec
  pub position : ℕ

abbrev pub with_capacity : ℕ → Vec
with_capacity n = record { bytes = []; capacity = n }

abbrev pub new_cursor : Vec → Cursor
new_cursor v = record { inner = v; position = 0 }

-- `get_ref().len()`.
abbrev pub cursor_length : Cursor → ℕ
cursor_length c = length c.inner.bytes

-- The bytes that have not been read, or not been written out, yet.
abbrev pub unread : Cursor → Str
unread c = drop c.position c.inner.bytes

-- `&get_ref()[position..]`, which panics where the position is past the end.
abbrev pub unread_slice : Cursor → Option Str
unread_slice c = if ltb (cursor_length c) c.position then none else some (unread c)

abbrev pub clear : Vec → Vec
clear v = record v { bytes = [] }

-- `seek(SeekFrom::End(0))` and `seek(SeekFrom::Start(p))`, which cannot fail.
abbrev pub seek_end : Cursor → Cursor
seek_end c = record c { position = cursor_length c }

abbrev pub seek_start : ℕ → Cursor → Cursor
seek_start n c = record c { position = n }

-- `read_to_end`: what is unread, and the cursor behind it.
abbrev pub read_to_end : Cursor → Str × Cursor
read_to_end c = (unread c, record c { position = c.position + length (unread c) })

module _ (grown : ℕ → ℕ → ℕ) where
  abbrev pub room : ℕ → ℕ → ℕ
  room capacity need = if ltb capacity need then grown capacity need else capacity

  abbrev pub reserve : ℕ → Vec → Vec
  reserve n v = record v { capacity = room v.capacity (length v.bytes + n) }

  abbrev pub extend : Str → Vec → Vec
  extend xs v = record {
    bytes = v.bytes ++ xs;
    capacity = room v.capacity (length v.bytes + length xs);
  }

  -- `write` at a position inside the vector or at its end; it takes all of `xs`. The code only
  -- calls it at the end.
  abbrev pub write_at : Str → Cursor → Cursor
  write_at xs c = record {
    inner = record {
      bytes = take c.position c.inner.bytes ++ (xs ++ drop (c.position + length xs) c.inner.bytes);
      capacity = room c.inner.capacity (c.position + length xs);
    };
    position = c.position + length xs;
  }
