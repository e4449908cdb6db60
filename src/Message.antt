-- ===== src/Message.antt =====
-- src/message.rs: messages, and what the standard library says of UTF-8.
pub mod Utf8
pub mod Contents
pub mod Printing
use xnet_socket.Base.{
  ℕ, List, Bool, true, false, Option, Str, StdResult, ok, err, length, if◌then◌else◌,
}
use xnet_socket.Errors.{Utf8Error, Result, from_utf8_error}
use xnet_socket.Protocol.{OpCode}
use Utf8.{is_utf8}

-- A `String` is its bytes.
pub data Message : Type 0 where
  text : Str → Message
  binary : List ℕ → Message

unfoldable pub is_text : Message → Bool
is_text (Message.text s) = true
is_text (Message.binary d) = false

unfoldable pub is_binary : Message → Bool
is_binary (Message.text s) = false
is_binary (Message.binary d) = true

-- `Message::len`.
unfoldable pub message_length : Message → ℕ
message_length (Message.text s) = length s
message_length (Message.binary d) = length d

abbrev pub is_nil : List ℕ → Bool
is_nil List.[] = true
is_nil (List.◌∷◌ b bs) = false

unfoldable pub is_empty : Message → Bool
is_empty (Message.text s) = is_nil s
is_empty (Message.binary d) = is_nil d

unfoldable pub opcode : Message → OpCode
opcode (Message.text s) = OpCode.text
opcode (Message.binary d) = OpCode.binary

unfoldable pub into_data : Message → List ℕ
into_data (Message.text s) = s
into_data (Message.binary d) = d

-- The standard library's error for bytes that are not UTF-8 is a parameter.
module _ (utf8_error : List ℕ → Utf8Error) where
  -- `String::from_utf8` and `str::from_utf8`, with the error's conversion by `?`.
  unfoldable pub from_utf8 : List ℕ → Result Str
  from_utf8 bytes = if is_utf8 bytes then ok bytes else err (from_utf8_error (utf8_error bytes))

  unfoldable pub into_text : Message → Result Str
  unfolding from_utf8
  into_text (Message.text s) = ok s
  into_text (Message.binary d) = from_utf8 d

  unfoldable pub as_text : Message → Result Str
  unfolding from_utf8
  as_text (Message.text s) = ok s
  as_text (Message.binary d) = from_utf8 d
