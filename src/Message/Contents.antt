-- ===== src/Message/Contents.antt =====
-- src/message.rs: a message and the bytes that it is sent as.
use xnet_socket.Base.{ℕ, ◌≡◌, ◌↔◌, true, List, [], ◌∷◌, length, arith}
use xnet_socket.Errors.{Utf8Error}
use xnet_socket.Message.{Message, message_length, is_empty, into_data, into_text, as_text}
use xnet_socket.Message.Utf8.{is_utf8}

-- The text of a message is a `String`.
abbrev pub IsWellFormed : Message → Type 0
IsWellFormed (Message.text s) = is_utf8 s ≡ true
IsWellFormed (Message.binary d) = Unit

-- The bytes of a well-formed message carry it: read as text, in either way, they give what the
-- message gives, its text or the same encoding error; they are as many as its length, and there are
-- none exactly when it is empty.
pub into_data_lem :
    (utf8_error : List ℕ → Utf8Error) (m : Message)
    → IsWellFormed m
    → (into_text utf8_error (Message.binary (into_data m)) ≡ into_text utf8_error m)
      × (as_text utf8_error (Message.binary (into_data m)) ≡ into_text utf8_error m)
      × (message_length m ≡ length (into_data m))
      × ((is_empty m ≡ true) ↔ (into_data m ≡ []))
unfolding into_text as_text into_data message_length is_empty
into_data_lem u (Message.text []) w = ground arith
into_data_lem u (Message.text (c ∷ s)) w = ground arith
into_data_lem u (Message.binary []) w = ground arith
into_data_lem u (Message.binary (c ∷ s)) w = ground arith
