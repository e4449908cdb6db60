-- ===== src/Tests/Units.antt =====
-- The unit tests of src/protocol.rs and src/message.rs, at the model: what each asserts, and that
-- it holds.
use xnet_socket.Base.{ℕ, ◌≡◌, refl, true, [], ◌∷◌, some, err, ◌++◌}
use xnet_socket.Errors.{Error, from_utf8_error}
use xnet_socket.Protocol.{
  OpCode, CloseCode, opcode_from, opcode_into, close_code_from, close_code_into,
}
use xnet_socket.Message.{is_text, is_binary, into_text, as_text, message_length}
use xnet_socket.Message.Utf8.{is_utf8}
use xnet_socket.Message.Printing.{
  prefix, text_message, binary_message, message_of_text, message_of_bytes, display_message,
}
use xnet_socket.Tests.Network.{demo}

abbrev OpcodeFromU8 : Type 0
OpcodeFromU8 = opcode_from 2 ≡ OpCode.binary

OpcodeFromU8_holds : OpcodeFromU8
unfolding opcode_from
OpcodeFromU8_holds = refl

abbrev OpcodeIntoU8 : Type 0
OpcodeIntoU8 = opcode_into true OpCode.text ≡ some 1

OpcodeIntoU8_holds : OpcodeIntoU8
unfolding opcode_into
OpcodeIntoU8_holds = refl

abbrev ClosecodeFromU16 : Type 0
ClosecodeFromU16 = close_code_from 1008 ≡ CloseCode.policy

ClosecodeFromU16_holds : ClosecodeFromU16
unfolding close_code_from
ClosecodeFromU16_holds = refl

abbrev ClosecodeIntoU16 : Type 0
ClosecodeIntoU16 = ◌≡◌ {A = ℕ} (close_code_into CloseCode.away) 1001

ClosecodeIntoU16_holds : ClosecodeIntoU16
unfolding close_code_into
ClosecodeIntoU16_holds = refl

-- "test", and what is printed of five bytes: "Binary Data<length=5>".
abbrev Display : Type 0
Display =
    (display_message demo.utf8_error (text_message (116 ∷ 101 ∷ 115 ∷ 116 ∷ []))
      ≡ 116 ∷ 101 ∷ 115 ∷ 116 ∷ [])
    × (display_message demo.utf8_error (binary_message (0 ∷ 1 ∷ 3 ∷ 4 ∷ 241 ∷ []))
        ≡ prefix ++ (53 ∷ 62 ∷ []))

Display_holds : Display
unfolding display_message text_message binary_message as_text is_utf8 message_length
Display_holds = (refl, refl)

-- The same of a slice and of a vector.
abbrev BinaryConvert : Type 0
BinaryConvert =
    let msg = message_of_bytes (6 ∷ 7 ∷ 8 ∷ 9 ∷ 10 ∷ 241 ∷ []) in
    (is_binary msg ≡ true) × ((x : Error) × (into_text demo.utf8_error msg ≡ err x))

BinaryConvert_holds : BinaryConvert
unfolding is_binary into_text message_of_bytes is_utf8
BinaryConvert_holds =
    (refl, (from_utf8_error (demo.utf8_error (6 ∷ 7 ∷ 8 ∷ 9 ∷ 10 ∷ 241 ∷ [])), refl))

-- "kiwotsukete".
abbrev TextConvert : Type 0
TextConvert =
    is_text (message_of_text (107 ∷ 105 ∷ 119 ∷ 111 ∷ 116 ∷ 115 ∷ 117 ∷ 107 ∷ 101 ∷ 116 ∷ 101 ∷ []))
    ≡ true

TextConvert_holds : TextConvert
unfolding is_text message_of_text
TextConvert_holds = refl
