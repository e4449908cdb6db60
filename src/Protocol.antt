-- ===== src/Protocol.antt =====
-- src/protocol.rs: the operation codes and the close codes of the protocol, and their numbers.
pub mod Codes
use xnet_socket.Base.{ℕ, Bool, true, false, Option, none, some, ◌==◌, if◌then◌else◌, Str, str}

pub data OpCode : Type 0 where
  continue text binary close bad : OpCode

unfoldable pub is_control : OpCode → Bool
is_control OpCode.text = false
is_control OpCode.binary = false
is_control OpCode.continue = false
is_control _ = true

-- `impl Into<u8> for OpCode`: `none` is the failed `debug_assert!`, which is compiled in where
-- `debug_assertions` is on.
unfoldable pub opcode_into : (debug_assertions : Bool) → OpCode → Option ℕ
opcode_into debug OpCode.continue = some 0
opcode_into debug OpCode.text = some 1
opcode_into debug OpCode.binary = some 2
opcode_into debug OpCode.close = some 8
opcode_into true OpCode.bad = none
opcode_into false OpCode.bad = some 8

unfoldable pub opcode_from : ℕ → OpCode
opcode_from byte =
    if byte == 0
    then OpCode.continue
    else if byte == 1
    then OpCode.text
    else if byte == 2
    then OpCode.binary
    else if byte == 8
    then OpCode.close
    else OpCode.bad

-- `impl Display for OpCode`.
unfoldable pub opcode_fmt : OpCode → Str
opcode_fmt OpCode.continue = str "CONTINUE"
opcode_fmt OpCode.text = str "TEXT"
opcode_fmt OpCode.binary = str "BINARY"
opcode_fmt OpCode.close = str "CLOSE"
opcode_fmt OpCode.bad = str "BAD"

pub data CloseCode : Type 0 where
  normal away protocol unsupported status abnormal invalid policy : CloseCode
  size extension error restart again tls empty : CloseCode
  other : ℕ → CloseCode

unfoldable pub close_code_into : CloseCode → ℕ
close_code_into CloseCode.normal = 1000
close_code_into CloseCode.away = 1001
close_code_into CloseCode.protocol = 1002
close_code_into CloseCode.unsupported = 1003
close_code_into CloseCode.status = 1005
close_code_into CloseCode.abnormal = 1006
close_code_into CloseCode.invalid = 1007
close_code_into CloseCode.policy = 1008
close_code_into CloseCode.size = 1009
close_code_into CloseCode.extension = 1010
close_code_into CloseCode.error = 1011
close_code_into CloseCode.restart = 1012
close_code_into CloseCode.again = 1013
close_code_into CloseCode.tls = 1015
close_code_into CloseCode.empty = 0
close_code_into (CloseCode.other code) = code

unfoldable pub close_code_from : ℕ → CloseCode
close_code_from code =
    if code == 1000
    then CloseCode.normal
    else if code == 1001
    then CloseCode.away
    else if code == 1002
    then CloseCode.protocol
    else if code == 1003
    then CloseCode.unsupported
    else if code == 1005
    then CloseCode.status
    else if code == 1006
    then CloseCode.abnormal
    else if code == 1007
    then CloseCode.invalid
    else if code == 1008
    then CloseCode.policy
    else if code == 1009
    then CloseCode.size
    else if code == 1010
    then CloseCode.extension
    else if code == 1011
    then CloseCode.error
    else if code == 1012
    then CloseCode.restart
    else if code == 1013
    then CloseCode.again
    else if code == 1015
    then CloseCode.tls
    else if code == 0
    then CloseCode.empty
    else CloseCode.other code
