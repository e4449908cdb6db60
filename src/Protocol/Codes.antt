-- ===== src/Protocol/Codes.antt =====
-- src/protocol.rs: the numbers and the codes determine one another.
use xnet_socket.Base.{ℕ, ◌≤◌, ◌≡◌, ◌≢◌, ◌↔◌, refl, Bool, true, some, arith, List, [], ◌∷◌}
use xnet_socket.Protocol.{
  OpCode, is_control, opcode_into, opcode_from, CloseCode, close_code_into, close_code_from,
}

-- Every operation code but `Bad` converts, in a debug and in a release build, to exactly the number
-- from which it is read back.
pub opcode_from-opcode_into :
    (debug : Bool) (c : OpCode) (byte : ℕ)
    → c ≢ OpCode.bad
    → (opcode_into debug c ≡ some byte) ↔ (opcode_from byte ≡ c)
unfolding opcode_into opcode_from
opcode_from-opcode_into debug OpCode.bad byte h = absurd (h refl)
opcode_from-opcode_into debug OpCode.continue byte h = ground arith
opcode_from-opcode_into debug OpCode.text byte h = ground arith
opcode_from-opcode_into debug OpCode.binary byte h = ground arith
opcode_from-opcode_into debug OpCode.close byte h = ground arith

-- A code that converts to a number, in either build, is a control code exactly when that number is
-- at least 8.
pub is_control-opcode_into :
    (debug : Bool) (c : OpCode) (byte : ℕ)
    → opcode_into debug c ≡ some byte
    → (is_control c ≡ true) ↔ (8 ≤ byte)
unfolding opcode_into is_control
is_control-opcode_into debug c byte e = ground arith

-- No number is lost by reading it as a close code and writing it again.
pub close_code_into-close_code_from : (n : ℕ) → close_code_into (close_code_from n) ≡ n
unfolding close_code_into close_code_from
close_code_into-close_code_from n = ground arith

-- The numbers that have a close code of their own.
abbrev assigned : List ℕ
assigned =
    0 ∷ 1000 ∷ 1001 ∷ 1002 ∷ 1003 ∷ 1005 ∷ 1006 ∷ 1007 ∷ 1008 ∷ 1009 ∷ 1010 ∷ 1011 ∷ 1012 ∷ 1013
    ∷ 1015 ∷ []

abbrev Differs : ℕ → List ℕ → Type 0
Differs n [] = Unit
Differs n (m ∷ ms) = (n ≢ m) × Differs n ms

-- `Other` is meant for the numbers that have no code of their own.
abbrev pub IsCanonical : CloseCode → Type 0
IsCanonical (CloseCode.other n) = Differs n assigned
IsCanonical _ = Unit

-- A close code is read back from its number exactly when it is no `Other` of a number that has a
-- code of its own.
pub close_code_from-close_code_into :
    (c : CloseCode) → (close_code_from (close_code_into c) ≡ c) ↔ IsCanonical c
unfolding close_code_into close_code_from
close_code_from-close_code_into (CloseCode.other n) = ground arith
close_code_from-close_code_into CloseCode.normal = ((λ _. tt), λ _. refl)
close_code_from-close_code_into _ = ((λ _. tt), λ _. refl)
