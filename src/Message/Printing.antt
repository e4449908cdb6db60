-- ===== src/Message/Printing.antt =====
-- src/message.rs: making messages of texts and bytes, and printing them.
use xnet_socket.Base.{
  ℕ, zero, suc, ◌+◌, ◌*◌, ◌-◌, ◌/◌, ◌%◌, ◌<◌, ◌≡◌, ◌⊎◌, inl, inr, refl, ap, ◌∙◌, ◌==◌, leb, ◌&&◌,
  Bool, true, Str, str, List, [], ◌∷◌, ◌++◌, drop, length, ok, err, if◌then◌else◌, arith,
  Bool-cases,
}
use xnet_socket.Errors.{Error, Utf8Error, Result}
use xnet_socket.Message.{Message, message_length, as_text}

-- `Message::text`, of what has been converted into a `String`.
unfoldable pub text_message : Str → Message
text_message s = Message.text s

-- `Message::binary`, of what has been converted into a vector.
unfoldable pub binary_message : List ℕ → Message
binary_message d = Message.binary d

-- `From<String>` and `From<&str>`, by `Message::text`.
unfoldable pub message_of_text : Str → Message
unfolding text_message
message_of_text s = text_message s

-- `From<&[u8]>` and `From<Vec<u8>>`, by `Message::binary`.
unfoldable pub message_of_bytes : List ℕ → Message
unfolding binary_message
message_of_bytes d = binary_message d

-- The standard library's printing of a number, with as much fuel as it has digits at most.
digits : (fuel : ℕ) → ℕ → Str → Str
digits zero n after = after
digits (suc fuel) n after =
    let more = digits fuel (n / 10) ((48 + n % 10) ∷ after) in
    if n / 10 == 0 then (48 + n % 10) ∷ after else more

unfoldable pub decimal : ℕ → Str
unfolding digits
decimal n = digits (suc n) n []

abbrev pub prefix : Str
prefix = str "Binary Data<length="

printed : Result Str → ℕ → Str
unfolding decimal
printed (ok s) n = s
printed (err x) n = prefix ++ (decimal n ++ (62 ∷ []))

-- `fmt::Display for Message`.
unfoldable pub display_message : (List ℕ → Utf8Error) → Message → Str
unfolding printed
display_message utf8_error m = printed (as_text utf8_error m) (message_length m)

is_digit : ℕ → Bool
is_digit c = leb 48 c && leb c 57

-- The number that the text begins with, after the digits before.
unfoldable pub reading : ℕ → Str → ℕ
unfolding is_digit
reading n [] = n
reading n (c ∷ cs) = let next = reading (n * 10 + (c - 48)) cs in if is_digit c then next else n

reading-digit : (n d : ℕ) (cs : Str) → d < 10 → reading n ((48 + d) ∷ cs) ≡ reading (n * 10 + d) cs
unfolding reading is_digit
reading-digit n d cs less =
    let digit : is_digit (48 + d) ≡ true = ground (arith, less) in
    let same : 48 + d - 48 ≡ d = omega arith in rw (digit, same) refl

reading-digits : (fuel n : ℕ) (cs : Str) → n < fuel → reading 0 (digits fuel n cs) ≡ reading n cs
unfolding digits
reading-digits zero n cs less = absurd (omega (arith, less))
reading-digits (suc fuel) n cs less = elim (Bool-cases (n / 10 == 0)) [
  | inl last ↦
      rw last
        (reading-digit 0 (n % 10) cs (omega arith) ∙ ap (λ k. reading k cs) (ground (arith, last)))
  | inr more ↦ rw more (
      reading-digits fuel (n / 10) ((48 + n % 10) ∷ cs) (ground (arith, less, more))
      ∙ (reading-digit (n / 10) (n % 10) cs (omega arith) ∙ ap (λ k. reading k cs) (omega arith)))
]

digits-append : (fuel n : ℕ) (a b : Str) → digits fuel n a ++ b ≡ digits fuel n (a ++ b)
unfolding digits
digits-append zero n a b = refl
digits-append (suc fuel) n a b = elim (Bool-cases (n / 10 == 0)) [
  | inl last ↦ rw last refl
  | inr more ↦ rw more (digits-append fuel (n / 10) ((48 + n % 10) ∷ a) b)
]

reading-decimal : (n : ℕ) → reading 0 (decimal n ++ (62 ∷ [])) ≡ n
unfolding decimal reading is_digit
reading-decimal n =
    ap (reading 0) (digits-append (suc n) n [] (62 ∷ []))
    ∙ (reading-digits (suc n) n (62 ∷ []) (omega arith) ∙ refl)

drop-length : (xs ys : Str) → drop (length xs) (xs ++ ys) ≡ ys
drop-length [] ys = refl
drop-length (x ∷ xs) ys = drop-length xs ys

-- A message is printed as its text, where its bytes are UTF-8. Otherwise the number that can be read
-- after the fixed words is the number of its bytes.
pub display_message_lem :
    (utf8_error : List ℕ → Utf8Error) (m : Message)
    → let shown = display_message utf8_error m in
      ((s : Str) × (as_text utf8_error m ≡ ok s) × (shown ≡ s))
      ⊎ ((x : Error) × (as_text utf8_error m ≡ err x)
          × (reading 0 (drop (length prefix) shown) ≡ message_length m))
unfolding display_message
display_message_lem u m = went (as_text u m) refl
  where
    went :
        (r : Result Str)
        → as_text u m ≡ r
        → ((s : Str) × (as_text u m ≡ ok s) × (printed (as_text u m) (message_length m) ≡ s))
          ⊎ ((x : Error) × (as_text u m ≡ err x)
              × (reading 0 (drop (length prefix) (printed (as_text u m) (message_length m)))
                  ≡ message_length m))
    went (ok s) e = inl (s, e, rw e refl)
    went (err x) e = inr (
      x,
      e,
      rw e (
          ap (reading 0) (drop-length prefix (decimal (message_length m) ++ (62 ∷ [])))
          ∙ reading-decimal (message_length m)),
    )
