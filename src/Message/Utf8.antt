-- ===== src/Message/Utf8.antt =====
-- Well-formed UTF-8, as the standard library's `from_utf8` documents it: each lead byte fixes the
-- ranges of the bytes that must follow.
use xnet_socket.Base.{
  ℕ, ◌≤◌, ◌≡◌, refl, Bool, true, false, ◌&&◌, Option, none, some, List, [], ◌∷◌, ◌++◌, leb, ltb,
  ◌==◌, if◌then◌else◌, arith,
}

abbrev Span : Type 0
Span = ℕ × ℕ

abbrev within : Span → ℕ → Bool
within (lo, hi) b = leb lo b && leb b hi

abbrev tail : Span
tail = (0x80, 0xbf)

-- What must follow a lead byte; `none` for a byte that leads no character.
followers : ℕ → Option (List Span)
followers b =
    if ltb b 0x80
    then some []
    else if within (0xc2, 0xdf) b
    then some (tail ∷ [])
    else if b == 0xe0
    then some ((0xa0, 0xbf) ∷ tail ∷ [])
    else if b == 0xed
    then some ((0x80, 0x9f) ∷ tail ∷ [])
    else if within (0xe1, 0xef) b
    then some (tail ∷ tail ∷ [])
    else if b == 0xf0
    then some ((0x90, 0xbf) ∷ tail ∷ tail ∷ [])
    else if within (0xf1, 0xf3) b
    then some (tail ∷ tail ∷ tail ∷ [])
    else if b == 0xf4
    then some ((0x80, 0x8f) ∷ tail ∷ tail ∷ [])
    else none

-- The state of the reader: the spans of the bytes that the current character still needs, or
-- nothing after a byte that is not allowed.
unfoldable pub next : Option (List Span) → ℕ → Option (List Span)
unfolding followers
next none b = none
next (some []) b = followers b
next (some (s ∷ ss)) b = if within s b then some ss else none

unfoldable pub scan : Option (List Span) → List ℕ → Option (List Span)
scan q [] = q
scan q (b ∷ bs) = scan (next q b) bs

abbrev complete : Option (List Span) → Bool
complete (some []) = true
complete _ = false

unfoldable pub is_utf8 : List ℕ → Bool
unfolding scan next
is_utf8 bytes = complete (scan (some []) bytes)

pub scan-append :
    (q : Option (List Span)) (xs ys : List ℕ) → scan q (xs ++ ys) ≡ scan (scan q xs) ys
unfolding scan
scan-append q [] ys = refl
scan-append q (x ∷ xs) ys = scan-append (next q x) xs ys

complete-eq : (q : Option (List Span)) → complete q ≡ true → q ≡ some []
complete-eq none h = ground arith
complete-eq (some []) h = refl
complete-eq (some (s ∷ ss)) h = ground arith

-- After whole characters the rest is judged by itself.
pub is_utf8-append : (xs ys : List ℕ) → is_utf8 xs ≡ true → is_utf8 (xs ++ ys) ≡ is_utf8 ys
unfolding is_utf8
is_utf8-append xs ys h =
    rw (scan-append (some []) xs ys) (rw (complete-eq (scan (some []) xs) h) refl)

scan-none : (bs : List ℕ) → scan none bs ≡ none
unfolding scan next
scan-none [] = refl
scan-none (b ∷ bs) = scan-none bs

-- The bytes that a character still needs are never lead bytes.
abbrev Tails : List Span → Type 0
Tails [] = Unit
Tails ((lo, hi) ∷ ss) = (0x80 ≤ lo) × (hi ≤ 0xbf) × Tails ss

abbrev AwaitsTails : Option (List Span) → Type 0
AwaitsTails none = Unit
AwaitsTails (some ss) = Tails ss

next-AwaitsTails : (q : Option (List Span)) (b : ℕ) → AwaitsTails q → AwaitsTails (next q b)
unfolding next
next-AwaitsTails none b t = tt
next-AwaitsTails (some []) b t = ground arith
next-AwaitsTails (some (s ∷ ss)) b t = ground arith

scan-AwaitsTails : (q : Option (List Span)) (bs : List ℕ) → AwaitsTails q → AwaitsTails (scan q bs)
unfolding scan
scan-AwaitsTails q [] t = t
scan-AwaitsTails q (b ∷ bs) t = scan-AwaitsTails (next q b) bs (next-AwaitsTails q b t)

rest_refused :
    (q : Option (List Span)) (bs : List ℕ)
    → AwaitsTails q
    → complete q ≡ false
    → complete (scan q bs) ≡ true
    → complete (scan (some []) bs) ≡ false
unfolding scan next
rest_refused none bs t cut whole = cc (scan-none bs)
rest_refused (some []) bs t cut whole = cc
rest_refused (some (s ∷ ss)) [] t cut whole = cc
rest_refused (some (s ∷ ss)) (b ∷ bs) t cut whole = ground (arith, scan-none bs)

-- A text that is cut within a character is UTF-8 on neither side of the cut.
pub is_utf8-cut :
    (xs ys : List ℕ) → is_utf8 (xs ++ ys) ≡ true → is_utf8 xs ≡ false → is_utf8 ys ≡ false
unfolding is_utf8
is_utf8-cut xs ys whole cut =
    rest_refused (scan (some []) xs) ys (scan-AwaitsTails (some []) xs tt) cut
      (rw (scan-append (some []) xs ys) at whole)
