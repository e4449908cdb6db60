-- ===== src/Base/Effects.antt =====
-- What a method of `&mut self` may come to, and how methods are chained.

-- `std::result::Result`.
pub data StdResult (A E : Type 0) : Type 0 where
  ok : A → StdResult A E
  err : E → StdResult A E

-- A run over a state `S` with errors `E`: it returns a value, or it returns an `Err` and keeps what
-- it wrote before; it panics, which no code under src/ catches; or a loop takes more rounds than the
-- fuel given.
pub data Outcome (S E A : Type 0) : Type 0 where
  done : A → S → Outcome S E A
  fail : E → S → Outcome S E A
  panic : Outcome S E A
  out_of_fuel : Outcome S E A

abbrev pub Action : Type 0 → Type 0 → Type 0 → Type 0
Action S E A = S → Outcome S E A

module _ {S E : Type 0} where
  abbrev pub pure : {A : Type 0} → A → Action S E A
  pure = done

  abbrev pub and_then : {A B : Type 0} → Outcome S E A → (A → Action S E B) → Outcome S E B
  and_then (done a s) k = k a s
  and_then (fail e s) k = fail e s
  and_then panic k = panic
  and_then out_of_fuel k = out_of_fuel

  -- The operator `?` between two steps.
  infixl 5 ◌>>=◌ ◌>>◌
  abbrev pub ◌>>=◌ : {A B : Type 0} → Action S E A → (A → Action S E B) → Action S E B
  m >>= k = λ s. and_then (m s) k

  abbrev pub ◌>>◌ : {A B : Type 0} → Action S E A → Action S E B → Action S E B
  m >> n = m >>= λ _. n

  -- `if let Err(err) = m { handle(err) }`.
  abbrev pub or_else : {A : Type 0} → Outcome S E A → (E → Action S E A) → Outcome S E A
  or_else (done a s) k = done a s
  or_else (fail e s) k = k e s
  or_else panic k = panic
  or_else out_of_fuel k = out_of_fuel

  abbrev pub gets : {A : Type 0} → (S → A) → Action S E A
  gets f s = done (f s) s

  abbrev pub modify : (S → S) → Action S E (Unit {0})
  modify f s = done tt (f s)
