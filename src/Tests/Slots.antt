-- ===== src/Tests/Slots.antt =====
-- A slab as the list of its slots.
use xnet_socket.Base.{
  ℕ, zero, suc, ltb, ◌≡◌, ◌≢◌, refl, ap, inl, inr, Option, none, some, List, [], ◌∷◌, if◌then◌else◌,
  Among, Apart, arith, length,
}
use xnet_socket.Loop.Site.{Slabs, LawfulSlabs, LawfulKeys}

unfoldable pub raised : List ℕ → List ℕ
raised [] = []
raised (t ∷ ts) = suc t ∷ raised ts

raised-Among : (t : ℕ) (ts : List ℕ) → Among t ts → Among (suc t) (raised ts)
unfolding raised
raised-Among t [] m = m
raised-Among t (u ∷ ts) (inl e) = inl (ap suc e)
raised-Among t (u ∷ ts) (inr m) = inr (raised-Among t ts m)

lowered-Among : (t : ℕ) (ts : List ℕ) → Among (suc t) (raised ts) → Among t ts
unfolding raised
lowered-Among t [] m = m
lowered-Among t (u ∷ ts) (inl e) = inl (omega (arith, e))
lowered-Among t (u ∷ ts) (inr m) = inr (lowered-Among t ts m)

zero_raised : (ts : List ℕ) → ¬ Among 0 (raised ts)
unfolding raised
zero_raised [] m = m
zero_raised (u ∷ ts) (inl e) = absurd (omega (arith, e))
zero_raised (u ∷ ts) (inr m) = zero_raised ts m

raised-Apart : (ts : List ℕ) → Apart ts → Apart (raised ts)
unfolding raised
raised-Apart [] a = a
raised-Apart (u ∷ ts) (n, a) = ((λ m. n (lowered-Among u ts m)), raised-Apart ts a)

module _ {A : Type 0} where
  unfoldable pub slot : List (Option A) → ℕ → Option A
  slot [] t = none
  slot (o ∷ os) zero = o
  slot (o ∷ os) (suc t) = slot os t

  -- What is in a slot is replaced; a slot that is not there is made.
  unfoldable pub filled : ℕ → Option A → List (Option A) → List (Option A)
  filled zero o [] = o ∷ []
  filled zero o (x ∷ os) = o ∷ os
  filled (suc t) o [] = none ∷ filled t o []
  filled (suc t) o (x ∷ os) = x ∷ filled t o os

  unfoldable pub used : List (Option A) → List ℕ
  unfolding raised
  used [] = []
  used (none ∷ os) = raised (used os)
  used (some a ∷ os) = 0 ∷ raised (used os)

  unfoldable pub free : List (Option A) → ℕ
  free [] = 0
  free (none ∷ os) = 0
  free (some a ∷ os) = suc (free os)

  slot-filled : (t : ℕ) (o : Option A) (os : List (Option A)) → slot (filled t o os) t ≡ o
  unfolding slot filled
  slot-filled zero o [] = refl
  slot-filled zero o (x ∷ os) = refl
  slot-filled (suc t) o [] = slot-filled t o []
  slot-filled (suc t) o (x ∷ os) = slot-filled t o os

  slot-filled_other :
      (t u : ℕ) (o : Option A) (os : List (Option A)) → t ≢ u → slot (filled t o os) u ≡ slot os u
  unfolding slot filled
  slot-filled_other zero zero o os n = absurd (n refl)
  slot-filled_other zero (suc u) o [] n = refl
  slot-filled_other zero (suc u) o (x ∷ os) n = refl
  slot-filled_other (suc t) zero o [] n = refl
  slot-filled_other (suc t) zero o (x ∷ os) n = refl
  slot-filled_other (suc t) (suc u) o [] n = slot-filled_other t u o [] (λ e. n (ap suc e))
  slot-filled_other (suc t) (suc u) o (x ∷ os) n = slot-filled_other t u o os (λ e. n (ap suc e))

  slot-free : (os : List (Option A)) → slot os (free os) ≡ none
  unfolding slot free
  slot-free [] = refl
  slot-free (none ∷ os) = refl
  slot-free (some a ∷ os) = slot-free os

  used-Apart : (os : List (Option A)) → Apart (used os)
  unfolding used
  used-Apart [] = tt
  used-Apart (none ∷ os) = raised-Apart (used os) (used-Apart os)
  used-Apart (some a ∷ os) = (zero_raised (used os), raised-Apart (used os) (used-Apart os))

  used-Among : (t : ℕ) (a : A) (os : List (Option A)) → slot os t ≡ some a → Among t (used os)
  unfolding used slot
  used-Among t a [] e = absurd (ground (arith, e))
  used-Among zero a (none ∷ os) e = absurd (ground (arith, e))
  used-Among zero a (some b ∷ os) e = inl refl
  used-Among (suc t) a (none ∷ os) e = raised-Among t (used os) (used-Among t a os e)
  used-Among (suc t) a (some b ∷ os) e = inr (raised-Among t (used os) (used-Among t a os e))

  used-holds : (t : ℕ) (os : List (Option A)) → Among t (used os) → (a : A) × (slot os t ≡ some a)
  unfolding used slot
  used-holds t [] m = absurd m
  used-holds zero (none ∷ os) m = absurd (zero_raised (used os) m)
  used-holds zero (some a ∷ os) m = (a, refl)
  used-holds (suc t) (none ∷ os) m = used-holds t os (lowered-Among t (used os) m)
  used-holds (suc t) (some a ∷ os) (inl e) = absurd (omega (arith, e))
  used-holds (suc t) (some a ∷ os) (inr m) = used-holds t os (lowered-Among t (used os) m)

-- A slab that gives out its first two slots.
abbrev pub slabs : (A : Type 0) → Slabs A
slabs A = record {
  Slab = List (Option A);
  get = slot;
  put = λ t a x. filled t (some a) x;
  remove = λ t x. filled t none x;
  keys = used;
  count = λ x. length (used x);
  with_capacity = λ n. [];
  vacant_entry = λ x. if ltb (free x) 2 then some (free x) else none;
  insert = λ t a x. filled t (some a) x;
}

module _ (A : Type 0) where
  pub slabs-LawfulSlabs : LawfulSlabs (slabs A)
  unfolding slot
  slabs-LawfulSlabs = record {
    get_with_capacity = λ n t. refl;
    get_put = λ t a b x e. slot-filled t (some a) x;
    get_put_other = λ t u a x n. slot-filled_other t u (some a) x n;
    get_remove = λ t x. slot-filled t none x;
    get_remove_other = λ t u x n. slot-filled_other t u none x n;
    vacant = λ t x e. ground (arith, e, slot-free x);
    get_insert = λ t a x e. slot-filled t (some a) x;
    get_insert_other = λ t u a x n. slot-filled_other t u (some a) x n;
  }

  pub slabs-LawfulKeys : LawfulKeys (slabs A)
  slabs-LawfulKeys = record {
    keys_apart = used-Apart;
    keys_hold = used-holds;
    keys_among = used-Among;
  }
