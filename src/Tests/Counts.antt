-- ===== src/Tests/Counts.antt =====
-- The slab in a list counts its slots in use.
use xnet_socket.Base.{
  ℕ, zero, suc, ◌≡◌, refl, ap, ◌∙◌, sym, Option, none, some, List, [], ◌∷◌, arith, length,
}
use xnet_socket.Loop.Ledger.{LawfulCounts}
use xnet_socket.Tests.Slots.{slot, filled, used, raised, slabs}

length-raised : (ts : List ℕ) → length (raised ts) ≡ length ts
unfolding raised
length-raised [] = refl
length-raised (t ∷ ts) = ap suc (length-raised ts)

module _ {A : Type 0} where
  count-none : (os : List (Option A)) → length (used (none ∷ os)) ≡ length (used os)
  unfolding used
  count-none os = length-raised (used os)

  count-some : (a : A) (os : List (Option A)) → length (used (some a ∷ os)) ≡ suc (length (used os))
  unfolding used
  count-some a os = ap suc (length-raised (used os))

  put_same :
      (t : ℕ) (a b : A) (os : List (Option A))
      → slot os t ≡ some b
      → length (used (filled t (some a) os)) ≡ length (used os)
  unfolding slot filled
  put_same t a b [] e = absurd (ground (arith, e))
  put_same zero a b (none ∷ os) e = absurd (ground (arith, e))
  put_same zero a b (some c ∷ os) e = count-some a os ∙ sym (count-some c os)
  put_same (suc t) a b (none ∷ os) e =
      ground (arith, count-none os, count-none (filled t (some a) os), put_same t a b os e)
  put_same (suc t) a b (some c ∷ os) e =
      ground (arith, count-some c os, count-some c (filled t (some a) os), put_same t a b os e)

  count-filled_end : (t : ℕ) (a : A) → length (used (filled t (some a) [])) ≡ 1
  unfolding filled used
  count-filled_end zero a = count-some a []
  count-filled_end (suc t) a = count-none (filled t (some a) []) ∙ count-filled_end t a

  insert_more :
      (t : ℕ) (a : A) (os : List (Option A))
      → slot os t ≡ none
      → length (used (filled t (some a) os)) ≡ suc (length (used os))
  unfolding slot filled used
  insert_more t a [] e = count-filled_end t a
  insert_more zero a (none ∷ os) e = ground (arith, count-some a os, count-none os)
  insert_more zero a (some c ∷ os) e = absurd (ground (arith, e))
  insert_more (suc t) a (none ∷ os) e =
      ground (arith, count-none os, count-none (filled t (some a) os), insert_more t a os e)
  insert_more (suc t) a (some c ∷ os) e =
      ground (arith, count-some c os, count-some c (filled t (some a) os), insert_more t a os e)

  remove_fewer :
      (t : ℕ) (a : A) (os : List (Option A))
      → slot os t ≡ some a
      → suc (length (used (filled t none os))) ≡ length (used os)
  unfolding slot filled
  remove_fewer t a [] e = absurd (ground (arith, e))
  remove_fewer zero a (none ∷ os) e = absurd (ground (arith, e))
  remove_fewer zero a (some c ∷ os) e = ground (arith, count-some c os, count-none os)
  remove_fewer (suc t) a (none ∷ os) e =
      ground (arith, count-none os, count-none (filled t none os), remove_fewer t a os e)
  remove_fewer (suc t) a (some c ∷ os) e =
      ground (arith, count-some c os, count-some c (filled t none os), remove_fewer t a os e)

pub slabs-LawfulCounts : (A : Type 0) → LawfulCounts (slabs A)
unfolding used
slabs-LawfulCounts A = record {
  count_with_capacity = λ n. refl;
  count_put = put_same;
  count_insert = insert_more;
  count_remove = remove_fewer;
}
