-- ===== src/Prelude/Keys.antt =====
-- The order on `String` that Rust's `Ord for str` gives: byte by byte, which for UTF-8 is code point
-- by code point. It is strict, total and transitive.
use Prim.Native.Nat.{ℕ, compare as compare_ℕ, Ordering}
use Prim.Native.Char.{code}
use Prim.Native.String.{String, [], ◌∷◌, compare, then as and_then}
use Prim.Native.String.compare
use mathlib.Core.Path.{◌≡◌, refl}
use native.Mathlib.Omega.{arith}
use text.Mathlib.TextPositions.{compare_refl as compare_str_refl}

abbrev pub compare_str : String → String → Ordering
compare_str = compare

abbrev pub Before : String → String → Type 0
Before s t = compare s t ≡ Ordering.lt

abbrev pub swap : Ordering → Ordering
swap Ordering.lt = Ordering.gt
swap Ordering.eq = Ordering.eq
swap Ordering.gt = Ordering.lt

pub compare-swap : (s t : String) → compare t s ≡ swap (compare s t)
compare-swap [] [] = rw (compare.nil-nil) refl
compare-swap [] (d ∷ t) = rw (compare.nil-cons, compare.cons-nil) refl
compare-swap (c ∷ s) [] = rw (compare.cons-nil, compare.nil-cons) refl
compare-swap (c ∷ s) (d ∷ t) = simp compare.cons-cons (ground (arith, compare-swap s t))

pub Before-irrefl : (s : String) → ¬ Before s s
Before-irrefl s h = cc (compare_str_refl s, h)

-- The heads decide, or are equal and the tails decide.
Before-cons :
    (c d e : ℕ) (p q r : Ordering)
    → (p ≡ Ordering.lt → q ≡ Ordering.lt → r ≡ Ordering.lt)
    → and_then (compare_ℕ c d) p ≡ Ordering.lt
    → and_then (compare_ℕ d e) q ≡ Ordering.lt
    → and_then (compare_ℕ c e) r ≡ Ordering.lt
Before-cons c d e p q r tails h k = ground arith

pub Before-trans : (s t u : String) → Before s t → Before t u → Before s u
Before-trans [] [] [] h k = k
Before-trans (c ∷ s) [] [] h k = absurd (cc (compare.cons-nil c s, h))
Before-trans [] [] (e ∷ u) h k = k
Before-trans (c ∷ s) [] (e ∷ u) h k = absurd (cc (compare.cons-nil c s, h))
Before-trans s (d ∷ t) [] h k = absurd (cc (compare.cons-nil d t, k))
Before-trans [] (d ∷ t) (e ∷ u) h k = compare.nil-cons e u
Before-trans (c ∷ s) (d ∷ t) (e ∷ u) h k = simp compare.cons-cons (
    Before-cons (code c) (code d) (code e) (compare s t) (compare t u) (compare s u)
      (Before-trans s t u) (simp compare.cons-cons at h) (simp compare.cons-cons at k))
