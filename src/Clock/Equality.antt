-- ===== src/Clock/Equality.antt =====
-- `PartialEq::eq` of crates/lichtung-clock/src/lib.rs, and how it, `happens_before` and `concurrent`
-- divide the pairs of clocks.
use lichtung.Prelude.{
  String, Ordering, List, [], ◌∷◌, Option, none, some, Bool, true, ◌≡◌, ◌≢◌, refl, ◌⊎◌, inl, inr,
  ◌||◌, not, arith, In, all, ◌↔◌, ◌==◌, ==_iff, eq_iff,
}
use lichtung.Map.{Map, lookup, insert, In-keys, lookup-insert}
use lichtung.Clock.{VectorClock, get, eq, collect_keys, partial_cmp, happens_before, concurrent}
use lichtung.Clock.Order.{
  Compares, partial_cmp-Compares, Compares-partial_cmp, all_keys, same_at_keys,
}

all-In :
    (p : String → Bool) (xs : List String) → all p xs ≡ true → (k : String) → In k xs → p k ≡ true
all-In p [] h k m = elim m [ ]
all-In p (x ∷ xs) h k (inl e) = rw e (ground arith)
all-In p (x ∷ xs) h k (inr m) = all-In p xs (ground arith) k m

all_of_pointwise :
    (p : String → Bool) (xs : List String) → ((k : String) → p k ≡ true) → all p xs ≡ true
all_of_pointwise p [] h = refl
all_of_pointwise p (x ∷ xs) h = rw (h x) (all_of_pointwise p xs h)

-- Collected keys stay, and every listed key is collected.
collect_keys-ne-none :
    (k : String) (ks : List String) (s : Map (Unit {0}))
    → In k ks ⊎ (lookup k s ≢ none)
    → lookup k (collect_keys ks s) ≢ none
unfolding collect_keys
collect_keys-ne-none k [] s (inl m) = elim m [ ]
collect_keys-ne-none k [] s (inr h) = h
collect_keys-ne-none k (j ∷ ks) s (inl (inl e)) =
    collect_keys-ne-none k ks (insert j tt s)
      (inr (ground (arith, lookup-insert j k tt s, eq_iff j k)))
collect_keys-ne-none k (j ∷ ks) s (inl (inr m)) = collect_keys-ne-none k ks (insert j tt s) (inl m)
collect_keys-ne-none k (j ∷ ks) s (inr h) =
    collect_keys-ne-none k ks (insert j tt s)
      (inr (ground (arith, lookup-insert j k tt s, eq_iff j k)))

-- `==` holds of two clocks exactly when every actor has the same counter in both, an absent actor
-- counting 0.
pub eq-iff-same_counters :
    (a b : VectorClock) → (eq a b ≡ true) ↔ ((k : String) → get a k ≡ get b k)
unfolding eq
eq-iff-same_counters a b = (
  λ h.
      let at = λ (k : String) (m : In k (all_keys a b)). (==_iff (get a k) (get b k)).0 (
        all-In (λ j. get a j == get b j) _ h k
          (In-keys k _ (collect_keys-ne-none k (all_keys a b) [] (inl m)))) in
      λ k. same_at_keys a b k (at k),
  λ h. all_of_pointwise (λ k. get a k == get b k) _ (λ k. (==_iff _ _).1 (h k)),
)

abbrev reverse : Option Ordering → Option Ordering
reverse none = none
reverse (some Ordering.lt) = some Ordering.gt
reverse (some Ordering.eq) = some Ordering.eq
reverse (some Ordering.gt) = some Ordering.lt

reverse-Compares :
    (a b : VectorClock) (r : Option Ordering) → Compares a b r → Compares b a (reverse r)
reverse-Compares a b none h = (h.1, h.0)
reverse-Compares a b (some Ordering.lt) h = h
reverse-Compares a b (some Ordering.eq) h = (h.1, h.0)
reverse-Compares a b (some Ordering.gt) h = h

-- Comparing the other way round turns the answer round.
pub partial_cmp_dual : (a b : VectorClock) → partial_cmp b a ≡ reverse (partial_cmp a b)
partial_cmp_dual a b =
    Compares-partial_cmp b a _ (reverse-Compares a b _ (partial_cmp-Compares a b))

-- The two comparisons of the type agree: `==` holds exactly when `partial_cmp` answers `Equal`.
pub eq-iff-Equal : (a b : VectorClock) → (eq a b ≡ true) ↔ (partial_cmp a b ≡ some Ordering.eq)
eq-iff-Equal a b = (
  λ h.
      let same = (eq-iff-same_counters a b).0 h in
      Compares-partial_cmp a b (some Ordering.eq)
        (λ k. omega (arith, same k), λ k. omega (arith, same k)),
  λ h.
      let c : Compares a b (some Ordering.eq) = rw h at (partial_cmp-Compares a b) in
      (eq-iff-same_counters a b).1 (λ k. omega (arith, c.0 k, c.1 k)),
)

-- Two clocks are concurrent exactly when they are not equal and neither happens before the other.
concurrent-eq-incomparable :
    (a b : VectorClock) → concurrent a b ≡ not (happens_before a b || happens_before b a || eq a b)
unfolding concurrent happens_before
concurrent-eq-incomparable a b = ground (arith, partial_cmp_dual a b, eq-iff-Equal a b)
