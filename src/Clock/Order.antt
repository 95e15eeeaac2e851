-- ===== src/Clock/Order.antt =====
-- `partial_cmp` and `==` of crates/lichtung-clock/src/lib.rs against the product order on counters,
-- in which an absent actor counts 0.
use lichtung.Prelude.{
  String, Ordering, List, [], ◌∷◌, ◌++◌, Option, none, some, Bool, true, false, ◌<◌, ◌≤◌, ◌≡◌, refl,
  inl, inr, ◌||◌, ◌&&◌, not, arith, ltb, In, In-append, Bool-cases, dec_lt, ◌↔◌,
}
use lichtung.Map.{keys, In-keys}
use lichtung.Clock.{
  VectorClock, get, compare_keys, partial_cmp, verdict, happens_before, concurrent,
}

-- The specification: the product order, and the four ways in which two clocks stand to each other.
abbrev pub Leq : VectorClock → VectorClock → Type 0
Leq a b = (k : String) → get a k ≤ get b k

abbrev pub Exceeded : VectorClock → VectorClock → Type 0
Exceeded a b = (k : String) × (get a k < get b k)

abbrev pub Compares : VectorClock → VectorClock → Option Ordering → Type 0
Compares a b (some Ordering.lt) = Leq a b × Exceeded a b
Compares a b (some Ordering.eq) = Leq a b × Leq b a
Compares a b (some Ordering.gt) = Leq b a × Exceeded b a
Compares a b none = Exceeded a b × Exceeded b a

-- Some key of the list has a smaller counter in `a`.
unfoldable pub any_less : VectorClock → VectorClock → List String → Bool
any_less a b [] = false
any_less a b (k ∷ ks) = ltb (get a k) (get b k) || any_less a b ks

any_less_found : (a b : VectorClock) (ks : List String) → any_less a b ks ≡ true → Exceeded a b
unfolding any_less
any_less_found a b [] h = absurd (ground arith)
any_less_found a b (k ∷ ks) h = elim (dec_lt (get a k) (get b k)) [
  | yes less ↦ (k, less)
  | no more ↦ any_less_found a b ks (ground arith)
]

any_less_none :
    (a b : VectorClock) (ks : List String)
    → any_less a b ks ≡ false
    → (k : String) → In k ks
    → get b k ≤ get a k
unfolding any_less
any_less_none a b (j ∷ ks) h k (inl e) = rw e (ground arith)
any_less_none a b (j ∷ ks) h k (inr m) = any_less_none a b ks (ground arith) k m
any_less_none a b [] h k m = elim m [ ]

abbrev pub all_keys : VectorClock → VectorClock → List String
all_keys a b = keys a.entries ++ keys b.entries

-- A counter that is above 0 belongs to a key of its clock.
pub counter-In : (c : VectorClock) (k : String) → 0 < get c k → In k (keys c.entries)
counter-In c k h = In-keys k c.entries (ground arith)

outside_all_keys-Leq :
    (a b : VectorClock) → ((k : String) → In k (all_keys a b) → get b k ≤ get a k) → Leq b a
outside_all_keys-Leq a b h k = elim (dec_lt (get a k) (get b k)) [
  | yes less ↦
      h k ((In-append k (keys a.entries) (keys b.entries)).1 (inr (counter-In b k (omega arith))))
  | no more ↦ omega arith
]

-- Counters can differ only at the keys of the two maps.
pub same_at_keys :
    (a b : VectorClock) (k : String) → (In k (all_keys a b) → get a k ≡ get b k) → get a k ≡ get b k
same_at_keys a b k h = elim (dec_lt 0 (get a k)) [
  | yes p ↦ h ((In-append k (keys a.entries) (keys b.entries)).1 (inl (counter-In a k p)))
  | no p ↦ elim (dec_lt 0 (get b k)) [
    | yes q ↦ h ((In-append k (keys a.entries) (keys b.entries)).1 (inr (counter-In b k q)))
    | no q ↦ omega arith
  ]
]

any_less_none-Leq : (a b : VectorClock) → any_less a b (all_keys a b) ≡ false → Leq b a
any_less_none-Leq a b h = outside_all_keys-Leq a b (any_less_none a b (all_keys a b) h)

any_less_none-Leq_right : (a b : VectorClock) → any_less b a (all_keys a b) ≡ false → Leq a b
any_less_none-Leq_right a b h k = elim (dec_lt (get b k) (get a k)) [
  | yes less ↦
      any_less_none b a (all_keys a b) h k
        ((In-append k (keys a.entries) (keys b.entries)).1 (inl (counter-In a k (omega arith))))
  | no more ↦ omega arith
]

-- The loop of `partial_cmp` gives the verdict on the two flags that a full pass finds: the early
-- return changes nothing.
compare_keys_lem :
    (a b : VectorClock) (ks : List String) (less greater : Bool)
    → compare_keys a b ks less greater
      ≡ verdict (less || any_less a b ks) (greater || any_less b a ks)
unfolding compare_keys any_less
compare_keys_lem a b [] less greater = ground arith
compare_keys_lem a b (k ∷ ks) less greater = ground (
  arith,
  compare_keys_lem a b ks true greater,
  compare_keys_lem a b ks less true,
  compare_keys_lem a b ks less greater,
)

verdict-Compares :
    (a b : VectorClock) (less greater : Bool)
    → any_less a b (all_keys a b) ≡ less
    → any_less b a (all_keys a b) ≡ greater
    → Compares a b (verdict less greater)
verdict-Compares a b true true p q = (any_less_found a b _ p, any_less_found b a _ q)
verdict-Compares a b true false p q = (any_less_none-Leq_right a b q, any_less_found a b _ p)
verdict-Compares a b false true p q = (any_less_none-Leq a b p, any_less_found b a _ q)
verdict-Compares a b false false p q = (any_less_none-Leq_right a b q, any_less_none-Leq a b p)

-- `partial_cmp` decides the product order: it answers `Less` for clocks with every counter at most,
-- and some counter below, the other's; `Equal` for clocks with the same counters; `Greater` for the
-- converse of `Less`; and nothing where each clock is below the other in some counter.
pub partial_cmp-Compares : (a b : VectorClock) → Compares a b (partial_cmp a b)
unfolding partial_cmp
partial_cmp-Compares a b = rw compare_keys_lem (verdict-Compares a b _ _ refl refl)

Compares-unique :
    (a b : VectorClock) (r s : Option Ordering) → Compares a b r → Compares a b s → r ≡ s
Compares-unique a b none none h k = refl
Compares-unique a b none (some Ordering.lt) h k = absurd (omega (arith, h.1.1, k.0 h.1.0))
Compares-unique a b none (some Ordering.eq) h k = absurd (omega (arith, h.1.1, k.0 h.1.0))
Compares-unique a b none (some Ordering.gt) h k = absurd (omega (arith, h.0.1, k.0 h.0.0))
Compares-unique a b (some Ordering.lt) none h k = absurd (omega (arith, k.1.1, h.0 k.1.0))
Compares-unique a b (some Ordering.lt) (some Ordering.lt) h k = refl
Compares-unique a b (some Ordering.lt) (some Ordering.eq) h k =
    absurd (omega (arith, h.1.1, k.1 h.1.0))
Compares-unique a b (some Ordering.lt) (some Ordering.gt) h k =
    absurd (omega (arith, h.1.1, k.0 h.1.0))
Compares-unique a b (some Ordering.eq) none h k = absurd (omega (arith, k.1.1, h.0 k.1.0))
Compares-unique a b (some Ordering.eq) (some Ordering.lt) h k =
    absurd (omega (arith, k.1.1, h.1 k.1.0))
Compares-unique a b (some Ordering.eq) (some Ordering.eq) h k = refl
Compares-unique a b (some Ordering.eq) (some Ordering.gt) h k =
    absurd (omega (arith, k.1.1, h.0 k.1.0))
Compares-unique a b (some Ordering.gt) none h k = absurd (omega (arith, k.0.1, h.0 k.0.0))
Compares-unique a b (some Ordering.gt) (some Ordering.lt) h k =
    absurd (omega (arith, k.1.1, h.0 k.1.0))
Compares-unique a b (some Ordering.gt) (some Ordering.eq) h k =
    absurd (omega (arith, h.1.1, k.0 h.1.0))
Compares-unique a b (some Ordering.gt) (some Ordering.gt) h k = refl

-- At most one answer fits, so the answer is known once one is shown to fit.
pub Compares-partial_cmp :
    (a b : VectorClock) (r : Option Ordering) → Compares a b r → partial_cmp a b ≡ r
Compares-partial_cmp a b r h = Compares-unique a b (partial_cmp a b) r (partial_cmp-Compares a b) h

abbrev is_less : Option Ordering → Bool
is_less r = elim r [ none ↦ false | some o ↦ elim o [ Ordering.lt ↦ true | _ ↦ false ] ]

answer_lt : (r : Option Ordering) → is_less r ≡ true → r ≡ some Ordering.lt
answer_lt r h = ground arith

abbrev is_absent : Option Ordering → Bool
is_absent r = elim r [ none ↦ true | some o ↦ false ]

answer_none : (r : Option Ordering) → is_absent r ≡ true → r ≡ none
answer_none r h = ground arith

pub happens_before_iff :
    (a b : VectorClock) → (happens_before a b ≡ true) ↔ (Leq a b × Exceeded a b)
unfolding happens_before
happens_before_iff a b = (
  λ h. rw (answer_lt (partial_cmp a b) h) at (partial_cmp-Compares a b),
  λ h. rw (Compares-partial_cmp a b (some Ordering.lt) h, happens_before),
)

pub concurrent_iff : (a b : VectorClock) → (concurrent a b ≡ true) ↔ (Exceeded a b × Exceeded b a)
unfolding concurrent
concurrent_iff a b = (
  λ h. rw (answer_none (partial_cmp a b) h) at (partial_cmp-Compares a b),
  λ h. rw (Compares-partial_cmp a b none h, concurrent),
)

-- Happens-before is a strict partial order.
pub happens_before_irrefl : (a : VectorClock) → happens_before a a ≡ false
happens_before_irrefl a = elim (Bool-cases (happens_before a a)) [
  | inl h ↦ let (k, less) = ((happens_before_iff a a).0 h).1 in absurd (omega arith)
  | inr h ↦ h
]

pub happens_before_trans :
    (a b c : VectorClock)
    → happens_before a b ≡ true
    → happens_before b c ≡ true
    → happens_before a c ≡ true
happens_before_trans a b c h k =
    let (p, less) = (happens_before_iff a b).0 h in
    let (q, _) = (happens_before_iff b c).0 k in
    (happens_before_iff a c).1
      (λ j. omega (arith, p j, q j), (less.0, omega (arith, less.1, q less.0)))

-- `happens_before` as a full pass over the keys.
pub happens_before-any_less :
    (a b : VectorClock)
    → happens_before a b ≡ any_less a b (all_keys a b) && not (any_less b a (all_keys a b))
unfolding happens_before partial_cmp
happens_before-any_less a b = ground (arith, compare_keys_lem a b (all_keys a b) false false)
