-- ===== src/Clock/Canonical.antt =====
-- The representation invariant of `VectorClock`: ascending keys and no stored zero. For such clocks
-- `==` is equality of the wire maps.
use lichtung.Prelude.{
  ℕ, String, [], ◌∷◌, none, some, true, ◌+◌, ◌%◌, ◌<◌, ◌≡◌, ◌≢◌, refl, max, arith, eq_iff, ◌↔◌, ap,
}
use lichtung.Prelude.Words.{u64_mod, u64_max}
use lichtung.Map.{
  Map, lookup, get_or_zero, insert, lookup-insert, lookup-remove, IsSorted, insert-IsSorted,
  remove-IsSorted, IsSorted-ext, lookup_before,
}
use lichtung.Clock.{
  VectorClock, new, get, set, set_entry, increment, merge, merge_entries, eq, to_string_map,
  collect_entries,
}
use lichtung.Clock.Equality.{eq-iff-same_counters}

-- No key holds a zero.
abbrev pub NoZero : Map ℕ → Type 0
NoZero m = (k : String) → lookup k m ≢ some 0

pub record IsCanonical (c : VectorClock) : Type 0 where
  pub sorted : IsSorted c.entries
  pub no_zero : NoZero c.entries

pub new-IsCanonical : IsCanonical new
unfolding lookup
new-IsCanonical = record { sorted = tt; no_zero = λ k h. cc }

set_entry-IsSorted : (k : String) (v : ℕ) (m : Map ℕ) → IsSorted m → IsSorted (set_entry k v m)
unfolding set_entry
set_entry-IsSorted k v m s = ground (arith, insert-IsSorted k v m s, remove-IsSorted k m s)

set_entry-NoZero : (k : String) (v : ℕ) (m : Map ℕ) → NoZero m → NoZero (set_entry k v m)
unfolding set_entry
set_entry-NoZero k v m z j h = ground (arith, lookup-insert k j v m, lookup-remove k j m, z j)

pub merge_entries-IsSorted : (m other : Map ℕ) → IsSorted m → IsSorted (merge_entries m other)
unfolding merge_entries
merge_entries-IsSorted m [] s = s
merge_entries-IsSorted m ((k, v) ∷ other) s =
    merge_entries-IsSorted (set_entry k (max (get_or_zero k m) v) m) other
      (set_entry-IsSorted k (max (get_or_zero k m) v) m s)

merge_entries-NoZero : (m other : Map ℕ) → NoZero m → NoZero (merge_entries m other)
unfolding merge_entries
merge_entries-NoZero m [] z = z
merge_entries-NoZero m ((k, v) ∷ other) z =
    merge_entries-NoZero (set_entry k (max (get_or_zero k m) v) m) other
      (set_entry-NoZero k (max (get_or_zero k m) v) m z)

pub set-IsCanonical :
    (c : VectorClock) (k : String) (v : ℕ) → IsCanonical c → IsCanonical (set c k v)
unfolding set
set-IsCanonical c k v i = record {
  sorted = set_entry-IsSorted k v c.entries i.sorted;
  no_zero = set_entry-NoZero k v c.entries i.no_zero;
}

pub merge-IsCanonical : (c other : VectorClock) → IsCanonical c → IsCanonical (merge c other)
unfolding merge
merge-IsCanonical c other i = record {
  sorted = merge_entries-IsSorted c.entries other.entries i.sorted;
  no_zero = merge_entries-NoZero c.entries other.entries i.no_zero;
}

pub increment-IsCanonical :
    (c : VectorClock) (k : String) → get c k < u64_max → IsCanonical c → IsCanonical (increment c k)
unfolding increment
increment-IsCanonical c k h i = record {
  sorted = insert-IsSorted k ((get c k + 1) % u64_mod) c.entries i.sorted;
  no_zero = λ j. ground (arith, lookup-insert k j ((get c k + 1) % u64_mod) c.entries, i.no_zero j);
}

-- The operations keep the representation canonical: `new`, `set`, `merge` with any clock, and
-- `increment` short of the counter's wrap-around.
pub operations-IsCanonical :
    (c other : VectorClock) (k : String) (v : ℕ)
    → IsCanonical c
    → get c k < u64_max
    → IsCanonical new
      × IsCanonical (set c k v)
      × IsCanonical (merge c other)
      × IsCanonical (increment c k)
operations-IsCanonical c other k v i h = (
  new-IsCanonical,
  set-IsCanonical c k v i,
  merge-IsCanonical c other i,
  increment-IsCanonical c k h i,
)

collect_entries-IsSorted : (es m : Map ℕ) → IsSorted m → IsSorted (collect_entries es m)
unfolding collect_entries
collect_entries-IsSorted [] m s = s
collect_entries-IsSorted ((k, v) ∷ es) m s =
    collect_entries-IsSorted es (insert k v m) (insert-IsSorted k v m s)

lookup-collect_entries :
    (es m : Map ℕ) (k : String)
    → IsSorted es
    → lookup k (collect_entries es m) ≡ elim (lookup k es) [ none ↦ lookup k m | some v ↦ some v ]
unfolding collect_entries lookup
lookup-collect_entries [] m k s = refl
lookup-collect_entries ((j, v) ∷ es) m k s = ground (
  arith,
  lookup-collect_entries es (insert j v m) k s.1,
  lookup-insert j k v m,
  lookup_before j es s.0,
  eq_iff j k,
)

-- The wire form of a clock holds just its entries.
pub to_string_map-entries : (c : VectorClock) → IsSorted c.entries → to_string_map c ≡ c.entries
unfolding to_string_map lookup
to_string_map-entries c s =
    IsSorted-ext (collect_entries c.entries []) c.entries (collect_entries-IsSorted c.entries [] tt)
      s λ k. ground (arith, lookup-collect_entries c.entries [] k s)

counter-lookup :
    (m n : Map ℕ) (k : String)
    → lookup k m ≢ some 0
    → lookup k n ≢ some 0
    → get_or_zero k m ≡ get_or_zero k n
    → lookup k m ≡ lookup k n
counter-lookup m n k z w h = ground arith

-- Canonical clocks are `==` exactly when their wire maps are the same map.
pub eq-iff-same_wire :
    (a b : VectorClock)
    → IsCanonical a
    → IsCanonical b
    → (eq a b ≡ true) ↔ (to_string_map a ≡ to_string_map b)
eq-iff-same_wire a b p q =
    rw (to_string_map-entries a p.sorted, to_string_map-entries b q.sorted)
      (
        λ h. IsSorted-ext a.entries b.entries p.sorted q.sorted (λ k.
            counter-lookup a.entries b.entries k (p.no_zero k) (q.no_zero k)
              ((eq-iff-same_counters a b).0 h k)),
        λ e. (eq-iff-same_counters a b).1 (λ k. ap (get_or_zero k) e),
      )
