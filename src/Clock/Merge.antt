-- ===== src/Clock/Merge.antt =====
-- `set`, `increment` and `merge` of crates/lichtung-clock/src/lib.rs as functions on counters: a write
-- at one actor, a strict advance, and the join of the product order.
use lichtung.Prelude.{
  ℕ, String, [], ◌∷◌, true, ◌+◌, ◌%◌, ◌<◌, ◌≡◌, ◌↔◌, max, arith, str_eq, eq_iff, if◌then◌else◌,
}
use lichtung.Prelude.Words.{u64_mod, u64_max}
use lichtung.Map.{Map, lookup, get_or_zero, lookup-insert, lookup-remove, IsSorted, lookup_before}
use lichtung.Clock.{
  VectorClock, Lamport, get, set, set_entry, increment, merge, merge_entries, tick, update,
  happens_before,
}
use lichtung.Clock.Order.{Leq, happens_before_iff}

pub get_or_zero-set_entry :
    (k j : String) (v : ℕ) (m : Map ℕ)
    → get_or_zero j (set_entry k v m) ≡ (if str_eq k j then v else get_or_zero j m)
unfolding set_entry
get_or_zero-set_entry k j v m = ground (arith, lookup-insert k j v m, lookup-remove k j m)

-- After `set`, `get` returns the value written for that actor and what it did for the others.
pub get-set :
    (c : VectorClock) (k j : String) (v : ℕ)
    → get (set c k v) j ≡ (if str_eq k j then v else get c j)
unfolding set
get-set c k j v = get_or_zero-set_entry k j v c.entries

-- `increment` adds one at its actor, modulo 2^64, and leaves the other counters alone.
pub get-increment :
    (c : VectorClock) (k j : String)
    → get (increment c k) j ≡ (if str_eq k j then (get c k + 1) % u64_mod else get c j)
unfolding increment
get-increment c k j = ground (arith, lookup-insert k j ((get c k + 1) % u64_mod) c.entries)

-- A local event moves the clock strictly forward, while the counter has not reached 2^64 - 1.
pub happens_before-increment :
    (c : VectorClock) (k : String) → get c k < u64_max → happens_before c (increment c k) ≡ true
happens_before-increment c k h = (happens_before_iff c (increment c k)).1 (
  λ j. ground (arith, get-increment c k j, eq_iff k j),
  (k, ground (arith, get-increment c k k, eq_iff k k)),
)

get_or_zero-merge_entries :
    (m other : Map ℕ) (k : String)
    → IsSorted other
    → get_or_zero k (merge_entries m other) ≡ max (get_or_zero k m) (get_or_zero k other)
unfolding merge_entries lookup
get_or_zero-merge_entries m [] k s = omega arith
get_or_zero-merge_entries m ((actor, v) ∷ other) k s =
    let n = max (get_or_zero actor m) v in
    ground (
      arith,
      get_or_zero-merge_entries (set_entry actor n m) other k s.1,
      get_or_zero-set_entry actor k n m,
      lookup_before actor other s.0,
      eq_iff actor k,
    )

-- `merge` takes the larger counter of each actor.
pub get-merge :
    (c other : VectorClock) (k : String)
    → IsSorted other.entries
    → get (merge c other) k ≡ max (get c k) (get other k)
unfolding merge
get-merge c other k s = get_or_zero-merge_entries c.entries other.entries k s

-- `merge` is the least upper bound in the product order: above both clocks, and below exactly the
-- clocks that are above both. The entries of the merged clock are sorted by key.
pub merge_least_upper_bound :
    (c other d : VectorClock)
    → IsSorted other.entries
    → Leq c (merge c other)
      × Leq other (merge c other)
      × ((Leq c d × Leq other d) ↔ Leq (merge c other) d)
merge_least_upper_bound c other d s = (
  λ k. omega (arith, get-merge c other k s),
  λ k. omega (arith, get-merge c other k s),
  (
    λ (p, q) k. omega (arith, get-merge c other k s, p k, q k),
    λ p. (
      λ k. omega (arith, get-merge c other k s, p k),
      λ k. omega (arith, get-merge c other k s, p k),
    ),
  ),
)

-- The receive rule, `merge` and then `increment`: what the receiver knew and what the message carried
-- both happen before the receipt, while the receiver's counter is below 2^64 - 1 in both.
pub receive_happens_after :
    (c other : VectorClock) (id : String)
    → IsSorted other.entries
    → get c id < u64_max
    → get other id < u64_max
    → (happens_before c (increment (merge c other) id) ≡ true)
      × (happens_before other (increment (merge c other) id) ≡ true)
receive_happens_after c other id s h k =
    let after = increment (merge c other) id in
    let at = λ (j : String). get-increment (merge c other) id j in
    let m = λ (j : String). get-merge c other j s in
    (
      (happens_before_iff c after).1 (
        λ j. ground (arith, at j, m j, m id, eq_iff id j),
        (id, ground (arith, at id, m id, eq_iff id id)),
      ),
      (happens_before_iff other after).1 (
        λ j. ground (arith, at j, m j, m id, eq_iff id j),
        (id, ground (arith, at id, m id, eq_iff id id)),
      ),
    )

-- A Lamport stamp grows at a local event, and at a receipt passes both stamps, short of 2^64 - 1.
pub lamport_advances :
    (l other : Lamport)
    → l.value < u64_max
    → other.value < u64_max
    → (l.value < (tick l).1)
      × (l.value < (update l other).1)
      × (other.value < (update l other).1)
      × ((tick l).0.value ≡ (tick l).1)
      × ((update l other).0.value ≡ (update l other).1)
unfolding tick update
lamport_advances l other h k = ground arith
