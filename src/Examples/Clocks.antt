-- ===== src/Examples/Clocks.antt =====
-- Tests of crates/lichtung-clock/src/lib.rs, after the unit tests there.
use lichtung.Prelude.{String, [], ◌∷◌, true, ◌<◌, ◌≡◌, refl, ◌↔◌, arith}
use lichtung.Map.{IsSorted, lookup, insert, remove}
use lichtung.Clock.{
  VectorClock, Lamport, get, new, set, increment, merge, eq, partial_cmp, happens_before,
  concurrent, to_string_map, tick, update,
}
use lichtung.Clock.Order.{Compares, Leq, partial_cmp-Compares}
use lichtung.Clock.Equality.{eq-iff-same_counters}
use lichtung.Clock.Merge.{merge_least_upper_bound, receive_happens_after, lamport_advances}
use lichtung.Clock.Canonical.{IsCanonical, operations-IsCanonical, eq-iff-same_wire}

abbrev clock_a : VectorClock
clock_a = record { entries = ("a", 2) ∷ ("b", 1) ∷ [] }

abbrev clock_b : VectorClock
clock_b = record { entries = ("a", 1) ∷ ("b", 5) ∷ [] }

abbrev clock_c : VectorClock
clock_c = record { entries = ("a", 2) ∷ ("b", 1) ∷ ("c", 4) ∷ [] }

merge_takes_componentwise_max :
    merge clock_a clock_b ≡ record { entries = ("a", 2) ∷ ("b", 5) ∷ [] }
unfolding merge lookup insert remove
merge_takes_componentwise_max = refl

set_zero_removes_entry : set (set new "a" 3) "a" 0 ≡ new
unfolding set remove insert
set_zero_removes_entry = refl

incomparable_clocks : concurrent clock_a clock_b ≡ true
unfolding concurrent partial_cmp lookup
incomparable_clocks = refl

a_before_c : happens_before clock_a clock_c ≡ true
unfolding happens_before partial_cmp lookup
a_before_c = refl

c_before_next : happens_before clock_c (increment clock_c "a") ≡ true
unfolding happens_before partial_cmp increment lookup insert
c_before_next = refl

partial_cmp-Compares_example : Compares clock_a clock_b (partial_cmp clock_a clock_b)
partial_cmp-Compares_example = partial_cmp-Compares clock_a clock_b

eq-iff-same_counters_example :
    (eq clock_a clock_c ≡ true) ↔ ((k : String) → get clock_a k ≡ get clock_c k)
eq-iff-same_counters_example = eq-iff-same_counters clock_a clock_c

clock_b-IsSorted : IsSorted clock_b.entries
clock_b-IsSorted = ((refl, tt), (tt, tt))

merge_least_upper_bound_example :
    Leq clock_a (merge clock_a clock_b)
    × Leq clock_b (merge clock_a clock_b)
    × ((Leq clock_a clock_c × Leq clock_b clock_c) ↔ Leq (merge clock_a clock_b) clock_c)
merge_least_upper_bound_example = merge_least_upper_bound clock_a clock_b clock_c clock_b-IsSorted

receive_happens_after_example :
    (happens_before clock_a (increment (merge clock_a clock_b) "a") ≡ true)
    × (happens_before clock_b (increment (merge clock_a clock_b) "a") ≡ true)
unfolding lookup
receive_happens_after_example =
    receive_happens_after clock_a clock_b "a" clock_b-IsSorted (omega arith) (omega arith)

abbrev three : Lamport
three = record { value = 3 }

abbrev nine : Lamport
nine = record { value = 9 }

lamport_advances_example :
    (3 < (tick three).1)
    × (3 < (update three nine).1)
    × (9 < (update three nine).1)
    × ((tick three).0.value ≡ (tick three).1)
    × ((update three nine).0.value ≡ (update three nine).1)
lamport_advances_example = lamport_advances three nine (omega arith) (omega arith)

clock_a-IsCanonical : IsCanonical clock_a
unfolding lookup
clock_a-IsCanonical = record { sorted = ((refl, tt), (tt, tt)); no_zero = λ k h. ground arith }

operations-IsCanonical_example :
    IsCanonical new
    × IsCanonical (set clock_a "a" 0)
    × IsCanonical (merge clock_a clock_b)
    × IsCanonical (increment clock_a "a")
unfolding lookup
operations-IsCanonical_example =
    operations-IsCanonical clock_a clock_b "a" 0 clock_a-IsCanonical (omega arith)

eq-iff-same_wire_example :
    (eq clock_a clock_a ≡ true) ↔ (to_string_map clock_a ≡ to_string_map clock_a)
eq-iff-same_wire_example = eq-iff-same_wire clock_a clock_a clock_a-IsCanonical clock_a-IsCanonical
