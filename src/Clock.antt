-- ===== src/Clock.antt =====
-- crates/lichtung-clock/src/lib.rs: Lamport stamps and vector clocks. An `ActorId` is its string;
-- `u64` additions wrap as in a release build.
pub mod Order
pub mod Equality
pub mod Merge
pub mod Canonical
use lichtung.Prelude.{
  ℕ, String, Ordering, List, [], ◌∷◌, ◌++◌, Option, none, some, Bool, true, false, ◌+◌, ◌%◌, max,
  all, not, ◌&&◌, ltb, ◌==◌, if◌then◌else◌,
}
use lichtung.Prelude.Words.{u64_mod}
use lichtung.Map.{Map, lookup, get_or_zero, insert, remove, keys}

pub record Lamport : Type 0 where
  pub value : ℕ

abbrev pub start : Lamport
start = record { value = 0 }

-- A local event: advance, and return the new stamp.
unfoldable pub tick : Lamport → Lamport × ℕ
tick l = let n = (l.value + 1) % u64_mod in (record { value = n }, n)

-- The receipt of a message stamped `other`.
unfoldable pub update : Lamport → Lamport → Lamport × ℕ
update l other = let n = (max l.value other.value + 1) % u64_mod in (record { value = n }, n)

-- An `ActorId` is the text that `as_str` and `Display` give.
abbrev pub ActorId : Type 0
ActorId = String

pub record VectorClock : Type 0 where
  pub entries : Map ℕ

abbrev pub new : VectorClock
new = record { entries = [] }

abbrev pub get : VectorClock → ActorId → ℕ
get c actor = get_or_zero actor c.entries

-- What `set` and the body of `merge` do: a zero is not stored.
unfoldable pub set_entry : String → ℕ → Map ℕ → Map ℕ
set_entry actor value m = if value == 0 then remove actor m else insert actor value m

unfoldable pub set : VectorClock → ActorId → ℕ → VectorClock
unfolding set_entry
set c actor value = record { entries = set_entry actor value c.entries }

-- `*entry(actor).or_insert(0) += 1`
unfoldable pub increment : VectorClock → ActorId → VectorClock
increment c actor = record { entries = insert actor ((get c actor + 1) % u64_mod) c.entries }

-- The loop of `merge` over the entries of the other clock.
unfoldable pub merge_entries : Map ℕ → Map ℕ → Map ℕ
unfolding set_entry
merge_entries m [] = m
merge_entries m ((actor, v) ∷ other) =
    merge_entries (set_entry actor (max (get_or_zero actor m) v) m) other

unfoldable pub merge : VectorClock → VectorClock → VectorClock
unfolding merge_entries
merge c other = record { entries = merge_entries c.entries other.entries }

-- The keys of both maps, as a set: `keys().chain(keys()).collect::<BTreeSet<_>>()`.
collect_keys : List String → Map (Unit {0}) → Map (Unit {0})
collect_keys [] s = s
collect_keys (k ∷ ks) s = collect_keys ks (insert k tt s)

-- `PartialEq::eq`
unfoldable pub eq : VectorClock → VectorClock → Bool
unfolding collect_keys
eq c other =
    all (λ k. get c k == get other k)
      (keys (collect_keys (keys c.entries ++ keys other.entries) []))

-- The match on the two flags that ends `partial_cmp`.
abbrev pub verdict : Bool → Bool → Option Ordering
verdict false false = some Ordering.eq
verdict true false = some Ordering.lt
verdict false true = some Ordering.gt
verdict true true = none

-- The loop of `partial_cmp`, with its early return.
compare_keys : VectorClock → VectorClock → List String → Bool → Bool → Option Ordering
compare_keys c other [] saw_less saw_greater = verdict saw_less saw_greater
compare_keys c other (key ∷ ks) saw_less saw_greater =
    let a = get c key in
    let b = get other key in
    let less = if ltb a b then true else saw_less in
    let greater = if ltb a b then saw_greater else if ltb b a then true else saw_greater in
    let rest = compare_keys c other ks less greater in if less && greater then none else rest

unfoldable pub partial_cmp : VectorClock → VectorClock → Option Ordering
unfolding compare_keys
partial_cmp c other = compare_keys c other (keys c.entries ++ keys other.entries) false false

unfoldable pub happens_before : VectorClock → VectorClock → Bool
happens_before c other = elim (partial_cmp c other) [
  | none ↦ false
  | some o ↦ elim o [ Ordering.lt ↦ true | _ ↦ false ]
]

unfoldable pub concurrent : VectorClock → VectorClock → Bool
concurrent c other = elim (partial_cmp c other) [ none ↦ true | some o ↦ false ]

-- `iter().map(..).collect()`: each entry is inserted into a fresh map.
collect_entries : Map ℕ → Map ℕ → Map ℕ
collect_entries [] m = m
collect_entries ((k, v) ∷ rest) m = collect_entries rest (insert k v m)

unfoldable pub to_string_map : VectorClock → Map ℕ
unfolding collect_entries
to_string_map c = collect_entries c.entries []
