-- ===== src/Poset/Groups.antt =====
-- `by_actor` of `build` in crates/lichtung-replay/src/poset.rs: the indices of each actor's events.
use lichtung.Prelude.{
  ℕ, zero, suc, String, List, [], ◌∷◌, ◌++◌, true, ◌+◌, ◌<◌, ◌≡◌, ◌⊎◌, inl, inr, ◌↔◌, arith, In,
  Bool-cases, if◌then◌else◌, str_eq, eq_iff, length,
}
use lichtung.Map.{Map, lookup, insert, lookup-insert, IsSorted, insert-IsSorted}
use lichtung.Log.{CausalEvent}
use lichtung.Poset.{group_by_actor, or_empty, event_at}
use mathlib.Core.List.{append_assoc, append-nil}

abbrev pub entry : String → Map (List ℕ) → List ℕ
entry a m = or_empty (lookup a m)

-- The indices of the events of `a`, counted from `i`.
abbrev pub indices : String → List CausalEvent → ℕ → List ℕ
indices a [] i = []
indices a (e ∷ es) i = if str_eq e.actor a then i ∷ indices a es (suc i) else indices a es (suc i)

entry-insert :
    (a b : String) (l : List ℕ) (m : Map (List ℕ))
    → entry a (insert b l m) ≡ (if str_eq b a then l else entry a m)
entry-insert a b l m = ground (arith, lookup-insert b a l m)

entry-group_by_actor :
    (a : String) (es : List CausalEvent) (i : ℕ) (m : Map (List ℕ))
    → entry a (group_by_actor es i m) ≡ entry a m ++ indices a es i
unfolding group_by_actor
entry-group_by_actor a [] i m = rw append-nil
entry-group_by_actor a (e ∷ es) i m = ground (
  arith,
  entry-group_by_actor a es (suc i) (insert e.actor (entry e.actor m ++ i ∷ []) m),
  entry-insert a e.actor (entry e.actor m ++ i ∷ []) m,
  eq_iff e.actor a,
  append_assoc (entry e.actor m) (i ∷ []) (indices a es (suc i)),
)

group_by_actor-IsSorted :
    (es : List CausalEvent) (i : ℕ) (m : Map (List ℕ))
    → IsSorted m
    → IsSorted (group_by_actor es i m)
unfolding group_by_actor
group_by_actor-IsSorted [] i m s = s
group_by_actor-IsSorted (e ∷ es) i m s =
    group_by_actor-IsSorted es (suc i) (insert e.actor (entry e.actor m ++ i ∷ []) m)
      (insert-IsSorted e.actor (entry e.actor m ++ i ∷ []) m s)

-- The groups of a log.
abbrev pub groups : List CausalEvent → Map (List ℕ)
groups es = group_by_actor es 0 []

pub groups-IsSorted : (es : List CausalEvent) → IsSorted (groups es)
groups-IsSorted es = group_by_actor-IsSorted es 0 [] tt

pub entry-groups : (a : String) (es : List CausalEvent) → entry a (groups es) ≡ indices a es 0
unfolding lookup
entry-groups a es = entry-group_by_actor a es 0 []

abbrev pub Found : String → List CausalEvent → ℕ → ℕ → Type 0
Found a es i j = (k : ℕ) × (j ≡ i + k) × (k < length es) × ((event_at es k).actor ≡ a)

Found-later :
    (a : String) (e : CausalEvent) (es : List CausalEvent) (i j : ℕ)
    → Found a es (suc i) j
    → Found a (e ∷ es) i j
Found-later a e es i j (k, at, lt, is) = (suc k, omega arith, omega arith, is)

pub In-indices :
    (a : String) (es : List CausalEvent) (i j : ℕ) → In j (indices a es i) → Found a es i j
In-indices a [] i j m = elim m [ ]
In-indices a (e ∷ es) i j m = elim (Bool-cases (str_eq e.actor a)) [
  | inl same ↦ first same (rw same at m) (λ m'. In-indices a es (suc i) j m')
  | inr other ↦ Found-later a e es i j (In-indices a es (suc i) j (rw other at m))
]
  where
    first :
        str_eq e.actor a ≡ true
        → (j ≡ i) ⊎ In j (indices a es (suc i))
        → (In j (indices a es (suc i)) → Found a es (suc i) j)
        → Found a (e ∷ es) i j
    first same (inl at) ih = (zero, omega arith, omega arith, (eq_iff e.actor a).0 same)
    first same (inr m') ih = Found-later a e es i j (ih m')

indices-In :
    (a : String) (es : List CausalEvent) (i k : ℕ)
    → k < length es
    → (event_at es k).actor ≡ a
    → In (i + k) (indices a es i)
indices-In a [] i k lt is = absurd (omega arith)
indices-In a (e ∷ es) i zero lt is = ground (arith, eq_iff e.actor a)
indices-In a (e ∷ es) i (suc k) lt is = elim (Bool-cases (str_eq e.actor a)) [
  | inl same ↦ rw same (inr (rw (shift i k) at (indices-In a es (suc i) k (omega arith) is)))
  | inr other ↦ rw other (rw (shift i k) at (indices-In a es (suc i) k (omega arith) is))
]
  where
    shift : (n l : ℕ) → suc n + l ≡ n + suc l
    shift n l = omega arith

pub In-group_iff :
    (a : String) (es : List CausalEvent) (j : ℕ)
    → In j (entry a (groups es)) ↔ ((j < length es) × ((event_at es j).actor ≡ a))
In-group_iff a es j = rw entry-groups (
  λ m. let (k, at, lt, is) = In-indices a es 0 j m in (omega arith, rw (j-eq k at) is),
  λ h. rw (zero-plus j) at (indices-In a es 0 j h.0 h.1),
)
  where
    zero-plus : (n : ℕ) → 0 + n ≡ n
    zero-plus n = omega arith

    j-eq : (k : ℕ) → j ≡ 0 + k → j ≡ k
    j-eq k at = omega arith
