-- ===== src/Extension.antt =====
-- crates/lichtung-replay/src/extension.rs: `linearize`, Kahn's algorithm.
pub mod Degrees
mod Relax
mod Invariant
mod Drain
pub mod Correct
pub mod Ends
pub mod Keys
pub mod Greedy
pub mod Canonical
use lichtung.Prelude.{
  ℕ, zero, suc, String, Ordering, compare, List, [], ◌∷◌, ◌++◌, Bool, true, false, ◌+◌, ◌-◌, ◌==◌,
  length, get_or, set, replicate, if◌then◌else◌,
}
use lichtung.Prelude.Result.{Result, ok, err}
use lichtung.Prelude.Keys.{compare_str}
use lichtung.Log.{CausalEvent}
use lichtung.Poset.{Poset, Edge, ReplayError, cycle, event_at}

-- `(lamport, actor, seq, index)`, ordered lexicographically.
pub record Key : Type 0 where
  pub lamport : ℕ
  pub actor : String
  pub seq : ℕ
  pub index : ℕ

abbrev pub and_then : Ordering → Ordering → Ordering
and_then Ordering.eq o = o
and_then Ordering.lt o = Ordering.lt
and_then Ordering.gt o = Ordering.gt

unfoldable pub compare_key : Key → Key → Ordering
compare_key a b = and_then (compare a.lamport b.lamport) (
    and_then (compare_str a.actor b.actor)
      (and_then (compare a.seq b.seq) (compare a.index b.index)))

-- `BinaryHeap<Reverse<Key>>`: what is popped is the smallest key, so the heap is the list of its keys
-- in ascending order.
abbrev pub Heap : Type 0
Heap = List Key

unfoldable pub heap_push : Key → Heap → Heap
heap_push k [] = k ∷ []
heap_push k (j ∷ h) = elim (compare_key k j) [ Ordering.gt ↦ j ∷ heap_push k h | _ ↦ k ∷ j ∷ h ]

abbrev pub key : List CausalEvent → ℕ → Key
key events i =
    let e = event_at events i in
    record { lamport = e.lamport; actor = e.actor; seq = e.seq; index = i }

-- `succ` and `indeg` after the loop over the edges.
unfoldable pub successors : List Edge → List (List ℕ) → List (List ℕ)
successors [] succ = succ
successors ((a, b) ∷ edges) succ = successors edges (set succ a (get_or succ a [] ++ b ∷ []))

unfoldable pub in_degrees : List Edge → List ℕ → List ℕ
in_degrees [] indeg = indeg
in_degrees ((a, b) ∷ edges) indeg = in_degrees edges (set indeg b (get_or indeg b 0 + 1))

pub record Kahn : Type 0 where
  pub heap : Heap
  pub indeg : List ℕ
  pub order : List ℕ

module _ (events : List CausalEvent) where
  -- `for i in 0..n`, from `i` on, with `left` rounds to go.
  unfoldable pub seed : ℕ → ℕ → List ℕ → Heap → Heap
  seed zero i indeg heap = heap
  seed (suc left) i indeg heap =
      seed left (suc i) indeg
        (if get_or indeg i 0 == 0 then heap_push (key events i) heap else heap)

  -- The loop over `succ[i]`. An in-degree is at least 1 where it is decremented.
  unfoldable pub relax : List ℕ → Kahn → Kahn
  relax [] s = s
  relax (j ∷ targets) s =
      let d = get_or s.indeg j 0 - 1 in
      relax targets (record s {
        indeg = set s.indeg j d;
        heap = if d == 0 then heap_push (key events j) s.heap else s.heap;
      })

  -- The `while let` loop: a round pops one event.
  unfoldable pub drain : List (List ℕ) → ℕ → Kahn → Kahn
  drain succ zero s = s
  drain succ (suc fuel) s = elim s.heap [
    | [] ↦ s
    | k ∷ rest ↦
        drain succ fuel (
          relax (get_or succ k.index [])
            (record s { heap = rest; order = s.order ++ k.index ∷ [] }))
  ]

  unfoldable pub start : List Edge → Kahn
  start edges =
      let n = length events in
      let indeg = in_degrees edges (replicate n 0) in
      record { heap = seed n 0 indeg []; indeg = indeg; order = [] }

-- One round for each event is enough: `drain_empties`.
unfoldable pub kahn : Poset → Kahn
unfolding start
kahn p =
    let n = length p.events in
    drain p.events (successors p.edges (replicate n [])) n (start p.events p.edges)

unfoldable pub linearize : Poset → Result ReplayError (List ℕ)
linearize p =
    let n = length p.events in
    let order = (kahn p).order in
    if length order == n then ok order else err (cycle (n - length order))
