-- ===== src/Extension/Canonical.antt =====
-- Which events `linearize` of crates/lichtung-replay/src/extension.rs pops: each time the least key of
-- those that wait for nothing.
use lichtung.Prelude.{
  ℕ, zero, suc, List, [], ◌∷◌, ◌++◌, ◌<◌, ◌≡◌, refl, inl, inr, arith, In, length, ◌∙◌, true,
  replicate,
}
use lichtung.Prelude.Counts.{count}
use lichtung.Log.{CausalEvent}
use lichtung.Poset.{Edge, Poset}
use lichtung.Extension.{Key, key, Kahn, Heap, drain, kahn, start, relax, successors}
use lichtung.Extension.Degrees.{InRange, targets, blocked-eq-zero, zero-blocked}
use lichtung.Extension.Relax.{queued, relax-order}
use lichtung.Extension.Invariant.{
  Inv, Head, start-Inv, round-Inv, head, heap_cases, drain-nil, drain-cons,
}
use lichtung.Extension.Drain.{succ-targets}
use lichtung.Extension.Keys.{IsHeap, IsHeap-tail, popped_least, relax-IsHeap, seed-IsHeap, le_key}
use mathlib.Core.List.{append_assoc, append-nil}

module _ (events : List CausalEvent) (edges : List Edge) where
  abbrev n : ℕ
  n = length events

  -- Every edge to `j` comes from the order.
  abbrev pub Waits : List ℕ → ℕ → Type 0
  Waits order j = (a : ℕ) → In (a, j) edges → 0 < count a order

  pub record IsNextAt (order : List ℕ) (i : ℕ) : Type 0 where
    pub in_range : i < n
    pub unordered : count i order ≡ 0
    pub waits : Waits order i
    pub least :
        (j : ℕ)
        → j < n
        → count j order ≡ 0
        → Waits order j
        → le_key (key events i) (key events j) ≡ true

  unfoldable pub GreedyAt : List ℕ → List ℕ → Type 0
  GreedyAt order [] = Unit
  GreedyAt order (i ∷ more) = IsNextAt order i × GreedyAt (order ++ i ∷ []) more

  module _ (range : InRange n edges) where
    popped-IsNextAt :
        (s : Kahn) (k : Key) (rest : Heap)
        → s.heap ≡ k ∷ rest
        → Inv events edges s
        → IsHeap events (k ∷ rest)
        → IsNextAt s.order k.index
    popped-IsNextAt s k rest popped inv heap = record {
      in_range = h.lt;
      unordered = h.fresh;
      waits =
          λ a m. zero-blocked edges s.order a k.index (omega (arith, inv.degree k.index, h.free)) m;
      least = λ j lt z w. popped_least events k rest j heap (at_heap j lt z w);
    }
      where
        h : Head events edges range s k rest popped inv
        h = head events edges range s k rest popped inv

        at_heap :
            (j : ℕ)
            → j < n
            → count j s.order ≡ 0
            → Waits s.order j
            → 0 < count j (queued (k ∷ rest))
        at_heap j lt z w =
            let c : 0 < count j (queued s.heap) =
              ground (arith, inv.ready j, inv.degree j, blocked-eq-zero edges s.order j w) in
            rw popped at c

    abbrev next : Kahn → Key → Heap → Kahn
    next s k rest = record s { heap = rest; order = s.order ++ k.index ∷ [] }

    drain-GreedyAt :
        (fuel : ℕ) (s : Kahn)
        → Inv events edges s
        → IsHeap events s.heap
        → (more : List ℕ) × ((drain events (successors edges (replicate n [])) fuel s).order
            ≡ s.order ++ more)
          × GreedyAt s.order more
    unfolding GreedyAt relax
    drain-GreedyAt zero s inv heap = unfold drain in ([], rw append-nil refl, tt)
    drain-GreedyAt (suc fuel) s inv heap = elim (heap_cases s.heap) [
      | inl e ↦
          rw (drain-nil events (successors edges (replicate n [])) fuel s e)
            ([], rw append-nil refl, tt)
      | inr (k, rest, e) ↦
          let popped = rw e at heap in
          let (more, found, greedy) =
            rw (relax-order events (targets k.index edges) (next s k rest)) at (
              drain-GreedyAt fuel (relax events (targets k.index edges) (next s k rest))
                (round-Inv events edges range s k rest e inv)
                (relax-IsHeap events (targets k.index edges) (next s k rest)
                  (IsHeap-tail events k rest popped))) in
          rw
            (
              drain-cons events (successors edges (replicate n [])) fuel s k rest e,
              succ-targets events edges range k.index,
            )
            (
              k.index ∷ more,
              found ∙ append_assoc s.order (k.index ∷ []) more,
              (popped-IsNextAt s k rest e inv popped, greedy),
            )
    ]

    -- The order of `kahn`.
    start-IsHeap : IsHeap events (start events edges).heap
    unfolding start IsHeap
    start-IsHeap = seed-IsHeap events n 0 _ [] tt

module _ (p : Poset) (range : InRange (length p.events) p.edges) where
  pub kahn-GreedyAt : GreedyAt p.events p.edges [] (kahn p).order
  unfolding kahn start
  kahn-GreedyAt =
      let (more, found, greedy) =
        drain-GreedyAt p.events p.edges range (length p.events) (start p.events p.edges)
          (start-Inv p.events p.edges range) (start-IsHeap p.events p.edges range) in
      rw found greedy
