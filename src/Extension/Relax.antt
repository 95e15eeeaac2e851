-- ===== src/Extension/Relax.antt =====
-- The heap of `linearize` in crates/lichtung-replay/src/extension.rs: what a push, the seeding and the
-- loop over the successors put into it.
use lichtung.Prelude.{
  ℕ, zero, suc, List, [], ◌∷◌, ◌+◌, ◌-◌, ◌≤◌, ◌≡◌, refl, arith, ◌==◌, ltb, leb, ◌&&◌, length,
  get_or, set, length-set, get_or-beyond, get_or-set_self, get_or-set_ne, if◌then◌else◌, ℕ_discrete,
  dec_lt,
}
use lichtung.Prelude.Counts.{count, one_if}
use lichtung.Log.{CausalEvent}
use lichtung.Extension.{Key, key, Heap, heap_push, Kahn, seed, relax}

-- The indices in the heap.
abbrev pub queued : Heap → List ℕ
queued [] = []
queued (k ∷ h) = k.index ∷ queued h

count-heap_push :
    (j : ℕ) (k : Key) (h : Heap)
    → count j (queued (heap_push k h)) ≡ one_if (k.index == j) + count j (queued h)
unfolding heap_push count
count-heap_push j k [] = omega arith
count-heap_push j k (l ∷ h) = ground (arith, count-heap_push j k h)

module _ (events : List CausalEvent) where
  pub count-seed :
      (left i : ℕ) (indeg : List ℕ) (heap : Heap) (j : ℕ)
      → count j (queued (seed events left i indeg heap))
        ≡ count j (queued heap) + one_if (leb i j && ltb j (i + left) && (get_or indeg j 0 == 0))
  unfolding seed
  count-seed zero i indeg heap j = ground arith
  count-seed (suc left) i indeg heap j = elim (ℕ_discrete i j) [
    | yes e ↦ ground (
      arith,
      count-seed left (suc i) indeg heap j,
      count-seed left (suc i) indeg (heap_push (key events i) heap) j,
      count-heap_push j (key events i) heap,
      same_degree e,
    )
    | no e ↦ ground (
      arith,
      count-seed left (suc i) indeg heap j,
      count-seed left (suc i) indeg (heap_push (key events i) heap) j,
      count-heap_push j (key events i) heap,
    )
  ]
    where
      same_degree : i ≡ j → get_or indeg i 0 ≡ get_or indeg j 0
      same_degree e = rw e

  get_or-decrement :
      (d : List ℕ) (i j : ℕ)
      → get_or (set d i (get_or d i 0 - 1)) j 0 ≡ get_or d j 0 - one_if (i == j)
  get_or-decrement d i j = elim (ℕ_discrete i j) [
    | no e ↦ ground (arith, get_or-set_ne d i j (get_or d i 0 - 1) 0 e)
    | yes e ↦ rw (← e) (elim (dec_lt i (length d)) [
      | yes lt ↦ ground (arith, get_or-set_self d i (get_or d i 0 - 1) 0 lt)
      | no ge ↦ ground (
        arith,
        get_or-beyond (set d i (get_or d i 0 - 1)) i 0,
        get_or-beyond d i 0,
        length-set d i (get_or d i 0 - 1),
      )
    ])
  ]

  pub relax-indeg :
      (ts : List ℕ) (s : Kahn) (j : ℕ)
      → get_or (relax events ts s).indeg j 0 ≡ get_or s.indeg j 0 - count j ts
  unfolding relax count
  relax-indeg [] s j = omega arith
  relax-indeg (t ∷ ts) s j =
      let d = get_or s.indeg t 0 - 1 in
      let s' = record s {
        indeg = set s.indeg t d;
        heap = if d == 0 then heap_push (key events t) s.heap else s.heap;
      } in
      omega (arith, relax-indeg ts s' j, get_or-decrement s.indeg t j)

  pub relax-order : (ts : List ℕ) (s : Kahn) → (relax events ts s).order ≡ s.order
  unfolding relax
  relax-order [] s = refl
  relax-order (t ∷ ts) s = relax-order ts _

  -- An event is pushed when its last open edge is released.
  pub count-relax :
      (ts : List ℕ) (s : Kahn) (j : ℕ)
      → count j ts ≤ get_or s.indeg j 0
      → count j (queued (relax events ts s).heap)
        ≡ count j (queued s.heap)
          + one_if (ltb 0 (count j ts) && (get_or s.indeg j 0 == count j ts))
  unfolding relax count
  count-relax [] s j h = ground arith
  count-relax (t ∷ ts) s j h =
      let d = get_or s.indeg t 0 - 1 in
      let s' = record s {
        indeg = set s.indeg t d;
        heap = if d == 0 then heap_push (key events t) s.heap else s.heap;
      } in
      elim (ℕ_discrete t j) [
        | yes e ↦ ground (
          arith,
          count-relax ts s' j,
          get_or-decrement s.indeg t j,
          count-heap_push j (key events t) s.heap,
          same_degree e,
        )
        | no e ↦ ground (
          arith,
          count-relax ts s' j,
          get_or-decrement s.indeg t j,
          count-heap_push j (key events t) s.heap,
        )
      ]
    where
      same_degree : t ≡ j → get_or s.indeg t 0 ≡ get_or s.indeg j 0
      same_degree e = rw e
