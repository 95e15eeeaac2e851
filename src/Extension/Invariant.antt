-- ===== src/Extension/Invariant.antt =====
-- The invariant of the loop of `linearize` in crates/lichtung-replay/src/extension.rs.
use lichtung.Prelude.{
  ℕ, suc, List, [], ◌∷◌, ◌++◌, ◌+◌, ◌<◌, ◌≤◌, ◌≡◌, refl, ◌⊎◌, inl, inr, arith, ◌==◌, ltb, ◌&&◌, In,
  length, get_or, get_or-replicate, length-replicate, replicate, ℕ_discrete, dec_lt,
}
use lichtung.Prelude.Counts.{
  count, count-append, one_if, AllBelow, position, position-append_old, position-append_new,
  position-lt,
}
use lichtung.Log.{CausalEvent}
use lichtung.Poset.{Edge}
use lichtung.Extension.{Key, Kahn, Heap, relax, drain, start, in_degrees}
use lichtung.Extension.Degrees.{
  InRange, targets, blocked, get_or-in_degrees, blocked-append, blocked-eq-zero, zero-blocked,
  blocked-beyond,
}
use lichtung.Extension.Relax.{queued, count-seed, relax-indeg, relax-order, count-relax}

-- `b` stands behind `a` wherever the edge ends in the order.
abbrev pub Respects : List Edge → List ℕ → Type 0
Respects edges order =
    (a b : ℕ)
    → In (a, b) edges
    → 0 < count b order
    → (0 < count a order) × (position a order < position b order)

pub heap_cases : (h : Heap) → (h ≡ []) ⊎ ((k : Key) × (rest : Heap) × (h ≡ k ∷ rest))
heap_cases [] = inl refl
heap_cases (k ∷ rest) = inr (k, rest, refl)

module _ (events : List CausalEvent) (succ : List (List ℕ)) (fuel : ℕ) (s : Kahn) where
  pub drain-nil : s.heap ≡ [] → drain events succ (suc fuel) s ≡ s
  unfolding drain
  drain-nil e = rw e

  pub drain-cons :
      (k : Key) (rest : Heap)
      → s.heap ≡ k ∷ rest
      → drain events succ (suc fuel) s
        ≡ drain events succ fuel (
            relax events
              (get_or succ k.index [])
              (record s { heap = rest; order = s.order ++ k.index ∷ [] }))
  unfolding drain
  drain-cons k rest e = rw e

module _ (events : List CausalEvent) (edges : List Edge) where
  abbrev n : ℕ
  n = length events

  -- In-degrees count the open edges, the heap holds what is ready and not yet ordered, each once.
  pub record Inv (s : Kahn) : Type 0 where
    pub degree : (j : ℕ) → get_or s.indeg j 0 ≡ blocked edges s.order j
    pub ready :
        (j : ℕ)
        → count j (queued s.heap)
          ≡ one_if (ltb j n && (get_or s.indeg j 0 == 0) && (count j s.order == 0))
    pub once : (j : ℕ) → count j s.order ≤ 1
    pub below : AllBelow n s.order
    pub respects : Respects edges s.order

  module _ (range : InRange n edges) where
    pub start-Inv : Inv (start events edges)
    unfolding start count
    start-Inv = record {
      degree = λ j. initial j;
      ready = λ j. ground (arith, count-seed events n 0 (in_degrees edges (replicate n 0)) [] j);
      once = λ j. omega arith;
      below = λ j h. absurd (omega arith);
      respects = λ a b m h. absurd (omega arith);
    }
      where
        initial : (j : ℕ) → get_or (in_degrees edges (replicate n 0)) j 0 ≡ blocked edges [] j
        initial j = omega (
          arith,
          get_or-in_degrees edges (replicate n 0) j (rw length-replicate range),
          get_or-replicate {A = ℕ} n j 0,
        )

    -- What a round does: the first event of the heap goes to the order.
    module _ (s : Kahn) (k : Key) (rest : Heap) (popped : s.heap ≡ k ∷ rest) (inv : Inv s) where
      abbrev i : ℕ
      i = k.index

      abbrev ts : List ℕ
      ts = targets i edges

      abbrev s' : Kahn
      s' = record s { heap = rest; order = s.order ++ i ∷ [] }

      head_count : (j : ℕ) → count j (queued s.heap) ≡ one_if (i == j) + count j (queued rest)
      unfolding count
      head_count j = rw popped

      pub record Head : Type 0 where
        pub lt : i < n
        pub free : get_or s.indeg i 0 ≡ 0
        pub fresh : count i s.order ≡ 0
        pub alone : count i (queued rest) ≡ 0

      pub head : Head
      head = record {
        lt = ground (arith, head_count i, inv.ready i);
        free = ground (arith, head_count i, inv.ready i);
        fresh = ground (arith, head_count i, inv.ready i);
        alone = ground (arith, head_count i, inv.ready i);
      }

      released :
          (j : ℕ) → blocked edges s.order j ≡ blocked edges (s.order ++ i ∷ []) j + count j ts
      released j = blocked-append edges s.order i j head.fresh

      -- An ordered event waits for nothing.
      ordered_free : (j : ℕ) → 0 < count j s.order → blocked edges s.order j ≡ 0
      ordered_free j h = blocked-eq-zero edges s.order j (λ a m. (inv.respects a j m h).0)

      degree' :
          (j : ℕ) → get_or (relax events ts s').indeg j 0 ≡ blocked edges (s.order ++ i ∷ []) j
      degree' j = omega (arith, relax-indeg events ts s' j, inv.degree j, released j)

      count-order : (j : ℕ) → count j (s.order ++ i ∷ []) ≡ count j s.order + one_if (i == j)
      unfolding count
      count-order j = omega (arith, count-append j s.order (i ∷ []))

      ready' :
          (j : ℕ)
          → count j (queued (relax events ts s').heap)
            ≡ one_if (
                ltb j n
                && (get_or (relax events ts s').indeg j 0 == 0)
                && (count j (s.order ++ i ∷ []) == 0))
      ready' j = ground (
        arith,
        count-relax events ts s' j (omega (arith, inv.degree j, released j)),
        relax-indeg events ts s' j,
        head_count j,
        inv.ready j,
        inv.degree j,
        released j,
        count-order j,
        ordered_free j,
        blocked-beyond n edges s.order j range,
        head.free,
      )

      respects' : Respects edges (s.order ++ i ∷ [])
      respects' a b m h = elim (dec_lt 0 (count b s.order)) [
        | yes old ↦
            let (p, q) = inv.respects a b m old in
            (
              omega (arith, count-order a),
              omega (
                arith,
                position-append_old a s.order (i ∷ []) p,
                position-append_old b s.order (i ∷ []) old,
              ),
            )
        | no new ↦ last (ground (arith, count-order b))
      ]
        where
          -- The edges to the popped event come from ordered ones.
          last :
              b ≡ i
              → (0 < count a (s.order ++ i ∷ []))
                × (position a (s.order ++ i ∷ []) < position b (s.order ++ i ∷ []))
          last e =
              let p =
                zero-blocked edges s.order a i (omega (arith, inv.degree i, head.free))
                  (rw e at m) in
              rw e (
                omega (arith, count-order a),
                omega (
                  arith,
                  position-append_old a s.order (i ∷ []) p,
                  position-append_new i s.order [] head.fresh,
                  position-lt a s.order p,
                ),
              )

      pub round-Inv : Inv (relax events ts s')
      round-Inv = record {
        degree = λ j. rw relax-order (degree' j);
        ready = λ j. rw relax-order (ready' j);
        once = λ j. rw relax-order (omega (arith, count-order j, inv.once j, once_at j));
        below = rw relax-order (λ j h. below_at j h);
        respects = rw relax-order respects';
      }
        where
          count_same : {j : ℕ} → i ≡ j → count i s.order ≡ count j s.order
          count_same e = rw e

          once_at : (j : ℕ) → count j s.order + one_if (i == j) ≤ 1
          once_at j = elim (ℕ_discrete i j) [
            | yes e ↦ ground (arith, count_same e, head.fresh)
            | no e ↦ ground (arith, inv.once j)
          ]

          below_at : AllBelow n (s.order ++ i ∷ [])
          below_at j h = elim (ℕ_discrete i j) [
            | yes e ↦ omega (arith, head.lt)
            | no e ↦ inv.below j (ground (arith, count-order j))
          ]
