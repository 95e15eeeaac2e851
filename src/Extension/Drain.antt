-- ===== src/Extension/Drain.antt =====
-- The loop of `linearize` in crates/lichtung-replay/src/extension.rs, to its end.
use lichtung.Prelude.{
  ℕ, zero, suc, List, [], ◌∷◌, ◌++◌, ◌+◌, ◌≤◌, ◌≡◌, inl, inr, arith, ap, length, length-append,
  get_or, get_or-replicate, length-replicate, replicate, ◌∙◌,
}
use lichtung.Prelude.Counts.{length-le, length_full}
use lichtung.Log.{CausalEvent}
use lichtung.Poset.{Edge}
use lichtung.Extension.{Kahn, drain, successors}
use lichtung.Extension.Degrees.{InRange, targets, get_or-successors}
use lichtung.Extension.Relax.{relax-order}
use lichtung.Extension.Invariant.{Inv, head, round-Inv, heap_cases, drain-nil, drain-cons}

module _ (events : List CausalEvent) (edges : List Edge) where
  abbrev n : ℕ
  n = length events

  module _ (range : InRange n edges) where
    heap_of_full : (s : Kahn) → Inv events edges s → n ≤ length s.order → s.heap ≡ []
    heap_of_full s inv h = elim (heap_cases s.heap) [
      | inl e ↦ e
      | inr (k, rest, e) ↦
          let at = head events edges range s k rest e inv in
          absurd (
            omega (
              arith,
              at.fresh,
              length_full n s.order inv.below inv.once
                  (omega (arith, length-le n s.order inv.below inv.once)) k.index at.lt,
            ))
    ]

    abbrev succ : List (List ℕ)
    succ = successors edges (replicate n [])

    -- The successors of an event are the targets of its edges.
    pub succ-targets : (j : ℕ) → get_or succ j [] ≡ targets j edges
    succ-targets j =
        get_or-successors edges (replicate n []) j (rw length-replicate range)
        ∙ ap (λ l. l ++ targets j edges) (get_or-replicate n j [])

    -- With enough rounds for the events that are left, the loop ends with an empty heap.
    pub drain_empties :
        (fuel : ℕ) (s : Kahn)
        → Inv events edges s
        → n ≤ length s.order + fuel
        → Inv events edges (drain events succ fuel s) × ((drain events succ fuel s).heap ≡ [])
    drain_empties zero s inv h = unfold drain in (inv, heap_of_full s inv (omega arith))
    drain_empties (suc fuel) s inv h = elim (heap_cases s.heap) [
      | inl e ↦ rw (drain-nil events succ fuel s e) (inv, e)
      | inr (k, rest, e) ↦
          rw (drain-cons events succ fuel s k rest e, succ-targets)
            (drain_empties fuel _ (round-Inv events edges range s k rest e inv)
              (rw relax-order (omega (arith, length-append s.order (k.index ∷ [])))))
    ]
