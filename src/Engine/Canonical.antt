-- ===== src/Engine/Canonical.antt =====
-- The timeline of `replay_log` of crates/lichtung-replay/src/engine.rs, and the order in which the
-- events are recorded.
pub mod Timeline
use lichtung.Prelude.{
  ℕ, List, [], ◌∷◌, ◌++◌, map, Ordering, true, some, ◌<◌, ◌≡◌, refl, ◌⊎◌, inl, inr, ◌↔◌, arith, In,
  length, ap, sym, ◌∙◌, ltb, ℕ_discrete, compare, dec_lt, subst,
}
use lichtung.Prelude.Counts.{count, AllBelow, count-append, one_if}
use lichtung.Prelude.Keys.{compare_str}
use lichtung.Log.{CausalEvent}
use lichtung.Poset.{Edge, event_at}
use lichtung.Poset.Program.{DistinctSeq, ProgramEdge}
use lichtung.Poset.Messages.{MessageEdge}
use lichtung.Extension.{key, compare_key, and_then}
use lichtung.Extension.Keys.{le_key}
use lichtung.Extension.Canonical.{IsNextAt, GreedyAt, Waits}
use lichtung.Extension.Greedy.{compare_event, Follows, Ready, IsNext, IsGreedy}
use lichtung.Engine.Append.{In-event_at, index_of, actor_of, seq_of}
use text.Mathlib.TextEquality.{path_by_compare}

by_name :
    (events : List CausalEvent) (i j : ℕ)
    → le_key (key events i) (key events j) ≡ true
    → (compare_event (event_at events i) (event_at events j) ≡ Ordering.lt)
      ⊎ (((event_at events i).actor ≡ (event_at events j).actor)
          × ((event_at events i).seq ≡ (event_at events j).seq))
unfolding compare_event compare_key
by_name events i j h =
    ground (arith, path_by_compare (event_at events i).actor (event_at events j).actor)

pub In-map_count :
    (events : List CausalEvent) (j : ℕ) (order : List ℕ)
    → 0 < count j order
    → In (event_at events j) (map (event_at events) order)
unfolding count
In-map_count events j [] h = absurd (omega arith)
In-map_count events j (i ∷ order) h = elim (ℕ_discrete i j) [
  | yes e ↦ inl (ap (event_at events) (sym e))
  | no e ↦ inr (In-map_count events j order (ground arith))
]

map-append_one :
    (events : List CausalEvent) (order : List ℕ) (i : ℕ)
    → map (event_at events) (order ++ i ∷ [])
      ≡ map (event_at events) order ++ event_at events i ∷ []
map-append_one events [] i = refl
map-append_one events (j ∷ order) i =
    ap (λ l. event_at events j ∷ l) (map-append_one events order i)

module _ (events : List CausalEvent) (d : DistinctSeq events) where
  abbrev n : ℕ
  n = length events

  abbrev at : ℕ → CausalEvent
  at = event_at events

  same_index : (i j : ℕ) → i < n → j < n → at i ≡ at j → i ≡ j
  same_index i j p q e = d i j p q (ap actor_of e) (ap seq_of e)

  In-map_index :
      (j : ℕ) (order : List ℕ)
      → AllBelow n order
      → j < n
      → In (at j) (map at order)
      → 0 < count j order
  unfolding count
  In-map_index j [] b lt m = absurd m
  In-map_index j (i ∷ order) b lt (inl e) = ground (arith, same_index j i lt (b i (ground arith)) e)
  In-map_index j (i ∷ order) b lt (inr m) =
      omega (arith, In-map_index j order (λ k c. b k (omega arith)) lt m)

  Edge-Follows :
      (i j : ℕ) → ProgramEdge events i j ⊎ MessageEdge events i j → Follows events (at i) (at j)
  unfolding Follows
  Edge-Follows i j (inl (p, q, a, s, between)) = (
    In-event_at events i p,
    In-event_at events j q,
    inl (
      a,
      s,
      λ z m name lt.
          let (k, r, e) = index_of events z m in
          between k r (ap actor_of e ∙ name) (rw (ap seq_of e) lt),
    ),
  )
  Edge-Follows i j (inr (p, q, sends, receives, id)) =
      (In-event_at events i p, In-event_at events j q, inr (sends, receives, id))

  Follows-Edge :
      (i j : ℕ)
      → i < n
      → j < n
      → Follows events (at i) (at j)
      → ProgramEdge events i j ⊎ MessageEdge events i j
  unfolding Follows
  Follows-Edge i j p q (mi, mj, inl (a, s, between)) =
      inl (p, q, a, s, λ k r name lt. between (at k) (In-event_at events k r) name lt)
  Follows-Edge i j p q (mi, mj, inr e) = inr (p, q, e.0, e.1, e.2)

  module _ (edges : List Edge)
      (edges_iff : (i j : ℕ)
        → In (i, j) edges ↔ (ProgramEdge events i j ⊎ MessageEdge events i j)) where
    Waits-Ready :
        (order : List ℕ) (j : ℕ)
        → j < n
        → Waits events edges order j
        → Ready events (map at order) (at j)
    unfolding Follows
    Waits-Ready order j lt w y f =
        let (i, p, e) = index_of events y f.0 in
        rw e at
          (In-map_count events i order (w i ((edges_iff i j).1 (Follows-Edge i j p lt (rw e f)))))

    Ready-Waits :
        (order : List ℕ) (j : ℕ)
        → AllBelow n order
        → Ready events (map at order) (at j)
        → Waits events edges order j
    unfolding Follows
    Ready-Waits order j b r i m =
        let e = (edges_iff i j).0 m in
        In-map_index i order b (first_lt i j e) (r (at i) (Edge-Follows i j e))
      where
        first_lt : (i j : ℕ) → ProgramEdge events i j ⊎ MessageEdge events i j → i < n
        first_lt i j (inl e) = e.0
        first_lt i j (inr e) = e.0

    not_ordered :
        (order : List ℕ) (j : ℕ)
        → AllBelow n order
        → j < n
        → count j order ≡ 0
        → ¬ In (at j) (map at order)
    not_ordered order j b lt z m = omega (arith, In-map_index j order b lt m)

    unordered : (order : List ℕ) (j : ℕ) → ¬ In (at j) (map at order) → count j order ≡ 0
    unordered order j fresh = elim (dec_lt 0 (count j order)) [
      | yes c ↦ absurd (fresh (In-map_count events j order c))
      | no c ↦ omega arith
    ]

    grown : (i : ℕ) (order : List ℕ) → AllBelow n order → i < n → AllBelow n (order ++ i ∷ [])
    unfolding count
    grown i order b lt j c = elim (ℕ_discrete i j) [
      | yes e ↦ omega (arith, lt)
      | no e ↦ b j (ground (arith, count-append j order (i ∷ [])))
    ]

    IsNextAt-IsNext :
        (order : List ℕ) (i : ℕ)
        → AllBelow n order
        → IsNextAt events edges order i
        → IsNext events (map at order) (at i)
    IsNextAt-IsNext order i b h = record {
      recorded = In-event_at events i h.in_range;
      fresh = not_ordered order i b h.in_range h.unordered;
      ready = Waits-Ready order i h.in_range h.waits;
      least = λ z m.
          let (j, lt, e) = index_of events z m in
          subst
            (λ y.
              ¬ In y (map at order)
              → Ready events (map at order) y
              → (y ≡ at i) ⊎ (compare_event (at i) y ≡ Ordering.lt))
            e (least_at j lt);
    }
      where
        least_at :
            (j : ℕ)
            → j < n
            → ¬ In (at j) (map at order)
            → Ready events (map at order) (at j)
            → (at j ≡ at i) ⊎ (compare_event (at i) (at j) ≡ Ordering.lt)
        least_at j lt fresh ready =
            elim (by_name events i j
              (h.least j lt (unordered order j fresh) (Ready-Waits order j b ready))) [
                | inl before ↦ inr before
                | inr (a, q) ↦ inl (ap at (sym (d i j h.in_range lt a q)))
              ]

    pub GreedyAt-IsGreedy :
        (order more : List ℕ)
        → AllBelow n order
        → GreedyAt events edges order more
        → IsGreedy events (map at order) (map at more)
    unfolding IsGreedy GreedyAt
    GreedyAt-IsGreedy order [] b g = tt
    GreedyAt-IsGreedy order (i ∷ more) b (next, g) = (
      IsNextAt-IsNext order i b next,
      rw (map-append_one events order i) at
          (GreedyAt-IsGreedy (order ++ i ∷ []) more (grown i order b next.in_range) g),
    )
