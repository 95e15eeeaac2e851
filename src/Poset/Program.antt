-- ===== src/Poset/Program.antt =====
-- Program order in `build` of crates/lichtung-replay/src/poset.rs: when the loop over the actors
-- succeeds, and which edges it adds.
use lichtung.Prelude.{
  ℕ, String, List, [], ◌∷◌, ◌<◌, ◌≡◌, refl, inl, inr, ◌↔◌, arith, In, ◌∙◌, sym, length, str_eq, suc,
  Bool-cases,
}
use lichtung.Prelude.Result.{ok}
use lichtung.Log.{CausalEvent}
use lichtung.Poset.{Edge, seq_at, sort_by_seq, program_order, event_at}
use lichtung.Poset.Sort.{Strict, Apart, sort_by_seq-Strict, In-sort_by_seq}
use lichtung.Poset.Entries.{
  sorted_entry, all_windows, program_order-ok, program_order-AllStrict, AllStrict-at, at-AllStrict,
  all_windows-at, at-all_windows,
}
use lichtung.Poset.Groups.{
  entry, groups, groups-IsSorted, entry-groups, indices, In-indices, In-group_iff,
}
use lichtung.Poset.Windows.{StrictFrom-inj, windows_iff}

module _ (events : List CausalEvent) where
  -- No two events share an actor and a `seq`.
  abbrev pub DistinctSeq : Type 0
  DistinctSeq =
      (i j : ℕ)
      → i < length events
      → j < length events
      → (event_at events i).actor ≡ (event_at events j).actor
      → seq_at events i ≡ seq_at events j
      → i ≡ j

  abbrev Increasing : List ℕ → Type 0
  Increasing [] = Unit
  Increasing (x ∷ xs) = ((y : ℕ) → In y xs → x < y) × Increasing xs

  indices-Increasing : (a : String) (es : List CausalEvent) (i : ℕ) → Increasing (indices a es i)
  indices-Increasing a [] i = tt
  indices-Increasing a (e ∷ es) i = elim (Bool-cases (str_eq e.actor a)) [
    | inl same ↦ rw same (
      λ y m. let (k, at, _, _) = In-indices a es (suc i) y m in omega arith,
      indices-Increasing a es (suc i),
    )
    | inr other ↦ rw other (indices-Increasing a es (suc i))
  ]

  Increasing-Apart :
      (xs : List ℕ)
      → Increasing xs
      → ((x y : ℕ) → In x xs → In y xs → seq_at events x ≡ seq_at events y → x ≡ y)
      → Apart events xs
  Increasing-Apart [] up inj = tt
  Increasing-Apart (x ∷ xs) up inj = (
    λ y m q. omega (arith, up.0 y m, inj x y (inl refl) (inr m) q),
    Increasing-Apart xs up.1 (λ y z m n. inj y z (inr m) (inr n)),
  )

  Strict-inj :
      (s : List ℕ) (x y : ℕ)
      → Strict events s
      → In x s
      → In y s
      → seq_at events x ≡ seq_at events y
      → x ≡ y
  Strict-inj [] x y h m n q = elim m [ ]
  Strict-inj (a ∷ s) x y h m n q = StrictFrom-inj events a s x y h m n q

  groups-Strict : DistinctSeq → (a : String) → Strict events (sorted_entry events a (groups events))
  groups-Strict d a = sort_by_seq-Strict events (entry a (groups events)) (
      Increasing-Apart (entry a (groups events)) (rw entry-groups (indices-Increasing a events 0))
        (λ x y m n q.
          let p = (In-group_iff a events x).0 m in
          let r = (In-group_iff a events y).0 n in d x y p.0 r.0 (p.1 ∙ sym r.1) q))

  Strict-DistinctSeq :
      ((a : String) → Strict events (sorted_entry events a (groups events))) → DistinctSeq
  Strict-DistinctSeq h i j p r same q =
      let a = (event_at events i).actor in
      Strict-inj (sorted_entry events a (groups events)) i j (h a)
        ((In-sort_by_seq events i (entry a (groups events))).1
          ((In-group_iff a events i).1 (p, refl)))
        ((In-sort_by_seq events j (entry a (groups events))).1
          ((In-group_iff a events j).1 (r, sym same)))
        q

  -- `j` is the next event of the actor of `i`, by `seq`.
  abbrev pub ProgramEdge : ℕ → ℕ → Type 0
  ProgramEdge i j =
      (i < length events)
      × (j < length events)
      × ((event_at events i).actor ≡ (event_at events j).actor)
      × (seq_at events i < seq_at events j)
      × ((k : ℕ)
          → k < length events
          → (event_at events k).actor ≡ (event_at events i).actor
          → ¬ ((seq_at events i < seq_at events k) × (seq_at events k < seq_at events j)))

  window-ProgramEdge :
      DistinctSeq → (i j : ℕ) → In (i, j) (all_windows events (groups events)) → ProgramEdge i j
  window-ProgramEdge d i j m =
      let (a, w) = all_windows-at events (groups events) (i, j) (groups-IsSorted events) m in
      let xs = entry a (groups events) in
      let c = (windows_iff events (sort_by_seq events xs) i j (groups-Strict d a)).0 w in
      let p = (In-group_iff a events i).0 ((In-sort_by_seq events i xs).0 c.0) in
      let q = (In-group_iff a events j).0 ((In-sort_by_seq events j xs).0 c.1) in
      (
        p.0,
        q.0,
        p.1 ∙ sym q.1,
        c.2,
        λ k lt same between.
            c.3 k ((In-sort_by_seq events k xs).1 ((In-group_iff a events k).1 (lt, same ∙ p.1)))
              between,
      )

  ProgramEdge-window :
      DistinctSeq → (i j : ℕ) → ProgramEdge i j → In (i, j) (all_windows events (groups events))
  ProgramEdge-window d i j e =
      let a = (event_at events i).actor in
      let xs = entry a (groups events) in
      at-all_windows events (groups events) (i, j) a
        ((windows_iff events (sort_by_seq events xs) i j (groups-Strict d a)).1 (
          (In-sort_by_seq events i xs).1 ((In-group_iff a events i).1 (e.0, refl)),
          (In-sort_by_seq events j xs).1 ((In-group_iff a events j).1 (e.1, sym e.2)),
          e.3,
          λ k m between.
              let p = (In-group_iff a events k).0 ((In-sort_by_seq events k xs).0 m) in
              e.4 k p.0 p.1 between,
        ))

  -- The loop succeeds exactly when no two events share an actor and a `seq`.
  pub program_order-DistinctSeq :
      {edges : List Edge} → program_order events (groups events) [] ≡ ok edges → DistinctSeq
  program_order-DistinctSeq {edges} h =
      Strict-DistinctSeq
        (λ a. AllStrict-at events (groups events) a (program_order-ok events _ [] edges h).0)

  pub program_order_succeeds :
      DistinctSeq → (edges : List Edge) × (program_order events (groups events) [] ≡ ok edges)
  program_order_succeeds d = (
    _,
    program_order-AllStrict events (groups events) []
        (at-AllStrict events (groups events) (groups-IsSorted events) (groups-Strict d)),
  )

  -- Its edges lead from each event to the next one of the same actor.
  pub program_order_edges :
      (edges : List Edge)
      → program_order events (groups events) [] ≡ ok edges
      → (i j : ℕ) → In (i, j) edges ↔ ProgramEdge i j
  program_order_edges edges h i j =
      let d = program_order-DistinctSeq h in
      let all = (program_order-ok events (groups events) [] edges h).1 in
      rw all (window-ProgramEdge d i j, ProgramEdge-window d i j)
