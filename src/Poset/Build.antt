-- ===== src/Poset/Build.antt =====
-- `build` and `validate` of crates/lichtung-replay/src/poset.rs: the logs that they accept, and the
-- edges of the poset.
use lichtung.Prelude.{
  ℕ, List, [], ◌∷◌, Bool, true, ◌≡◌, refl, ◌⊎◌, inl, inr, ◌↔◌, In, Bool-cases, ap,
}
use lichtung.Prelude.Result.{ok, >>=-ok}
use lichtung.Log.{CausalEvent}
use lichtung.Poset.{
  Poset, Edge, build, validate, validate_edges, event_at, hb_strict, program_order, collect_emits,
  message_order,
}
use lichtung.Map.{Map}
use lichtung.Poset.Groups.{groups}
use lichtung.Poset.Program.{
  DistinctSeq, ProgramEdge, program_order-DistinctSeq, program_order_succeeds, program_order_edges,
}
use lichtung.Poset.Messages.{
  MessageEdge, EmittedOnce, Matched, collect_emits-EmittedOnce, EmittedOnce-collect_emits,
  message_edges, message_order-Matched, Matched-message_order,
}

-- A log in which events have coordinates of their own and messages go from one emit to receipts.
pub record IsWellFormed (events : List CausalEvent) : Type 0 where
  pub distinct_seq : DistinctSeq events
  pub emitted_once : EmittedOnce events
  pub matched : Matched events

-- `build` accepts exactly the logs in which no two events share an actor and a `seq`, no two emits
-- share a message, and every receipt has an emit of its message.
pub build_iff :
    (events : List CausalEvent) → ((p : Poset) × (build events ≡ ok p)) ↔ IsWellFormed events
unfolding build
build_iff events = (
  λ (p, h).
      let (program, e1, h1) = >>=-ok _ _ h in
      let (emit_of, e2, h2) = >>=-ok _ _ h1 in
      let (edges, e3, h3) = >>=-ok _ _ h2 in
      record {
        distinct_seq = program_order-DistinctSeq events e1;
        emitted_once = collect_emits-EmittedOnce events emit_of e2;
        matched = message_order-Matched events emit_of e2 program edges e3;
      },
  λ w.
      let (program, e1) = program_order_succeeds events w.distinct_seq in
      let (emit_of, e2) = EmittedOnce-collect_emits events w.emitted_once in
      let (edges, e3) = Matched-message_order events emit_of e2 program w.matched in
      (record { events = events; edges = edges }, rw e1 (rw e2 (rw e3))),
)

-- The three passes of a `build` that succeeded.
record Stages (events : List CausalEvent) (p : Poset) : Type 0 where
  program : List Edge
  emit_of : Map ℕ
  edges : List Edge
  first : program_order events (groups events) [] ≡ ok program
  second : collect_emits events 0 [] ≡ ok emit_of
  third : message_order events 0 emit_of program ≡ ok edges
  result : record { events = events; edges = edges } ≡ p

build-Stages : (events : List CausalEvent) (p : Poset) → build events ≡ ok p → Stages events p
unfolding build
build-Stages events p h =
    let (program, e1, h1) = >>=-ok (program_order events (groups events) []) _ h in
    let (emit_of, e2, h2) = >>=-ok (collect_emits events 0 []) _ h1 in
    let (edges, e3, h3) = >>=-ok (message_order events 0 emit_of program) _ h2 in
    record {
      program = program;
      emit_of = emit_of;
      edges = edges;
      first = e1;
      second = e2;
      third = e3;
      result = cc;
    }

-- The poset of an accepted log has the log's events, and an edge from `i` to `j` exactly where `j` is
-- the next event of the actor of `i` by `seq`, or `i` emits the message that `j` receives.
pub build_edges :
    (events : List CausalEvent) (p : Poset)
    → build events ≡ ok p
    → (p.events ≡ events)
      × ((i j : ℕ) → In (i, j) p.edges ↔ (ProgramEdge events i j ⊎ MessageEdge events i j))
build_edges events p h =
    rw (← s.result)
      (refl, λ i j. (λ m. to i j ((messages i j).0 m), λ m. (messages i j).1 (from i j m)))
  where
    s : Stages events p
    s = build-Stages events p h

    messages : (i j : ℕ) → In (i, j) s.edges ↔ (In (i, j) s.program ⊎ MessageEdge events i j)
    messages i j = message_edges events s.emit_of s.second s.program s.edges i j s.third

    to :
        (i j : ℕ)
        → In (i, j) s.program ⊎ MessageEdge events i j
        → ProgramEdge events i j ⊎ MessageEdge events i j
    to i j (inl m) = inl ((program_order_edges events s.program s.first i j).0 m)
    to i j (inr e) = inr e

    from :
        (i j : ℕ)
        → ProgramEdge events i j ⊎ MessageEdge events i j
        → In (i, j) s.program ⊎ MessageEdge events i j
    from i j (inl m) = inl ((program_order_edges events s.program s.first i j).1 m)
    from i j (inr e) = inr e

validate_edges_iff :
    (events : List CausalEvent) (edges : List Edge)
    → (validate_edges events edges ≡ ok tt) ↔ (
        (i j : ℕ)
        → In (i, j) edges
        → hb_strict (event_at events i).vclock (event_at events j).vclock ≡ true)
unfolding validate_edges
validate_edges_iff events [] = (λ h i j m. elim m [ ], λ h. refl)
validate_edges_iff events ((a, b) ∷ edges) = elim (Bool-cases (ordered a b)) [
  | inl yes_ ↦ rw yes_ (
    λ h i j m. at_edge yes_ i j m ((validate_edges_iff events edges).0 h),
    λ h. (validate_edges_iff events edges).1 (λ i j m. h i j (inr m)),
  )
  | inr not_ ↦ rw not_ (λ h. absurd (cc), λ h. absurd (cc (h a b (inl refl), not_)))
]
  where
    ordered : ℕ → ℕ → Bool
    ordered i j = hb_strict (event_at events i).vclock (event_at events j).vclock

    at_edge :
        ordered a b ≡ true
        → (i j : ℕ) → In (i, j) ((a, b) ∷ edges)
        → ((k l : ℕ) → In (k, l) edges → ordered k l ≡ true)
        → ordered i j ≡ true
    at_edge here i j (inl e) rest =
        let x : i ≡ a = ap (λ (p : ℕ × ℕ). p.0) e in
        let y : j ≡ b = ap (λ (p : ℕ × ℕ). p.1) e in rw (x, y) here
    at_edge here i j (inr m) rest = rest i j m

-- `validate` accepts a poset exactly when along each of its edges the recorded clocks are strictly
-- ordered.
pub validate_iff :
    (p : Poset)
    → (validate p ≡ ok tt) ↔ (
        (i j : ℕ)
        → In (i, j) p.edges
        → hb_strict (event_at p.events i).vclock (event_at p.events j).vclock ≡ true)
unfolding validate
validate_iff p = validate_edges_iff p.events p.edges
