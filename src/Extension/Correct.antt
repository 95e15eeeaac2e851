-- ===== src/Extension/Correct.antt =====
-- `linearize` of crates/lichtung-replay/src/extension.rs: a linear extension, or a proof that there is
-- none.
use lichtung.Prelude.{
  ℕ, zero, suc, List, [], true, ◌-◌, ◌<◌, ◌≡◌, refl, ◌≢◌, ◌⊎◌, inl, inr, arith, ◌==◌, ltb, In,
  length, dec_lt, Bool-cases,
}
use lichtung.Prelude.Result.{Result, ok, err}
use lichtung.Prelude.Counts.{count, one_if, position, length_full, full_length, length-le}
use lichtung.Log.{CausalEvent}
use lichtung.Poset.{Poset, ReplayError, cycle, build, validate}
use lichtung.Poset.Build.{build_edges, validate_iff}
use lichtung.Poset.Program.{ProgramEdge}
use lichtung.Poset.Messages.{MessageEdge}
use lichtung.Poset.Rank.{rank, rank-lt}
use lichtung.Extension.{kahn, start, linearize}
use lichtung.Extension.Degrees.{InRange, blocked, blocked-pos, InRange-In, In-InRange}
use lichtung.Extension.Relax.{queued}
use lichtung.Extension.Invariant.{Inv, start-Inv}
use lichtung.Extension.Drain.{drain_empties}

-- The order lists every event of the log once, and each edge of the poset leads forward in it.
pub record IsLinearExtension (p : Poset) (order : List ℕ) : Type 0 where
  pub each_once : (j : ℕ) → count j order ≡ one_if (ltb j (length p.events))
  pub complete : length order ≡ length p.events
  pub forward : (a b : ℕ) → In (a, b) p.edges → position a order < position b order

-- Some events can never be scheduled: each of them waits for another one of them.
pub record Stuck (p : Poset) (order : List ℕ) : Type 0 where
  pub first : (j : ℕ) × (j < length p.events) × (count j order ≡ 0)
  pub waits :
      (j : ℕ)
      → j < length p.events
      → count j order ≡ 0
      → (a : ℕ) × In (a, j) p.edges × (a < length p.events) × (count a order ≡ 0)

module _ (p : Poset) (range : InRange (length p.events) p.edges) where
  abbrev n : ℕ
  n = length p.events

  pub finished : Inv p.events p.edges (kahn p) × ((kahn p).heap ≡ [])
  unfolding kahn
  finished =
      drain_empties p.events p.edges range n (start p.events p.edges)
        (start-Inv p.events p.edges range) (omega arith)

  nothing_queued : (j : ℕ) → count j (queued (kahn p).heap) ≡ 0
  unfolding count
  nothing_queued j = rw (finished.1)

  open_edge : (j : ℕ) → j < n → count j (kahn p).order ≡ 0 → 0 < blocked p.edges (kahn p).order j
  open_edge j lt z = ground (arith, nothing_queued j, finished.0.ready j, finished.0.degree j)

  -- At the end what is not ordered has an open edge.
  waiting :
      (j : ℕ)
      → j < n
      → count j (kahn p).order ≡ 0
      → (a : ℕ) × In (a, j) p.edges × (a < n) × (count a (kahn p).order ≡ 0)
  waiting j lt z =
      let (a, m, free) = blocked-pos p.edges (kahn p).order j (open_edge j lt z) in
      (a, m, (InRange-In n p.edges a j range m).0, free)

  ordered_all : length (kahn p).order ≡ n → IsLinearExtension p (kahn p).order
  ordered_all full = record {
    each_once = λ j. elim (dec_lt j n) [
      | yes lt ↦
          ground (arith, length_full n (kahn p).order finished.0.below finished.0.once full j lt)
      | no ge ↦ ground (arith, not_counted j)
    ];
    complete = full;
    forward = λ a b m.
        let (la, lb) = InRange-In n p.edges a b range m in
        (finished.0.respects a b m (
          omega
            (arith, length_full n (kahn p).order finished.0.below finished.0.once full b lb))).1;
  }
    where
      not_counted : (j : ℕ) → ¬ (j < n) → count j (kahn p).order ≡ 0
      not_counted j ge = elim (dec_lt 0 (count j (kahn p).order)) [
        | yes c ↦ absurd (ge (finished.0.below j c))
        | no c ↦ omega arith
      ]

  -- For a poset with its edges among its events: an order that is returned is a linear extension.
  pub linearize-IsLinearExtension :
      (order : List ℕ) → linearize p ≡ ok order → IsLinearExtension p order
  unfolding linearize
  linearize-IsLinearExtension order h = elim (Bool-cases (length (kahn p).order == n)) [
    | inl full ↦ rw (order_eq full) (ordered_all (ground arith))
    | inr short ↦ absurd (ground arith)
  ]
    where
      order_eq : (length (kahn p).order == n) ≡ true → order ≡ (kahn p).order
      order_eq full = ground arith

  some_missing :
      (k : ℕ)
      → ((j : ℕ) → j < k → count j (kahn p).order ≡ 1)
        ⊎ ((j : ℕ) × (j < k) × (count j (kahn p).order ≡ 0))
  some_missing zero = inl (λ j lt. absurd (omega arith))
  some_missing (suc k) = go (some_missing k)
    where
      go :
          ((j : ℕ) → j < k → count j (kahn p).order ≡ 1)
            ⊎ ((j : ℕ) × (j < k) × (count j (kahn p).order ≡ 0))
          → ((j : ℕ) → j < suc k → count j (kahn p).order ≡ 1)
            ⊎ ((j : ℕ) × (j < suc k) × (count j (kahn p).order ≡ 0))
      go (inr (j, lt, z)) = inr (j, omega arith, z)
      go (inl all) = elim (dec_lt 0 (count k (kahn p).order)) [
        | no z ↦ inr (k, omega arith, omega arith)
        | yes c ↦ inl (λ j lt. elim (dec_lt j k) [
          | yes below ↦ all j below
          | no top ↦ at_top j (omega arith) (omega (arith, finished.0.once k))
        ])
      ]
        where
          at_top : (j : ℕ) → j ≡ k → count k (kahn p).order ≡ 1 → count j (kahn p).order ≡ 1
          at_top j e c = rw e c

  -- An error is `Cycle`, and comes with events that wait for one another.
  pub linearize-Stuck :
      (e : ReplayError)
      → linearize p ≡ err e
      → (m : ℕ) × (e ≡ cycle m) × (0 < m) × Stuck p (kahn p).order
  unfolding linearize
  linearize-Stuck e h = elim (Bool-cases (length (kahn p).order == n)) [
    | inl full ↦ absurd (ground arith)
    | inr short ↦ (
      n - length (kahn p).order,
      ground arith,
      ground (arith, length-le n (kahn p).order finished.0.below finished.0.once),
      record { first = missing (ground arith) (some_missing n); waits = waiting },
    )
  ]
    where
      missing :
          length (kahn p).order ≢ n
          → ((j : ℕ) → j < n → count j (kahn p).order ≡ 1)
            ⊎ ((j : ℕ) × (j < n) × (count j (kahn p).order ≡ 0))
          → (j : ℕ) × (j < n) × (count j (kahn p).order ≡ 0)
      missing short (inl all) = absurd (short (full_length n (kahn p).order finished.0.below all))
      missing short (inr found) = found

  -- Where the edges climb in some rank nothing is stuck.
  module _ (r : ℕ → ℕ) (climbs : (a b : ℕ) → In (a, b) p.edges → r a < r b) where
    ordered_below : (k j : ℕ) → r j < k → j < n → count j (kahn p).order ≢ 0
    ordered_below zero j h lt z = absurd (omega arith)
    ordered_below (suc k) j h lt z =
        let (a, m, la, free) = waiting j lt z in
        ordered_below k a (omega (arith, climbs a j m)) la free

    pub linearize_succeeds : (order : List ℕ) × (linearize p ≡ ok order)
    unfolding linearize
    linearize_succeeds = (
      (kahn p).order,
      ground (
        arith,
        full_length n (kahn p).order finished.0.below (λ j lt.
            let c = ordered_below (suc (r j)) j (omega arith) lt in
            omega (arith, finished.0.once j)),
      ),
    )

pub build-InRange :
    (events : List CausalEvent) (p : Poset)
    → build events ≡ ok p
    → InRange (length p.events) p.edges
build-InRange events p h =
    let (same, edges) = build_edges events p h in
    In-InRange (length p.events) p.edges (λ a b m. rw same (go a b ((edges a b).0 m)))
  where
    go :
        (a b : ℕ)
        → ProgramEdge events a b ⊎ MessageEdge events a b
        → (a < length events) × (b < length events)
    go a b (inl e) = (e.0, e.1)
    go a b (inr e) = (e.0, e.1)

-- A log that `build` and `validate` accept has a linear extension, and `linearize` returns one: the
-- error `Cycle` is not met.
pub validated_linearizes :
    (events : List CausalEvent) (p : Poset)
    → build events ≡ ok p
    → validate p ≡ ok tt
    → (order : List ℕ) × (linearize p ≡ ok order) × IsLinearExtension p order
validated_linearizes events p built valid =
    let range = build-InRange events p built in
    let (order, found) = linearize_succeeds p range (rank p.events) (λ a b m.
      rank-lt p.events a b (InRange-In (length p.events) p.edges a b range m).1
        ((validate_iff p).0 valid a b m)) in
    (order, found, linearize-IsLinearExtension p range order found)

-- What an answer of `linearize` means for a poset.
abbrev pub Answers : (p : Poset) → Result ReplayError (List ℕ) → Type 0
Answers p (ok order) = IsLinearExtension p order
Answers p (err e) = (m : ℕ) × (e ≡ cycle m) × (0 < m) × Stuck p (kahn p).order

-- For every log that `build` accepts, `linearize` either returns a linear extension of its poset, or
-- fails with `Cycle` and a positive number; then there are events that wait for one another.
pub linearize_built :
    (events : List CausalEvent) (p : Poset) → build events ≡ ok p → Answers p (linearize p)
linearize_built events p built = cases (linearize p) refl
  where
    range : InRange (length p.events) p.edges
    range = build-InRange events p built

    cases : (r : Result ReplayError (List ℕ)) → linearize p ≡ r → Answers p r
    cases (ok order) h = linearize-IsLinearExtension p range order h
    cases (err e) h = linearize-Stuck p range e h
