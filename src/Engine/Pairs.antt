-- ===== src/Engine/Pairs.antt =====
-- `concurrent_pairs` of crates/lichtung-replay/src/engine.rs: the pairs that are drawn as parallel.
use lichtung.Prelude.{
  ℕ, zero, suc, String, List, [], ◌∷◌, ◌++◌, false, ◌+◌, ◌<◌, ◌≤◌, ◌≡◌, ◌⊎◌, inl, inr, ◌↔◌, arith,
  In, In-append, ap, Bool-cases, ◌==◌, ==_iff, length, replicate,
}
use lichtung.Prelude.Result.{ok}
use lichtung.Log.{CausalEvent}
use lichtung.Poset.{Poset, build, event_at}
use lichtung.Extension.{successors}
use lichtung.Extension.Degrees.{InRange}
use lichtung.Extension.Correct.{build-InRange}
use lichtung.Engine.{reaches, pairs_with, pairs_from, concurrent_pairs}
use lichtung.Engine.Reach.{Leads, reaches_iff}

module _ (events : List CausalEvent) (succ : List (List ℕ)) where
  abbrev n : ℕ
  n = length events

  abbrev id_at : ℕ → String
  id_at i = (event_at events i).id

  abbrev Apart : ℕ → ℕ → Type 0
  Apart a b = (reaches n succ a b ≡ false) × (reaches n succ b a ≡ false)

  -- The pair of ids is that of `a` and an incomparable event with an index from `b` to `b + left`.
  abbrev Found : ℕ → ℕ → ℕ → String × String → Type 0
  Found a zero b xy = ⊥
  Found a (suc left) b xy = ((xy ≡ (id_at a, id_at b)) × Apart a b) ⊎ Found a left (suc b) xy

  In-pairs_with :
      (a left b : ℕ) (out : List (String × String)) (xy : String × String)
      → In xy (pairs_with events succ a left b out) ↔ (In xy out ⊎ Found a left b xy)
  unfolding pairs_with
  In-pairs_with a zero b out xy = ground arith
  In-pairs_with a (suc left) b out xy = ground (
    arith,
    In-pairs_with a left (suc b) out xy,
    In-pairs_with a left (suc b) (out ++ (id_at a, id_at b) ∷ []) xy,
    In-append xy out ((id_at a, id_at b) ∷ []),
  )

  abbrev FoundAny : ℕ → ℕ → String × String → Type 0
  FoundAny zero a xy = ⊥
  FoundAny (suc left) a xy = Found a left (suc a) xy ⊎ FoundAny left (suc a) xy

  In-pairs_from :
      (left a : ℕ) (out : List (String × String)) (xy : String × String)
      → In xy (pairs_from events succ left a out) ↔ (In xy out ⊎ FoundAny left a xy)
  unfolding pairs_from
  In-pairs_from zero a out xy = ground arith
  In-pairs_from (suc left) a out xy = ground (
    arith,
    In-pairs_from left (suc a) (pairs_with events succ a left (suc a) out) xy,
    In-pairs_with a left (suc a) out xy,
  )

  -- The same with the indices named.
  abbrev Between : ℕ → ℕ → String × String → Type 0
  Between lo hi xy =
      (i : ℕ) × (j : ℕ) × (lo ≤ i) × (i < j) × (j < hi) × (xy ≡ (id_at i, id_at j)) × Apart i j

  Found-index :
      (a left b : ℕ) (xy : String × String)
      → Found a left b xy
      → (j : ℕ) × (b ≤ j) × (j < b + left) × (xy ≡ (id_at a, id_at j)) × Apart a j
  Found-index a zero b xy h = elim h [ ]
  Found-index a (suc left) b xy (inl (e, p)) = (b, omega arith, omega arith, e, p)
  Found-index a (suc left) b xy (inr h) =
      let (j, lo, hi, e, p) = Found-index a left (suc b) xy h in (j, omega arith, omega arith, e, p)

  index-Found :
      (a left b j : ℕ) (xy : String × String)
      → b ≤ j
      → j < b + left
      → (xy ≡ (id_at a, id_at j)) × Apart a j
      → Found a left b xy
  index-Found a zero b j xy lo hi h = absurd (omega arith)
  index-Found a (suc left) b j xy lo hi h = elim (Bool-cases (b == j)) [
    | inl same ↦ inl (rw (← (==_iff b j).0 same) at h)
    | inr later ↦ inr (index-Found a left (suc b) j xy (ground arith) (omega arith) h)
  ]

  FoundAny-Between :
      (left a : ℕ) (xy : String × String) → FoundAny left a xy → Between a (a + left) xy
  FoundAny-Between zero a xy h = elim h [ ]
  FoundAny-Between (suc left) a xy (inl h) =
      let (j, lo, hi, e, p) = Found-index a left (suc a) xy h in
      (a, j, omega arith, omega arith, omega arith, e, p)
  FoundAny-Between (suc left) a xy (inr h) =
      let (i, j, lo, lt, hi, e, p) = FoundAny-Between left (suc a) xy h in
      (i, j, omega arith, lt, omega arith, e, p)

  Between-FoundAny :
      (left a i j : ℕ) (xy : String × String)
      → a ≤ i
      → i < j
      → j < a + left
      → (xy ≡ (id_at i, id_at j)) × Apart i j
      → FoundAny left a xy
  Between-FoundAny zero a i j xy lo lt hi h = absurd (omega arith)
  Between-FoundAny (suc left) a i j xy lo lt hi h = elim (Bool-cases (a == i)) [
    | inl same ↦ inl (
        index-Found a left (suc a) j xy (ground arith) (omega arith)
          (rw (← (==_iff a i).0 same) at h))
    | inr later ↦ inr (Between-FoundAny left (suc a) i j xy (ground arith) lt (omega arith) h)
  ]

-- The pairs that are drawn as parallel are the ids of just those events, the one with the smaller
-- index first, of which neither leads to the other along the edges of the poset.
pub concurrent_pairs_iff :
    (events : List CausalEvent) (p : Poset)
    → build events ≡ ok p
    → (x y : String)
    → In (x, y) (concurrent_pairs p) ↔ (
        (i : ℕ) × (j : ℕ) × (i < j)
        × (j < length p.events)
        × (x ≡ (event_at p.events i).id)
        × (y ≡ (event_at p.events j).id)
        × ¬ Leads p.edges i j
        × ¬ Leads p.edges j i)
unfolding concurrent_pairs
concurrent_pairs_iff events p built x y = (
  λ m. to (
      FoundAny-Between p.events succ n 0 (x, y)
        (only ((In-pairs_from p.events succ n 0 [] (x, y)).0 m))),
  λ (i, j, lt, hi, ex, ey, p_ij, p_ji). (In-pairs_from p.events succ n 0 [] (x, y)).1 (
      inr (
        Between-FoundAny p.events succ n 0 i j (x, y) (omega arith) lt (omega arith)
          (pair_eq ex ey, (unreached i j p_ij, unreached j i p_ji)))),
)
  where
    n : ℕ
    n = length p.events

    succ : List (List ℕ)
    succ = successors p.edges (replicate (length p.events) [])

    range : InRange (length p.events) p.edges
    range = build-InRange events p built

    pair_eq : {a b c d : String} → a ≡ b → c ≡ d → ◌≡◌ {A = String × String} (a, c) (b, d)
    pair_eq e f = λ i. (e i, f i)

    unreached : (i j : ℕ) → ¬ Leads p.edges i j → reaches n succ i j ≡ false
    unreached i j h = elim (Bool-cases (reaches n succ i j)) [
      | inl r ↦ absurd (h ((reaches_iff (length p.events) p.edges range i j).0 r))
      | inr r ↦ r
    ]

    no_chain : (i j : ℕ) → reaches n succ i j ≡ false → ¬ Leads p.edges i j
    no_chain i j h l = cc (h, (reaches_iff (length p.events) p.edges range i j).1 l)

    only :
        In {A = String × String} (x, y) [] ⊎ FoundAny p.events succ n 0 (x, y)
        → FoundAny p.events succ n 0 (x, y)
    only (inl m) = elim m [ ]
    only (inr m) = m

    to :
        Between p.events succ 0 (0 + n) (x, y)
        → (i : ℕ) × (j : ℕ) × (i < j)
          × (j < length p.events)
          × (x ≡ (event_at p.events i).id)
          × (y ≡ (event_at p.events j).id)
          × ¬ Leads p.edges i j
          × ¬ Leads p.edges j i
    to (i, j, lo, lt, hi, e, (r, q)) = (
      i,
      j,
      lt,
      omega arith,
      ap (λ (xy : String × String). xy.0) e,
      ap (λ (xy : String × String). xy.1) e,
      no_chain i j r,
      no_chain j i q,
    )
