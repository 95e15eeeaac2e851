-- ===== src/Poset/Sort.antt =====
-- The stable sort by `seq` and the pass over its windows, in `build` of
-- crates/lichtung-replay/src/poset.rs.
use lichtung.Prelude.{
  ℕ, String, List, [], ◌∷◌, ◌++◌, ◌<◌, ◌≤◌, ◌≡◌, ◌≢◌, refl, ◌⊎◌, inl, inr, ◌↔◌, arith, leb, ◌==◌,
  In, Bool-cases, ◌∙◌,
}
use lichtung.Prelude.Result.{ok}
use lichtung.Log.{CausalEvent}
use lichtung.Poset.{Edge, seq_at, insert_by_seq, sort_by_seq, check_windows, windows_of}
use mathlib.Core.List.{append_assoc, append-nil}

module _ (events : List CausalEvent) where
  abbrev seq : ℕ → ℕ
  seq = seq_at events

  abbrev WeakFrom : ℕ → List ℕ → Type 0
  WeakFrom a [] = Unit
  WeakFrom a (b ∷ s) = (seq a ≤ seq b) × WeakFrom b s

  abbrev Weak : List ℕ → Type 0
  Weak [] = Unit
  Weak (a ∷ s) = WeakFrom a s

  abbrev pub StrictFrom : ℕ → List ℕ → Type 0
  StrictFrom a [] = Unit
  StrictFrom a (b ∷ s) = (seq a < seq b) × StrictFrom b s

  -- `seq` grows along the list.
  abbrev pub Strict : List ℕ → Type 0
  Strict [] = Unit
  Strict (a ∷ s) = StrictFrom a s

  -- No two of the indices have one `seq`.
  abbrev pub Apart : List ℕ → Type 0
  Apart [] = Unit
  Apart (x ∷ xs) = ((y : ℕ) → In y xs → seq x ≢ seq y) × Apart xs

  insert_by_seq-WeakFrom :
      (a i : ℕ) (s : List ℕ) → seq a ≤ seq i → WeakFrom a s → WeakFrom a (insert_by_seq events i s)
  unfolding insert_by_seq
  insert_by_seq-WeakFrom a i [] le w = (le, tt)
  insert_by_seq-WeakFrom a i (j ∷ s) le w = ground (arith, insert_by_seq-WeakFrom j i s)

  insert_by_seq-Weak : (i : ℕ) (s : List ℕ) → Weak s → Weak (insert_by_seq events i s)
  unfolding insert_by_seq
  insert_by_seq-Weak i [] w = tt
  insert_by_seq-Weak i (j ∷ s) w = ground (arith, insert_by_seq-WeakFrom j i s)

  sort_by_seq-Weak : (xs : List ℕ) → Weak (sort_by_seq events xs)
  unfolding sort_by_seq
  sort_by_seq-Weak [] = tt
  sort_by_seq-Weak (i ∷ xs) = insert_by_seq-Weak i (sort_by_seq events xs) (sort_by_seq-Weak xs)

  In-insert_by_seq : (y i : ℕ) (s : List ℕ) → In y (insert_by_seq events i s) ↔ ((y ≡ i) ⊎ In y s)
  unfolding insert_by_seq
  In-insert_by_seq y i [] = ground arith
  In-insert_by_seq y i (j ∷ s) = ground (arith, In-insert_by_seq y i s)

  pub In-sort_by_seq : (y : ℕ) (xs : List ℕ) → In y (sort_by_seq events xs) ↔ In y xs
  unfolding sort_by_seq
  In-sort_by_seq y [] = ground arith
  In-sort_by_seq y (i ∷ xs) =
      ground (arith, In-insert_by_seq y i (sort_by_seq events xs), In-sort_by_seq y xs)

  insert_by_seq-Apart :
      (i : ℕ) (s : List ℕ)
      → ((y : ℕ) → In y s → seq i ≢ seq y)
      → Apart s
      → Apart (insert_by_seq events i s)
  unfolding insert_by_seq
  insert_by_seq-Apart i [] h a = (λ y m. elim m [ ], tt)
  insert_by_seq-Apart i (j ∷ s) h a = elim (Bool-cases (leb (seq i) (seq j))) [
    | inl le ↦ rw le (h, a)
    | inr gt ↦ rw gt (
      λ y m. ground (arith, In-insert_by_seq y i s, a.0 y, h j),
      insert_by_seq-Apart i s (λ y m. h y (inr m)) a.1,
    )
  ]

  sort_by_seq-Apart : (xs : List ℕ) → Apart xs → Apart (sort_by_seq events xs)
  unfolding sort_by_seq
  sort_by_seq-Apart [] a = tt
  sort_by_seq-Apart (i ∷ xs) a =
      insert_by_seq-Apart i (sort_by_seq events xs) (λ y m. a.0 y ((In-sort_by_seq y xs).0 m))
        (sort_by_seq-Apart xs a.1)

  strict_of_weak : (a : ℕ) (s : List ℕ) → WeakFrom a s → Apart (a ∷ s) → StrictFrom a s
  strict_of_weak a [] w p = tt
  strict_of_weak a (b ∷ s) w p = (omega (arith, p.0 b (inl refl)), strict_of_weak b s w.1 p.1)

  pub sort_by_seq-Strict : (xs : List ℕ) → Apart xs → Strict (sort_by_seq events xs)
  sort_by_seq-Strict xs a =
      go (sort_by_seq events xs) (sort_by_seq-Weak xs) (sort_by_seq-Apart xs a)
    where
      go : (s : List ℕ) → Weak s → Apart s → Strict s
      go [] w p = tt
      go (b ∷ s) w p = strict_of_weak b s w p

  -- Each index with the next one.
  abbrev pub window_edges : ℕ → List ℕ → List Edge
  window_edges a [] = []
  window_edges a (b ∷ s) = (a, b) ∷ window_edges b s

  abbrev pub windows : List ℕ → List Edge
  windows [] = []
  windows (a ∷ s) = window_edges a s

  check_windows-ok :
      (actor : String) (a : ℕ) (s : List ℕ) (edges edges' : List Edge)
      → WeakFrom a s
      → check_windows events actor a s edges ≡ ok edges'
      → StrictFrom a s × (edges' ≡ edges ++ window_edges a s)
  unfolding check_windows
  check_windows-ok actor a [] edges edges' w h = (tt, rw append-nil (ground arith))
  check_windows-ok actor a (b ∷ s) edges edges' w h = elim (Bool-cases (seq a == seq b)) [
    | inl same ↦ absurd (ground arith)
    | inr apart ↦
        let r = check_windows-ok actor b s (edges ++ (a, b) ∷ []) edges' w.1 (rw apart at h) in
        ((ground arith, r.0), r.1 ∙ append_assoc edges ((a, b) ∷ []) (window_edges b s))
  ]

  check_windows-Strict :
      (actor : String) (a : ℕ) (s : List ℕ) (edges : List Edge)
      → StrictFrom a s
      → check_windows events actor a s edges ≡ ok (edges ++ window_edges a s)
  unfolding check_windows
  check_windows-Strict actor a [] edges w = rw append-nil
  check_windows-Strict actor a (b ∷ s) edges w = ground (
    arith,
    check_windows-Strict actor b s (edges ++ (a, b) ∷ []) w.1,
    append_assoc edges ((a, b) ∷ []) (window_edges b s),
  )

  -- The pass succeeds exactly when `seq` grows along the sorted indices, and then adds their windows.
  pub windows_of-ok :
      (actor : String) (xs : List ℕ) (edges edges' : List Edge)
      → windows_of events actor (sort_by_seq events xs) edges ≡ ok edges'
      → Strict (sort_by_seq events xs) × (edges' ≡ edges ++ windows (sort_by_seq events xs))
  unfolding windows_of
  windows_of-ok actor xs edges edges' h = go (sort_by_seq events xs) (sort_by_seq-Weak xs) h
    where
      go :
          (s : List ℕ)
          → Weak s
          → windows_of events actor s edges ≡ ok edges'
          → Strict s × (edges' ≡ edges ++ windows s)
      go [] w e = (tt, rw append-nil (ground arith))
      go (a ∷ s) w e = check_windows-ok actor a s edges edges' w e

  pub windows_of-Strict :
      (actor : String) (s : List ℕ) (edges : List Edge)
      → Strict s
      → windows_of events actor s edges ≡ ok (edges ++ windows s)
  unfolding windows_of
  windows_of-Strict actor [] edges w = rw append-nil
  windows_of-Strict actor (a ∷ s) edges w = check_windows-Strict actor a s edges w
