-- ===== src/Poset/Entries.antt =====
-- The loop over `by_actor` in `build` of crates/lichtung-replay/src/poset.rs, entry by entry: when it
-- succeeds, and the edges that it adds.
use lichtung.Prelude.{
  ℕ, String, List, [], ◌∷◌, ◌++◌, ◌≡◌, refl, ◌⊎◌, inl, inr, arith, In, In-append, ap, ◌∙◌, str_eq,
  eq_iff, Bool-cases,
}
use lichtung.Prelude.Result.{ok, >>=-ok}
use lichtung.Map.{Map, lookup, IsSorted, lookup_before}
use lichtung.Log.{CausalEvent}
use lichtung.Poset.{Edge, sort_by_seq, program_order}
use lichtung.Poset.Sort.{Strict, windows, windows_of-ok, windows_of-Strict}
use lichtung.Poset.Groups.{entry}
use mathlib.Core.List.{append_assoc, append-nil}

module _ (events : List CausalEvent) where
  abbrev pub sorted_entry : String → Map (List ℕ) → List ℕ
  sorted_entry a m = sort_by_seq events (entry a m)

  abbrev pub AllStrict : Map (List ℕ) → Type 0
  AllStrict [] = Unit
  AllStrict ((a, idxs) ∷ m) = Strict events (sort_by_seq events idxs) × AllStrict m

  abbrev pub all_windows : Map (List ℕ) → List Edge
  all_windows [] = []
  all_windows ((a, idxs) ∷ m) = windows events (sort_by_seq events idxs) ++ all_windows m

  pub program_order-ok :
      (m : Map (List ℕ)) (edges edges' : List Edge)
      → program_order events m edges ≡ ok edges'
      → AllStrict m × (edges' ≡ edges ++ all_windows m)
  unfolding program_order
  program_order-ok [] edges edges' h = (tt, rw append-nil (ground arith))
  program_order-ok ((a, idxs) ∷ m) edges edges' h =
      let (mid, first, rest) = >>=-ok _ _ h in
      let w = windows_of-ok events a idxs edges mid first in
      let r = program_order-ok m mid edges' rest in
      (
        (w.0, r.0),
        r.1
            ∙ ap (λ x. x ++ all_windows m) w.1
            ∙ append_assoc edges (windows events (sort_by_seq events idxs)) (all_windows m),
      )

  pub program_order-AllStrict :
      (m : Map (List ℕ)) (edges : List Edge)
      → AllStrict m
      → program_order events m edges ≡ ok (edges ++ all_windows m)
  unfolding program_order
  program_order-AllStrict [] edges h = rw append-nil
  program_order-AllStrict ((a, idxs) ∷ m) edges h =
      rw (windows_of-Strict events a (sort_by_seq events idxs) edges h.0) (
        program_order-AllStrict m _ h.1
        ∙ ap ok (append_assoc edges (windows events (sort_by_seq events idxs)) (all_windows m)))

  -- From the entries of the list to the lookups of the map.
  pub AllStrict-at :
      (m : Map (List ℕ)) (a : String) → AllStrict m → Strict events (sorted_entry a m)
  unfolding lookup sort_by_seq
  AllStrict-at [] a h = tt
  AllStrict-at ((b, idxs) ∷ m) a h = elim (Bool-cases (str_eq b a)) [
    | inl same ↦ rw same h.0
    | inr other ↦ rw other (AllStrict-at m a h.1)
  ]

  pub at-AllStrict :
      (m : Map (List ℕ))
      → IsSorted m
      → ((a : String) → Strict events (sorted_entry a m))
      → AllStrict m
  unfolding lookup sort_by_seq
  at-AllStrict [] s h = tt
  at-AllStrict ((b, idxs) ∷ m) s h =
      (rw ((eq_iff b b).1 refl) at (h b), at-AllStrict m s.1 (λ a. tail a))
    where
      tail : (a : String) → Strict events (sorted_entry a m)
      tail a = elim (Bool-cases (str_eq b a)) [
        | inl same ↦ rw (← (eq_iff b a).0 same) (rw (lookup_before b m s.0) tt)
        | inr other ↦ rw other at (h a)
      ]

  pub all_windows-at :
      (m : Map (List ℕ)) (e : Edge)
      → IsSorted m
      → In e (all_windows m)
      → (a : String) × In e (windows events (sorted_entry a m))
  unfolding lookup sort_by_seq
  all_windows-at [] e s h = elim h [ ]
  all_windows-at ((b, idxs) ∷ m) e s h =
      go ((In-append e (windows events (sort_by_seq events idxs)) (all_windows m)).0 h)
        (λ n. all_windows-at m e s.1 n)
    where
      later :
          (a : String) × In e (windows events (sorted_entry a m))
          → (a : String) × In e (windows events (sorted_entry a ((b, idxs) ∷ m)))
      later (a, n) = elim (Bool-cases (str_eq b a)) [
        | inl same ↦ absurd (rw (lookup_before b m s.0) at (rw (← (eq_iff b a).0 same) at n))
        | inr other ↦ (a, rw other n)
      ]

      go :
          In e (windows events (sort_by_seq events idxs)) ⊎ In e (all_windows m)
          → (In e (all_windows m) → (a : String) × In e (windows events (sorted_entry a m)))
          → (a : String) × In e (windows events (sorted_entry a ((b, idxs) ∷ m)))
      go (inl n) ih = (b, rw ((eq_iff b b).1 refl) n)
      go (inr n) ih = later (ih n)

  pub at-all_windows :
      (m : Map (List ℕ)) (e : Edge) (a : String)
      → In e (windows events (sorted_entry a m))
      → In e (all_windows m)
  unfolding lookup sort_by_seq
  at-all_windows [] e a h = h
  at-all_windows ((b, idxs) ∷ m) e a h = elim (Bool-cases (str_eq b a)) [
    | inl same ↦
        (In-append e (windows events (sort_by_seq events idxs)) (all_windows m)).1
          (inl (rw same at h))
    | inr other ↦
        (In-append e (windows events (sort_by_seq events idxs)) (all_windows m)).1
          (inr (at-all_windows m e a (rw other at h)))
  ]
