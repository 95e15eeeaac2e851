-- ===== src/Map/Sorted.antt =====
-- The keys ascend: kept by every operation; and two ascending maps with the same lookups are equal.
use lichtung.Prelude.{String, [], ◌∷◌, none, ◌≡◌, refl, ap₂, arith, eq_iff}
use lichtung.Prelude.Keys.{Before, Before-irrefl, Before-trans, compare-swap}
use lichtung.Map.Defs.{Map, lookup, insert, remove}
use text.Mathlib.TextEquality.{path_by_compare}

module _ {ℓ} {V : Type ℓ} where
  abbrev pub AllAfter : String → Map V → Type 0
  AllAfter k [] = Unit
  AllAfter k ((j, w) ∷ m) = Before k j × AllAfter k m

  abbrev pub IsSorted : Map V → Type 0
  IsSorted [] = Unit
  IsSorted ((j, w) ∷ m) = AllAfter j m × IsSorted m

  AllAfter-trans : (i j : String) (m : Map V) → Before i j → AllAfter j m → AllAfter i m
  AllAfter-trans i j [] b h = tt
  AllAfter-trans i j ((k, w) ∷ m) b h = (Before-trans i j k b h.0, AllAfter-trans i j m b h.1)

  AllAfter-insert :
      (i k : String) (v : V) (m : Map V) → Before i k → AllAfter i m → AllAfter i (insert k v m)
  unfolding insert
  AllAfter-insert i k v [] b h = (b, tt)
  AllAfter-insert i k v ((j, w) ∷ m) b h = ground (arith, AllAfter-insert i k v m b h.1)

  AllAfter-remove : (i k : String) (m : Map V) → AllAfter i m → AllAfter i (remove k m)
  unfolding remove
  AllAfter-remove i k [] h = tt
  AllAfter-remove i k ((j, w) ∷ m) h = ground (arith, AllAfter-remove i k m h.1)

  pub insert-IsSorted : (k : String) (v : V) (m : Map V) → IsSorted m → IsSorted (insert k v m)
  unfolding insert
  insert-IsSorted k v [] h = (tt, tt)
  insert-IsSorted k v ((j, w) ∷ m) h = ground (
    arith,
    path_by_compare k j,
    compare-swap k j,
    AllAfter-trans k j m,
    AllAfter-insert j k v m,
    insert-IsSorted k v m,
  )

  pub remove-IsSorted : (k : String) (m : Map V) → IsSorted m → IsSorted (remove k m)
  unfolding remove
  remove-IsSorted k [] h = tt
  remove-IsSorted k ((j, w) ∷ m) h = ground (arith, AllAfter-remove j k m h.0, remove-IsSorted k m)

  pub lookup_before : (k : String) (m : Map V) → AllAfter k m → lookup k m ≡ none
  unfolding lookup
  lookup_before k [] h = refl
  lookup_before k ((j, w) ∷ m) h =
      ground (arith, eq_iff j k, Before-irrefl k, lookup_before k m h.1)

  missing-Before :
      (i j : String) (w : V) (n : Map V) → Before i j → AllAfter j n → lookup i ((j, w) ∷ n) ≡ none
  missing-Before i j w n b h = lookup_before i ((j, w) ∷ n) (b, AllAfter-trans i j n b h)

  -- Two ascending maps that agree at the keys that stand first in them have the same first entry.
  heads_agree :
      (i j : String) (v w : V) (m n : Map V)
      → AllAfter j n
      → lookup i ((i, v) ∷ m) ≡ lookup i ((j, w) ∷ n)
      → AllAfter i m
      → lookup j ((i, v) ∷ m) ≡ lookup j ((j, w) ∷ n)
      → ◌≡◌ {A = String × V} (i, v) (j, w)
  unfolding lookup
  heads_agree i j v w m n hn hi hm hj = ground (
    arith,
    path_by_compare i j,
    compare-swap i j,
    eq_iff i i,
    eq_iff j j,
    eq_iff i j,
    missing-Before i j w n,
    missing-Before j i v m,
  )

  -- The representation is unique.
  pub IsSorted-ext :
      (m n : Map V) → IsSorted m → IsSorted n → ((k : String) → lookup k m ≡ lookup k n) → m ≡ n
  unfolding lookup
  IsSorted-ext [] [] p q h = refl
  IsSorted-ext [] ((j, w) ∷ n) p q h = absurd (ground (arith, h j, eq_iff j j))
  IsSorted-ext ((i, v) ∷ m) [] p q h = absurd (ground (arith, h i, eq_iff i i))
  IsSorted-ext ((i, v) ∷ m) ((j, w) ∷ n) p q h =
      let e = heads_agree i j v w m n q.0 (h i) p.0 (h j) in
      ap₂ ◌∷◌ e (
        IsSorted-ext m n p.1 q.1
          λ k. ground (arith, h k, eq_iff i k, eq_iff j k, lookup_before k m, lookup_before k n))
