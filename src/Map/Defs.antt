-- ===== src/Map/Defs.antt =====
-- The operations of `BTreeMap` that the program calls.
use lichtung.Prelude.{ℕ, String, Ordering, List, [], ◌∷◌, Option, none, some, str_eq, if◌then◌else◌}
use lichtung.Prelude.Keys.{compare_str}

abbrev pub Map {ℓ} : Type ℓ → Type ℓ
Map V = List (String × V)

module _ {ℓ} {V : Type ℓ} where
  -- `get`
  unfoldable pub lookup : String → Map V → Option V
  lookup k [] = none
  lookup k ((j, w) ∷ m) = if str_eq j k then some w else lookup k m

  -- `insert`: a key that is there keeps its place and gets the new value.
  unfoldable pub insert : String → V → Map V → Map V
  insert k v [] = (k, v) ∷ []
  insert k v ((j, w) ∷ m) = elim (compare_str k j) [
    | Ordering.lt ↦ (k, v) ∷ (j, w) ∷ m
    | Ordering.eq ↦ (k, v) ∷ m
    | Ordering.gt ↦ (j, w) ∷ insert k v m
  ]

  unfoldable pub remove : String → Map V → Map V
  remove k [] = []
  remove k ((j, w) ∷ m) = if str_eq j k then remove k m else (j, w) ∷ remove k m

  abbrev pub keys : Map V → List String
  keys [] = []
  keys ((j, w) ∷ m) = j ∷ keys m

-- `.get(k).copied().unwrap_or(0)`
abbrev pub get_or_zero : String → Map ℕ → ℕ
get_or_zero k m = elim (lookup k m) [ none ↦ 0 | some v ↦ v ]
