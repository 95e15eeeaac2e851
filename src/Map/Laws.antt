-- ===== src/Map/Laws.antt =====
-- What a lookup sees after an insertion and after a removal, and which keys a map has.
use lichtung.Prelude.{
  String, [], ◌∷◌, none, some, ◌≡◌, refl, ◌≢◌, arith, str_eq, eq_iff, if◌then◌else◌, In,
}
use lichtung.Map.Defs.{Map, lookup, insert, remove, keys}
use text.Mathlib.TextEquality.{path_by_compare}

module _ {ℓ} {V : Type ℓ} where
  pub lookup-insert :
      (k j : String) (v : V) (m : Map V)
      → lookup j (insert k v m) ≡ (if str_eq k j then some v else lookup j m)
  unfolding lookup insert
  lookup-insert k j v [] = refl
  lookup-insert k j v ((i, w) ∷ m) =
      ground (arith, path_by_compare k i, eq_iff k j, eq_iff i j, lookup-insert k j v m)

  pub lookup-remove :
      (k j : String) (m : Map V) → lookup j (remove k m) ≡ (if str_eq k j then none else lookup j m)
  unfolding lookup remove
  lookup-remove k j [] = ground arith
  lookup-remove k j ((i, w) ∷ m) =
      ground (arith, eq_iff i k, eq_iff k j, eq_iff i j, lookup-remove k j m)

  pub In-keys : (k : String) (m : Map V) → lookup k m ≢ none → In k (keys m)
  unfolding lookup
  In-keys k [] h = absurd (h refl)
  In-keys k ((j, w) ∷ m) h = ground (arith, eq_iff j k, In-keys k m)

pub ruleset map_laws = (lookup-insert, lookup-remove)
