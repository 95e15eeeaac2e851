-- ===== src/Prelude/Sums.antt =====
-- The sum of a measure over a list.
use Prim.Native.Nat.{ℕ, zero, suc, ◌+◌, ◌≤◌, ◌<◌}
use mathlib.Core.Path.{◌≡◌, refl}
use mathlib.Core.Option.{some}
use mathlib.Core.List.{List, [], ◌∷◌, ◌++◌}
use native.Mathlib.Omega.{arith}
use native.Mathlib.Decide.{dec_lt}
use lichtung.Prelude.Lists.{get_elem?, set}

module _ {ℓ} {B : Type ℓ} where
  some_inj : (x y : B) → some x ≡ some y → x ≡ y
  some_inj x y h = cc

module _ {ℓ} {B : Type ℓ} (f : B → ℕ) where
  unfoldable pub sum_by : List B → ℕ
  sum_by [] = 0
  sum_by (x ∷ xs) = f x + sum_by xs

  pub sum_by-append : (xs ys : List B) → sum_by (xs ++ ys) ≡ sum_by xs + sum_by ys
  unfolding sum_by
  sum_by-append [] ys = omega arith
  sum_by-append (x ∷ xs) ys = omega (arith, sum_by-append xs ys)

  pub sum_by-set :
      (xs : List B) (i : ℕ) (x x' : B)
      → get_elem? xs i ≡ some x
      → sum_by (set xs i x') + f x ≡ sum_by xs + f x'
  unfolding sum_by
  sum_by-set [] i x x' h = absurd (cc)
  sum_by-set (y ∷ xs) zero x x' h = rw (some_inj y x h) (omega arith)
  sum_by-set (y ∷ xs) (suc i) x x' h = omega (arith, sum_by-set xs i x x' h)

  pub le_sum_by : (xs : List B) (i : ℕ) (x : B) → get_elem? xs i ≡ some x → f x ≤ sum_by xs
  unfolding sum_by
  le_sum_by [] i x h = absurd (cc)
  le_sum_by (y ∷ xs) zero x h = rw (some_inj y x h) (omega arith)
  le_sum_by (y ∷ xs) (suc i) x h = omega (arith, le_sum_by xs i x h)

  -- A positive sum has a positive term.
  pub sum_by_pos :
      (xs : List B) → 0 < sum_by xs → (i : ℕ) × (x : B) × (get_elem? xs i ≡ some x) × (0 < f x)
  unfolding sum_by
  sum_by_pos [] h = absurd (omega arith)
  sum_by_pos (y ∷ xs) h = elim (dec_lt 0 (f y)) [
    | yes p ↦ (zero, y, refl, p)
    | no p ↦ let (i, x, at, q) = sum_by_pos xs (omega arith) in (suc i, x, at, q)
  ]
