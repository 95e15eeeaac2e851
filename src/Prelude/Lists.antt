-- ===== src/Prelude/Lists.antt =====
-- Lists measured and indexed by native numbers, under the library's names, and the membership
-- family that can be matched.
use Prim.Native.Nat.{ℕ, zero, suc, ◌+◌, ◌≤◌, ◌<◌}
use mathlib.Core.Path.{◌≡◌, refl}
use mathlib.Core.Logic.{◌↔◌, ◌≢◌, ◌⊎◌, inl, inr}
use mathlib.Core.Bool.{Bool, true, ◌&&◌}
use mathlib.Core.List.{List, [], ◌∷◌, ◌++◌}
use mathlib.Core.Option.{Option, none, some}
use native.Mathlib.Omega.{arith}

module _ {ℓ} {A : Type ℓ} where
  abbrev pub length : List A → ℕ
  length [] = 0
  length (x ∷ xs) = suc (length xs)

  abbrev pub get_elem? : List A → ℕ → Option A
  get_elem? [] i = none
  get_elem? (x ∷ xs) zero = some x
  get_elem? (x ∷ xs) (suc i) = get_elem? xs i

  abbrev pub get_or : List A → ℕ → A → A
  get_or [] i d = d
  get_or (x ∷ xs) zero d = x
  get_or (x ∷ xs) (suc i) d = get_or xs i d

  -- A write out of bounds changes nothing.
  abbrev pub set : List A → ℕ → A → List A
  set [] i v = []
  set (x ∷ xs) zero v = v ∷ xs
  set (x ∷ xs) (suc i) v = x ∷ set xs i v

  abbrev pub replicate : ℕ → A → List A
  replicate zero a = []
  replicate (suc n) a = a ∷ replicate n a

  abbrev pub all : (A → Bool) → List A → Bool
  all p [] = true
  all p (x ∷ xs) = p x && all p xs

-- `a` stands in the list: a sum, which the tactics take apart and build.
abbrev pub In : {A : Type 0} → A → List A → Type 0
In a [] = ⊥
In a (x ∷ xs) = (a ≡ x) ⊎ In a xs

module _ {ℓ} {A : Type ℓ} where
  pub length-append : (xs ys : List A) → length (xs ++ ys) ≡ length xs + length ys
  length-append [] ys = omega arith
  length-append (x ∷ xs) ys = omega (arith, length-append xs ys)

pub In-append : {A : Type 0} (a : A) (xs ys : List A) → In a (xs ++ ys) ↔ (In a xs ⊎ In a ys)
In-append a [] ys = ground arith
In-append a (x ∷ xs) ys = ground (arith, In-append a xs ys)

module _ {ℓ} {A : Type ℓ} where
  pub length-set : (xs : List A) (i : ℕ) (v : A) → length (set xs i v) ≡ length xs
  length-set [] i v = omega arith
  length-set (x ∷ xs) zero v = omega arith
  length-set (x ∷ xs) (suc i) v = omega (arith, length-set xs i v)

  pub get_or-beyond : (xs : List A) (j : ℕ) (d : A) → length xs ≤ j → get_or xs j d ≡ d
  get_or-beyond [] j d h = ground arith
  get_or-beyond (x ∷ xs) zero d h = absurd (omega arith)
  get_or-beyond (x ∷ xs) (suc j) d h = get_or-beyond xs j d (omega arith)

  pub get_or-set_self :
      (xs : List A) (i : ℕ) (v d : A) → i < length xs → get_or (set xs i v) i d ≡ v
  get_or-set_self [] i v d h = absurd (omega arith)
  get_or-set_self (x ∷ xs) zero v d h = ground arith
  get_or-set_self (x ∷ xs) (suc i) v d h = get_or-set_self xs i v d (omega arith)

  pub get_or-set_ne :
      (xs : List A) (i j : ℕ) (v d : A) → i ≢ j → get_or (set xs i v) j d ≡ get_or xs j d
  get_or-set_ne [] i j v d h = ground arith
  get_or-set_ne (x ∷ xs) zero zero v d h = absurd (omega arith)
  get_or-set_ne (x ∷ xs) zero (suc j) v d h = ground arith
  get_or-set_ne (x ∷ xs) (suc i) zero v d h = ground arith
  get_or-set_ne (x ∷ xs) (suc i) (suc j) v d h = get_or-set_ne xs i j v d (omega arith)

  pub get_or-replicate : (n j : ℕ) (d : A) → get_or (replicate n d) j d ≡ d
  get_or-replicate zero j d = ground arith
  get_or-replicate (suc n) zero d = ground arith
  get_or-replicate (suc n) (suc j) d = get_or-replicate n j d

  pub length-replicate : (n : ℕ) (d : A) → length (replicate n d) ≡ n
  length-replicate zero d = omega arith
  length-replicate (suc n) d = omega (arith, length-replicate n d)

  pub get_elem?-set :
      (xs : List A) (i j : ℕ) (v u : A)
      → get_elem? (set xs i v) j ≡ some u
      → ((j ≡ i) × (v ≡ u)) ⊎ ((j ≢ i) × (get_elem? xs j ≡ some u))
  get_elem?-set [] i j v u h = absurd (cc)
  get_elem?-set (x ∷ xs) zero zero v u h = inl (refl, some_inj v u h)
    where
      some_inj : (x y : A) → some x ≡ some y → x ≡ y
      some_inj x y h = cc
  get_elem?-set (x ∷ xs) zero (suc j) v u h = inr (λ e. absurd (omega arith), h)
  get_elem?-set (x ∷ xs) (suc i) zero v u h = inr (λ e. absurd (omega arith), h)
  get_elem?-set (x ∷ xs) (suc i) (suc j) v u h = elim (get_elem?-set xs i j v u h) [
    | inl (e, same) ↦ inl (omega arith, same)
    | inr (ne, old) ↦ inr (λ e. ne (omega arith), old)
  ]

  pub get_elem?-append :
      (xs : List A) (y : A) (j : ℕ) (u : A)
      → get_elem? (xs ++ y ∷ []) j ≡ some u
      → (get_elem? xs j ≡ some u) ⊎ ((j ≡ length xs) × (y ≡ u))
  get_elem?-append [] y zero u h = inr (refl, some_inj y u h)
    where
      some_inj : (x y : A) → some x ≡ some y → x ≡ y
      some_inj x y h = cc
  get_elem?-append [] y (suc j) u h = absurd (cc)
  get_elem?-append (x ∷ xs) y zero u h = inl h
  get_elem?-append (x ∷ xs) y (suc j) u h = elim (get_elem?-append xs y j u h) [
    | inl old ↦ inl old
    | inr (e, same) ↦ inr (omega arith, same)
  ]

  pub get_elem?-lt : (xs : List A) (j : ℕ) (u : A) → get_elem? xs j ≡ some u → j < length xs
  get_elem?-lt [] j u h = absurd (cc)
  get_elem?-lt (x ∷ xs) zero u h = omega arith
  get_elem?-lt (x ∷ xs) (suc j) u h = omega (arith, get_elem?-lt xs j u h)
