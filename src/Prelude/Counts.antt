-- ===== src/Prelude/Counts.antt =====
-- Lists of numbers without repetition, by counting; and where a number stands in such a list.
use Prim.Native.Nat.{ℕ, zero, suc, ◌+◌, ◌≤◌, ◌<◌}
use mathlib.Core.Path.{◌≡◌, refl}
use mathlib.Core.Bool.{Bool, true, false}
use mathlib.Core.List.{List, [], ◌∷◌, ◌++◌}
use native.Mathlib.Omega.{arith}
use native.Mathlib.Decide.{dec_lt}
use lichtung.Prelude.Tests.{ltb, ◌==◌, if◌then◌else◌}
use lichtung.Prelude.Lists.{length}

abbrev pub one_if : Bool → ℕ
one_if true = 1
one_if false = 0

-- How often `j` stands in the list.
unfoldable pub count : ℕ → List ℕ → ℕ
count j [] = 0
count j (x ∷ xs) = one_if (x == j) + count j xs

pub count-append : (j : ℕ) (xs ys : List ℕ) → count j (xs ++ ys) ≡ count j xs + count j ys
unfolding count
count-append j [] ys = omega arith
count-append j (x ∷ xs) ys = omega (arith, count-append j xs ys)

-- Where `j` stands first; the length of the list if nowhere.
unfoldable pub position : ℕ → List ℕ → ℕ
position j [] = 0
position j (x ∷ xs) = if x == j then 0 else suc (position j xs)

pub position-append_old :
    (j : ℕ) (xs ys : List ℕ) → 0 < count j xs → position j (xs ++ ys) ≡ position j xs
unfolding count position
position-append_old j [] ys h = absurd (omega arith)
position-append_old j (x ∷ xs) ys h = ground (arith, position-append_old j xs ys)

pub position-append_new :
    (j : ℕ) (xs ys : List ℕ) → count j xs ≡ 0 → position j (xs ++ j ∷ ys) ≡ length xs
unfolding count position
position-append_new j [] ys h = ground arith
position-append_new j (x ∷ xs) ys h = ground (arith, position-append_new j xs ys)

pub position-lt : (j : ℕ) (xs : List ℕ) → 0 < count j xs → position j xs < length xs
unfolding count position
position-lt j [] h = absurd (omega arith)
position-lt j (x ∷ xs) h = ground (arith, position-lt j xs)

-- The counts of the numbers below `n`, added up.
pub total : ℕ → List ℕ → ℕ
total zero xs = 0
total (suc n) xs = total n xs + count n xs

total-nil : (n : ℕ) → total n [] ≡ 0
unfolding total count
total-nil zero = refl
total-nil (suc n) = omega (arith, total-nil n)

total-cons : (n x : ℕ) (xs : List ℕ) → total n (x ∷ xs) ≡ one_if (ltb x n) + total n xs
unfolding total count
total-cons zero x xs = ground arith
total-cons (suc n) x xs = ground (arith, total-cons n x xs)

-- All of the list is below `n`.
abbrev pub AllBelow : ℕ → List ℕ → Type 0
AllBelow n xs = (j : ℕ) → 0 < count j xs → j < n

AllBelow-tail : (n x : ℕ) (xs : List ℕ) → AllBelow n (x ∷ xs) → AllBelow n xs
unfolding count
AllBelow-tail n x xs h j p = h j (omega arith)

AllBelow-head : (n x : ℕ) (xs : List ℕ) → AllBelow n (x ∷ xs) → x < n
unfolding count
AllBelow-head n x xs h = h x (ground arith)

total-AllBelow : (n : ℕ) (xs : List ℕ) → AllBelow n xs → total n xs ≡ length xs
total-AllBelow n [] h = total-nil n
total-AllBelow n (x ∷ xs) h =
    ground (
      arith,
      total-cons n x xs,
      AllBelow-head n x xs h,
      total-AllBelow n xs (AllBelow-tail n x xs h),
    )

total-le : (n : ℕ) (xs : List ℕ) → ((j : ℕ) → count j xs ≤ 1) → total n xs ≤ n
unfolding total
total-le zero xs h = omega arith
total-le (suc n) xs h = omega (arith, h n, total-le n xs h)

total-full : (n : ℕ) (xs : List ℕ) → ((j : ℕ) → j < n → count j xs ≡ 1) → total n xs ≡ n
unfolding total
total-full zero xs h = refl
total-full (suc n) xs h =
    omega (arith, h n (omega arith), total-full n xs (λ j p. h j (omega arith)))

full_of_total :
    (n : ℕ) (xs : List ℕ)
    → ((j : ℕ) → count j xs ≤ 1)
    → n ≤ total n xs
    → (j : ℕ) → j < n
    → count j xs ≡ 1
unfolding total
full_of_total zero xs once h j p = absurd (omega arith)
full_of_total (suc n) xs once h j p = elim (dec_lt j n) [
  | yes lt ↦ full_of_total n xs once (omega (arith, once n)) j lt
  | no ge ↦ last n (omega arith) (omega (arith, once n, total-le n xs once))
]
  where
    last : (k : ℕ) → j ≡ k → count k xs ≡ 1 → count j xs ≡ 1
    last k e h' = rw e h'

-- A list without repetition of numbers below `n` has at most `n` entries.
pub length-le : (n : ℕ) (xs : List ℕ) → AllBelow n xs → ((j : ℕ) → count j xs ≤ 1) → length xs ≤ n
length-le n xs h once = omega (arith, total-AllBelow n xs h, total-le n xs once)

-- It has `n` entries exactly when every number below `n` stands in it.
pub length_full :
    (n : ℕ) (xs : List ℕ)
    → AllBelow n xs
    → ((j : ℕ) → count j xs ≤ 1)
    → length xs ≡ n
    → (j : ℕ) → j < n
    → count j xs ≡ 1
length_full n xs h once e j p = full_of_total n xs once (omega (arith, total-AllBelow n xs h)) j p

pub full_length :
    (n : ℕ) (xs : List ℕ) → AllBelow n xs → ((j : ℕ) → j < n → count j xs ≡ 1) → length xs ≡ n
full_length n xs h all = omega (arith, total-AllBelow n xs h, total-full n xs all)
