-- ===== src/Prelude/Result.antt =====
-- Rust's `Result` and its `?`.
use mathlib.Core.Path.{◌≡◌, refl}

pub data Result (E A : Type 0) : Type 0 where
  ok : A → Result E A
  err : E → Result E A

-- `?`: the first error is the answer.
infixl 5 ◌>>=◌
abbrev pub ◌>>=◌ : {E A B : Type 0} → Result E A → (A → Result E B) → Result E B
err reason >>= k = err reason
ok value >>= k = k value

-- A chain that succeeded: so did its head, and the rest on the head's value.
pub >>=-ok :
    {E A B : Type 0} (head : Result E A) (k : A → Result E B) {answer : B}
    → (head >>= k) ≡ ok answer
    → (value : A) × (head ≡ ok value) × (k value ≡ ok answer)
>>=-ok (err reason) k e = cc
>>=-ok (ok value) k e = (value, refl, e)

module _ {E A B C : Type 0} where
  pub >>=-assoc :
      (m : Result E A) (f : A → Result E B) (g : B → Result E C)
      → ((m >>= f) >>= g) ≡ (m >>= λ a. f a >>= g)
  >>=-assoc (err reason) f g = refl
  >>=-assoc (ok value) f g = refl

module _ {E A B : Type 0} where
  pub >>=-congr :
      (m : Result E A) {f g : A → Result E B} → ((a : A) → f a ≡ g a) → (m >>= f) ≡ (m >>= g)
  >>=-congr (err reason) h = refl
  >>=-congr (ok value) h = h value

-- A result that is not an answer is an error.
pub err_of : {E A : Type 0} (r : Result E A) → ((a : A) → r ≡ ok a → ⊥) → (e : E) × (r ≡ err e)
err_of (ok a) h = absurd (h a refl)
err_of (err e) h = (e, refl)
