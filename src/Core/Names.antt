-- ===== src/Core/Names.antt =====
-- `id_of` and `mid` of crates/lichtung-core/src/event.rs name an event and a message uniquely.
use Prim.Native.Char.{Char}
use Prim.Native.String.{◌++◌}
use text.Mathlib.TextLemmas.{nil-append, cons-append, append_cancel_left}
use lichtung.Prelude.{
  ℕ, String, Option, none, some, ◌≤◌, ◌≡◌, refl, arith, ap, sym, ap₂, subst, ◌∙◌,
}
use lichtung.Prelude.Decimal.{show, show-AllDigits, AllDigits, show_inj}
use lichtung.Prelude.Words.{u64_max}
use lichtung.Core.Event.{id_of, mid}

abbrev head_of : Char → String → Char
head_of c String.[] = c
head_of c (String.◌∷◌ d s) = d

abbrev rest_of : String → String
rest_of String.[] = ""
rest_of (String.◌∷◌ c s) = s

-- `a`, a `:` and `s`, as a recursion on `a`.
joined : String → String → String
joined String.[] s = String.◌∷◌ ":" s
joined (String.◌∷◌ c a) s = String.◌∷◌ c (joined a s)

append-joined : (a s : String) → a ++ (":" ++ s) ≡ joined a s
unfolding joined
append-joined String.[] s =
    nil-append (":" ++ s) ∙ cons-append ":" "" s ∙ ap (String.◌∷◌ ":") (nil-append s)
append-joined (String.◌∷◌ c a) s =
    cons-append c a (":" ++ s) ∙ ap (String.◌∷◌ c) (append-joined a s)

-- No `:` stands among digits.
no_colon : (t u : String) → AllDigits (joined t u) → ⊥
unfolding joined
no_colon String.[] u (low, high, d) = omega (arith, high)
no_colon (String.◌∷◌ c t) u (low, high, d) = no_colon t u d

-- A text of digits after a `:` begins behind the last `:`.
split_at_last :
    (a b s t : String) → AllDigits s → AllDigits t → joined a s ≡ joined b t → (a ≡ b) × (s ≡ t)
unfolding joined
split_at_last String.[] String.[] s t d e h = (refl, ap rest_of h)
split_at_last String.[] (String.◌∷◌ c b) s t d e h =
    absurd (no_colon b t (subst AllDigits (ap rest_of h) d))
split_at_last (String.◌∷◌ c a) String.[] s t d e h =
    absurd (no_colon a s (subst AllDigits (sym (ap rest_of h)) e))
split_at_last (String.◌∷◌ c a) (String.◌∷◌ c' b) s t d e h =
    let (p, q) = split_at_last a b s t d e (ap rest_of h) in
    (ap₂ String.◌∷◌ (ap (head_of c) h) p, q)

-- Events of different actors, or of one actor with different sequence numbers, have different ids,
-- whatever the actors' names are: for sequence numbers in `u64`, equal ids have equal actors and
-- equal numbers.
pub id_of_inj :
    (a b : String) (s t : ℕ) → s ≤ u64_max → t ≤ u64_max → id_of a s ≡ id_of b t → (a ≡ b) × (s ≡ t)
unfolding id_of
id_of_inj a b s t p q h =
    let (e, f) =
      split_at_last a b (show s) (show t) (show-AllDigits s) (show-AllDigits t)
        (sym (append-joined a (show s)) ∙ h ∙ append-joined b (show t)) in
    (e, show_inj s t p q f)

unwrap : Option String → String
unwrap none = ""
unwrap (some s) = s

-- Different message numbers in `u64` are recorded as different message ids.
pub mid_inj : (m n : ℕ) → m ≤ u64_max → n ≤ u64_max → mid m ≡ mid n → m ≡ n
unfolding mid unwrap
mid_inj m n p q h = show_inj m n p q (append_cancel_left "m" (show m) (show n) (ap unwrap h))
