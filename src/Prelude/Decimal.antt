-- ===== src/Prelude/Decimal.antt =====
-- Rust's `Display` of `u64` and `str::parse::<u64>`: decimal digits, and back with an overflow check.
use Prim.Native.Nat.{ℕ, zero, suc, ◌+◌, ◌-◌, ◌*◌, ◌/◌, ◌%◌, ◌<◌, ◌≤◌}
use Prim.Native.Char.{Char, code}
use Prim.Native.String.{String}
use mathlib.Core.Path.{◌≡◌, refl, ap}
use mathlib.Core.Logic.{inl, inr, ◌≢◌}
use mathlib.Core.Bool.{◌&&◌}
use mathlib.Core.Option.{Option, none, some}
use native.Mathlib.Omega.{arith}
use native.Mathlib.Decide.{dec_lt}
use lichtung.Prelude.Tests.{ltb, leb, ◌==◌, if◌then◌else◌, Bool-cases}
use lichtung.Prelude.Words.{u64_max}

abbrev digit : ℕ → Char
digit zero = "0"
digit (suc zero) = "1"
digit (suc (suc zero)) = "2"
digit (suc (suc (suc zero))) = "3"
digit (suc (suc (suc (suc zero)))) = "4"
digit (suc (suc (suc (suc (suc zero))))) = "5"
digit (suc (suc (suc (suc (suc (suc zero)))))) = "6"
digit (suc (suc (suc (suc (suc (suc (suc zero))))))) = "7"
digit (suc (suc (suc (suc (suc (suc (suc (suc zero)))))))) = "8"
digit n = "9"

-- The digits of `n` in front of `rest`, last digit first.
show_digits : ℕ → ℕ → String → String
show_digits zero n rest = rest
show_digits (suc fuel) n rest =
    let more = show_digits fuel (n / 10) (String.◌∷◌ (digit (n % 10)) rest) in
    if ltb n 10 then String.◌∷◌ (digit n) rest else more

-- `format!("{}", n)`
unfoldable pub show : ℕ → String
unfolding show_digits
show n = show_digits (suc n) n ""

parse_digits : ℕ → String → Option ℕ
parse_digits n String.[] = some n
parse_digits n (String.◌∷◌ c s) =
    let next = n * 10 + (code c - 48) in
    let rest = parse_digits next s in
    if leb 48 (code c) && leb (code c) 57 && leb next u64_max then rest else none

-- `s.parse::<u64>().ok()`: one leading `+` is allowed, no digits are not, and a value over `u64::MAX`
-- is an error.
unfoldable pub parse_u64 : String → Option ℕ
unfolding parse_digits
parse_u64 String.[] = none
parse_u64 (String.◌∷◌ c String.[]) = parse_digits 0 (String.◌∷◌ c String.[])
parse_u64 (String.◌∷◌ c (String.◌∷◌ d s)) =
    if code c == 43
    then parse_digits 0 (String.◌∷◌ d s)
    else parse_digits 0 (String.◌∷◌ c (String.◌∷◌ d s))

code-digit : (n : ℕ) → n < 10 → code (digit n) ≡ n + 48
code-digit zero h = refl
code-digit (suc zero) h = refl
code-digit (suc (suc zero)) h = refl
code-digit (suc (suc (suc zero))) h = refl
code-digit (suc (suc (suc (suc zero)))) h = refl
code-digit (suc (suc (suc (suc (suc zero))))) h = refl
code-digit (suc (suc (suc (suc (suc (suc zero)))))) h = refl
code-digit (suc (suc (suc (suc (suc (suc (suc zero))))))) h = refl
code-digit (suc (suc (suc (suc (suc (suc (suc (suc zero)))))))) h = refl
code-digit (suc (suc (suc (suc (suc (suc (suc (suc (suc n))))))))) h = omega arith

parse_digits-show_digits :
    (fuel n : ℕ) (rest : String)
    → n < fuel
    → n ≤ u64_max
    → parse_digits 0 (show_digits fuel n rest) ≡ parse_digits n rest
unfolding parse_digits show_digits
parse_digits-show_digits zero n rest h b = absurd (omega arith)
parse_digits-show_digits (suc fuel) n rest h b = elim (dec_lt n 10) [
  | yes small ↦ ground (arith, code-digit n small)
  | no big ↦ ground (
    arith,
    parse_digits-show_digits fuel (n / 10) (String.◌∷◌ (digit (n % 10)) rest),
    code-digit (n % 10),
  )
]

-- Every character of a text is a digit.
abbrev pub AllDigits : String → Type 0
AllDigits String.[] = Unit
AllDigits (String.◌∷◌ c s) = (48 ≤ code c) × (code c ≤ 57) × AllDigits s

digit_bounds : (n : ℕ) → n < 10 → (48 ≤ code (digit n)) × (code (digit n) ≤ 57)
digit_bounds n h = omega (arith, code-digit n h)

show_digits-AllDigits :
    (fuel n : ℕ) (rest : String) → AllDigits rest → AllDigits (show_digits fuel n rest)
unfolding show_digits
show_digits-AllDigits zero n rest d = d
show_digits-AllDigits (suc fuel) n rest d = elim (dec_lt n 10) [
  | yes small ↦ ground (arith, digit_bounds n small)
  | no big ↦ ground (
    arith,
    show_digits-AllDigits fuel (n / 10) (String.◌∷◌ (digit (n % 10)) rest),
    digit_bounds (n % 10),
  )
]

pub show-AllDigits : (n : ℕ) → AllDigits (show n)
unfolding show
show-AllDigits n = show_digits-AllDigits (suc n) n "" tt

-- A text of digits does not begin with the sign that `parse` strips.
parse_u64-AllDigits :
    (s : String) → AllDigits s → (n : ℕ) → parse_digits 0 s ≡ some n → s ≢ "" → parse_u64 s ≡ some n
unfolding parse_u64
parse_u64-AllDigits String.[] d n h e = absurd (e refl)
parse_u64-AllDigits (String.◌∷◌ c String.[]) d n h e = h
parse_u64-AllDigits (String.◌∷◌ c (String.◌∷◌ c' s)) d n h e = ground arith

show_digits-cons :
    (fuel n : ℕ) (b : Char) (rest : String)
    → (c : Char) × (s : String) × (show_digits fuel n (String.◌∷◌ b rest) ≡ String.◌∷◌ c s)
unfolding show_digits
show_digits-cons zero n b rest = (b, rest, refl)
show_digits-cons (suc fuel) n b rest = elim (Bool-cases (ltb n 10)) [
  | inl small ↦ (digit n, String.◌∷◌ b rest, rw small)
  | inr big ↦ rw big (show_digits-cons fuel (n / 10) (digit (n % 10)) (String.◌∷◌ b rest))
]

show-cons : (n : ℕ) → (c : Char) × (s : String) × (show n ≡ String.◌∷◌ c s)
unfolding show show_digits
show-cons n = elim (Bool-cases (ltb n 10)) [
  | inl small ↦ (digit n, "", rw small)
  | inr big ↦ rw big (show_digits-cons n (n / 10) (digit (n % 10)) "")
]

show-ne-nil : (n : ℕ) → show n ≢ ""
show-ne-nil n e = let (c, s, h) = show-cons n in cc (e, h)

-- Reading back what was printed gives the number, up to `u64::MAX`.
pub parse_u64-show : (n : ℕ) → n ≤ u64_max → parse_u64 (show n) ≡ some n
unfolding show parse_digits
parse_u64-show n h =
    parse_u64-AllDigits (show n) (show-AllDigits n) n
      (parse_digits-show_digits (suc n) n "" (omega arith) h) (show-ne-nil n)

pub show_inj : (m n : ℕ) → m ≤ u64_max → n ≤ u64_max → show m ≡ show n → m ≡ n
show_inj m n p q e = cc (parse_u64-show m p, parse_u64-show n q, ap parse_u64 e)

test_show : show 1203 ≡ "1203"
unfolding show
test_show = refl

test_parse : parse_u64 "18446744073709551616" ≡ none
unfolding parse_u64
test_parse = refl
