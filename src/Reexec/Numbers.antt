-- ===== src/Reexec/Numbers.antt =====
-- `parse_mid` of crates/lichtung-replay/src/reexec.rs reads what `mid` of crates/lichtung-core/src/event.rs
-- writes.
use Prim.Native.String.{◌++◌}
use text.Mathlib.TextLemmas.{nil-append, cons-append}
use lichtung.Prelude.{ℕ, String, some, ◌≤◌, ◌≡◌, ap, ◌∙◌}
use lichtung.Prelude.Words.{u64_max}
use lichtung.Prelude.Decimal.{show, parse_u64-show}
use lichtung.Core.Event.{mid}
use lichtung.Reexec.{parse_mid}
use lichtung.Reexec.Backend.{parse_mid?}

cons_eq : (s : String) → "m" ++ s ≡ String.◌∷◌ "m" s
cons_eq s = cons-append "m" "" s ∙ ap (String.◌∷◌ "m") (nil-append s)

-- The number of a recorded message is read back, for all numbers in `u64`.
pub parse_mid-mid : (n : ℕ) → n ≤ u64_max → parse_mid? (mid n) ≡ some n
unfolding mid parse_mid
parse_mid-mid n h = ap parse_mid (cons_eq (show n)) ∙ parse_u64-show n h
