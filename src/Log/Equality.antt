-- ===== src/Log/Equality.antt =====
-- The derived `==` of operations and of optional texts against equality of the values.
use lichtung.Prelude.{String, Option, none, some, true, ◌≡◌, arith, ◌↔◌, eq_iff, str_eq}
use lichtung.Log.{Op, emit, recv, compute, report, drop, op_eq, option_eq}

pub op_eq_iff : (a b : Op) → (op_eq a b ≡ true) ↔ (a ≡ b)
unfolding op_eq
op_eq_iff emit b = ground arith
op_eq_iff recv b = ground arith
op_eq_iff compute b = ground arith
op_eq_iff report b = ground arith
op_eq_iff drop b = ground arith

pub texts_eq_iff : (a b : Option String) → (option_eq str_eq a b ≡ true) ↔ (a ≡ b)
unfolding option_eq
texts_eq_iff none none = ground arith
texts_eq_iff none (some t) = ground arith
texts_eq_iff (some s) none = ground arith
texts_eq_iff (some s) (some t) = ground (arith, eq_iff s t)
