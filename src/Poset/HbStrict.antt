-- ===== src/Poset/HbStrict.antt =====
-- `hb_strict` of crates/lichtung-replay/src/poset.rs is `happens_before` of the clocks whose wire maps
-- it is given.
use lichtung.Prelude.{ℕ, String, List, [], ◌∷◌, Bool, true, false, ◌≡◌, ◌&&◌, ◌||◌, not, arith}
use lichtung.Map.{Map}
use lichtung.Clock.{VectorClock, happens_before}
use lichtung.Clock.Order.{any_less, all_keys, happens_before-any_less}
use lichtung.Poset.{hb_strict, hb_keys}

abbrev pub clock : Map ℕ → VectorClock
clock m = record { entries = m }

hb_keys_lem :
    (a b : Map ℕ) (ks : List String) (saw_less : Bool)
    → hb_keys a b ks saw_less
      ≡ not (any_less (clock b) (clock a) ks) && (saw_less || any_less (clock a) (clock b) ks)
unfolding hb_keys any_less
hb_keys_lem a b [] saw_less = ground arith
hb_keys_lem a b (k ∷ ks) saw_less =
    ground (arith, hb_keys_lem a b ks true, hb_keys_lem a b ks saw_less)

-- The replay's order on recorded clocks is the clock's `happens_before`.
pub hb_strict-eq-happens_before : (a b : Map ℕ) → hb_strict a b ≡ happens_before (clock a) (clock b)
unfolding hb_strict
hb_strict-eq-happens_before a b = ground (
  arith,
  happens_before-any_less (clock a) (clock b),
  hb_keys_lem a b (all_keys (clock a) (clock b)) false,
)
