-- ===== src/Desk/Pricing.antt =====
-- The pricing kernels of crates/lichtung-replay/examples/risk_desk.rs.
use lichtung.Prelude.{ℕ, zero, suc, List, [], ◌∷◌, ◌-◌, ◌%◌, ◌^◌, get_or, set, if◌then◌else◌}
use lichtung.Desk.{Floats}

module _ {F : Type 0} (fl : Floats F) where
  abbrev one : F
  one = fl.lit "1.0"

  unfoldable pub norm_cdf : F → F
  norm_cdf x =
      let k = fl.div one (fl.add one (fl.mul (fl.lit "0.2316419") (fl.abs x))) in
      let poly = fl.mul k (
        fl.add (fl.lit "0.319381530") (
          fl.mul k (
            fl.add (fl.lit "-0.356563782") (
              fl.mul k (
                fl.add (fl.lit "1.781477937") (
                  fl.mul k
                    (fl.add (fl.lit "-1.821255978") (fl.mul k (fl.lit "1.330274429"))))))))) in
      let nd =
        fl.div (fl.exp (fl.mul (fl.mul (fl.lit "-0.5") x) x))
          (fl.sqrt (fl.mul (fl.lit "2.0") fl.pi)) in
      if fl.ge x (fl.lit "0.0") then fl.sub one (fl.mul nd poly) else fl.mul nd poly

  unfoldable pub bs_call : F → F → F → F → F
  unfolding norm_cdf
  bs_call spot strike t vol =
      let r = fl.lit "0.0" in
      let srt = fl.mul vol (fl.sqrt t) in
      let d1 =
        fl.div
          (fl.add (fl.ln (fl.div spot strike))
            (fl.mul (fl.add r (fl.mul (fl.mul (fl.lit "0.5") vol) vol)) t))
          srt in
      let d2 = fl.sub d1 srt in
      fl.sub (fl.mul spot (norm_cdf d1))
        (fl.mul (fl.mul strike (fl.exp (fl.mul (fl.neg r) t))) (norm_cdf d2))

  -- `n as i32`, by its bits.
  abbrev pub as_i32 : ℕ → ℕ
  as_i32 n = n % 2 ^ 32

  -- The price of the call at a leaf of the tree, after `i` moves up.
  abbrev pub payoff : F → F → F → F → ℕ → ℕ → F
  payoff spot strike u d steps i =
      let st = fl.mul (fl.mul spot (fl.powi u (as_i32 i))) (fl.powi d (as_i32 (steps - i))) in
      fl.max (fl.sub st strike) (fl.lit "0.0")

  -- The loop that fills `v`, from `i` on, with `left` slots to go.
  unfoldable pub fill : (ℕ → F) → ℕ → ℕ → List F
  fill pay zero i = []
  fill pay (suc left) i = pay i ∷ fill pay left (suc i)

  abbrev pub mix : F → F → F → F
  mix p up down = fl.add (fl.mul p up) (fl.mul (fl.sub one p) down)

  -- `for i in 0..=step`, from `i` on, with `left` rounds to go; `v` is overwritten in place.
  unfoldable pub sweep : F → ℕ → ℕ → List F → List F
  sweep p zero i v = v
  sweep p (suc left) i v =
      sweep p left (suc i)
        (set v i (mix p (get_or v (suc i) (fl.lit "0.0")) (get_or v i (fl.lit "0.0"))))

  -- `for step in (0..steps).rev()`
  unfoldable pub induct : F → ℕ → List F → List F
  unfolding sweep
  induct p zero v = v
  induct p (suc step) v = induct p step (sweep p (suc step) 0 v)

  unfoldable pub crr_call : F → F → F → F → ℕ → F
  unfolding fill induct
  crr_call spot strike t vol steps =
      let dt = fl.div t (fl.of_nat steps) in
      let u = fl.exp (fl.mul vol (fl.sqrt dt)) in
      let d = fl.div one u in
      let p = fl.div (fl.sub one d) (fl.sub u d) in
      let v = fill (payoff spot strike u d steps) (suc steps) 0 in
      get_or (induct p steps v) 0 (fl.lit "0.0")
