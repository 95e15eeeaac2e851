-- ===== src/Desk/Tree.antt =====
-- The in-place loop of `crr_call` in crates/lichtung-replay/examples/risk_desk.rs prices the binomial tree.
use lichtung.Prelude.{
  ℕ, zero, suc, List, ◌+◌, ◌≡◌, ◌≤◌, ◌<◌, refl, arith, ap, ap₂, ◌∙◌, get_or, length, length-set,
  get_or-set_self, get_or-set_ne, dec_lt,
}
use lichtung.Desk.{Floats}
use lichtung.Desk.Pricing.{payoff, fill, mix, sweep, induct, crr_call}

module _ {F : Type 0} (fl : Floats F) where
  -- The tree: the value `levels` moves before the leaves, after `i` moves up.
  pub tree_value : F → (ℕ → F) → ℕ → ℕ → F
  tree_value p pay zero i = pay i
  tree_value p pay (suc levels) i =
      mix fl p (tree_value p pay levels (suc i)) (tree_value p pay levels i)

  abbrev zero_price : F
  zero_price = fl.lit "0.0"

  get_or-fill :
      (pay : ℕ → F) (left i j : ℕ)
      → j < left
      → get_or (fill fl pay left i) j zero_price ≡ pay (i + j)
  unfolding fill
  get_or-fill pay zero i j h = absurd (omega arith)
  get_or-fill pay (suc left) i zero h = ap pay (omega arith)
  get_or-fill pay (suc left) i (suc j) h =
      get_or-fill pay left (suc i) j (omega arith) ∙ ap pay (omega arith)

  length-fill : (pay : ℕ → F) (left i : ℕ) → length (fill fl pay left i) ≡ left
  unfolding fill
  length-fill pay zero i = refl
  length-fill pay (suc left) i = omega (arith, length-fill pay left (suc i))

  length-sweep : (p : F) (left i : ℕ) (v : List F) → length (sweep fl p left i v) ≡ length v
  unfolding sweep
  length-sweep p zero i v = refl
  length-sweep p (suc left) i v = length-sweep p left (suc i) _ ∙ length-set v i _

  abbrev at : List F → ℕ → F
  at v j = get_or v j zero_price

  -- A sweep writes the slots from `i` on, and each from its own old value and that of the next slot.
  at-sweep_below : (p : F) (left i j : ℕ) (v : List F) → j < i → at (sweep fl p left i v) j ≡ at v j
  unfolding sweep
  at-sweep_below p zero i j v h = refl
  at-sweep_below p (suc left) i j v h =
      at-sweep_below p left (suc i) j _ (omega arith)
      ∙ get_or-set_ne v i j _ zero_price (λ e. absurd (omega arith))

  at-sweep :
      (p : F) (left i j : ℕ) (v : List F)
      → i ≤ j
      → j < i + left
      → i + left < length v
      → at (sweep fl p left i v) j ≡ mix fl p (at v (suc j)) (at v j)
  unfolding sweep
  at-sweep p zero i j v a b c = absurd (omega arith)
  at-sweep p (suc left) i j v a b c = elim (dec_lt i j) [
    | yes later ↦
        at-sweep p left (suc i) j _ (omega arith) (omega arith)
          (omega (arith, length-set v i (mix fl p (at v (suc i)) (at v i))))
        ∙ ap₂ (mix fl p) (get_or-set_ne v i (suc j) _ zero_price (λ e. absurd (omega arith)))
            (get_or-set_ne v i j _ zero_price (λ e. absurd (omega arith)))
    | no here ↦
        let e : j ≡ i = omega arith in
        rw e (
          at-sweep_below p left (suc i) i _ (omega arith)
          ∙ get_or-set_self v i _ zero_price (omega arith))
  ]

  at-induct :
      (p : F) (pay : ℕ → F) (step levels : ℕ) (v : List F)
      → step < length v
      → ((j : ℕ) → j ≤ step → at v j ≡ tree_value p pay levels j)
      → at (induct fl p step v) 0 ≡ tree_value p pay (levels + step) 0
  unfolding induct tree_value
  at-induct p pay zero levels v h old =
      old 0 (omega arith) ∙ ap (λ l. tree_value p pay l 0) (omega arith)
  at-induct p pay (suc step) levels v h old =
      at-induct p pay step (suc levels) _ (omega (arith, length-sweep p (suc step) 0 v)) (λ j le.
        at-sweep p (suc step) 0 j v (omega arith) (omega arith) (omega arith)
        ∙ ap₂ (mix fl p) (old (suc j) (omega arith)) (old j (omega arith)))
      ∙ ap (λ l. tree_value p pay l 0) (omega arith)

  -- `crr_call`, which overwrites one array in place, computes the value at the root of the binomial
  -- tree with that many levels: each node is the mix of its two successors, each leaf its payoff.
  -- Whatever the operations on floats do.
  pub crr_call-tree_value :
      (spot strike t vol : F) (steps : ℕ)
      → let dt = fl.div t (fl.of_nat steps) in
        let u = fl.exp (fl.mul vol (fl.sqrt dt)) in
        let d = fl.div (fl.lit "1.0") u in
        let p = fl.div (fl.sub (fl.lit "1.0") d) (fl.sub u d) in
        crr_call fl spot strike t vol steps ≡ tree_value p (payoff fl spot strike u d steps) steps 0
  unfolding crr_call tree_value
  crr_call-tree_value spot strike t vol steps =
      let dt = fl.div t (fl.of_nat steps) in
      let u = fl.exp (fl.mul vol (fl.sqrt dt)) in
      let d = fl.div (fl.lit "1.0") u in
      let p = fl.div (fl.sub (fl.lit "1.0") d) (fl.sub u d) in
      let pay = payoff fl spot strike u d steps in
      at-induct p pay steps 0 (fill fl pay (suc steps) 0)
        (omega (arith, length-fill pay (suc steps) 0))
        (λ j le. get_or-fill pay (suc steps) 0 j (omega arith) ∙ ap pay (omega arith))
      ∙ ap (λ l. tree_value p pay l 0) (omega arith)
