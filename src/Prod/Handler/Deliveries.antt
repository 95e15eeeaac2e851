-- ===== src/Prod/Handler/Deliveries.antt =====
-- `TokioTx::try_send` of crates/lichtung-prod/src/mailbox.rs does not see what a running handler keeps to
-- itself.
use lichtung.Prelude.{
  ℕ, zero, suc, List, [], ◌∷◌, Option, none, some, false, ◌≡◌, refl, get_elem?, ap, ◌∙◌, Bool-cases,
  inl, inr,
}
use lichtung.Core.Event.{Envelope}
use lichtung.Prod.{Task, deliver, is_closed}
use lichtung.Prod.Handler.{mask, masked}

module _ {A P : Type 0} where
  abbrev pub mask_result : ℕ → Option (List (Task A P)) → Option (List (Task A P))
  mask_result i none = none
  mask_result i (some tasks) = some (mask i tasks)

  some_inj : (x y : Task A P) → some x ≡ some y → x ≡ y
  some_inj x y h = cc

  -- One mailbox further.
  abbrev behind : Task A P → Option (List (Task A P)) → Option (List (Task A P))
  behind t r = elim r [ none ↦ none | some tasks ↦ some (t ∷ tasks) ]

  behind-mask :
      (i : ℕ) (t : Task A P) (r : Option (List (Task A P)))
      → behind t (mask_result i r) ≡ mask_result (suc i) (behind t r)
  unfolding mask
  behind-mask i t none = refl
  behind-mask i t (some tasks) = refl

  first-mask :
      (t : Task A P) (r : Option (List (Task A P)))
      → behind (masked t) r ≡ mask_result zero (behind t r)
  unfolding mask
  first-mask t none = refl
  first-mask t (some tasks) = refl

  pub deliver-mask :
      (sink : ℕ) (env : Envelope P) (tasks : List (Task A P)) (i : ℕ) (t : Task A P)
      → get_elem? tasks i ≡ some t
      → is_closed t.phase ≡ false
      → deliver sink env (mask i tasks) ≡ mask_result i (deliver sink env tasks)
  unfolding deliver mask
  deliver-mask sink env [] i t h opened = absurd (cc)
  deliver-mask zero env (x ∷ tasks) zero t h opened =
      let e : is_closed x.phase ≡ false =
        ap (λ (t : Task A P). is_closed t.phase) (some_inj x t h) ∙ opened in
      simp e refl
  deliver-mask zero env (x ∷ tasks) (suc i) t h opened = elim (Bool-cases (is_closed x.phase)) [
    | inl shut ↦ simp shut refl
    | inr free ↦ simp free refl
  ]
  deliver-mask (suc sink) env (x ∷ tasks) zero t h opened = first-mask x (deliver sink env tasks)
  deliver-mask (suc sink) env (x ∷ tasks) (suc i) t h opened =
      ap (behind x) (deliver-mask sink env tasks i t h opened)
      ∙ behind-mask i x (deliver sink env tasks)
