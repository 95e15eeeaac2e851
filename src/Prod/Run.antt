-- ===== src/Prod/Run.antt =====
-- Runs of crates/lichtung-prod/src/system.rs, with their length and their origins.
use lichtung.Prelude.{
  ℕ, zero, suc, String, List, [], ◌∷◌, ◌++◌, some, ◌+◌, ◌≡◌, ◌≢◌, inl, inr, refl, In, get_elem?,
  set, ap, sym, ◌∙◌,
}
use lichtung.Prod.{Task}
use lichtung.Prod.System.{System, Step, new_system, spawns, sends}

module _ {A P : Type 0} where
  unfoldable pub names : List (Task A P) → List String
  names [] = []
  names (t ∷ tasks) = t.id ∷ names tasks

  pub names-append : (xs ys : List (Task A P)) → names (xs ++ ys) ≡ names xs ++ names ys
  unfolding names
  names-append [] ys = refl
  names-append (x ∷ xs) ys = ap (λ ns. x.id ∷ ns) (names-append xs ys)

  some_inj : (x y : Task A P) → some x ≡ some y → x ≡ y
  some_inj x y h = cc

  pub names-set :
      (tasks : List (Task A P)) (i : ℕ) (t t' : Task A P)
      → get_elem? tasks i ≡ some t
      → t'.id ≡ t.id
      → names (set tasks i t') ≡ names tasks
  unfolding names
  names-set [] i t t' h e = refl
  names-set (x ∷ tasks) zero t t' h e =
      ap (λ n. n ∷ names tasks) (e ∙ ap (λ (t : Task A P). t.id) (sym (some_inj x t h)))
  names-set (x ∷ tasks) (suc i) t t' h e = ap (λ ns. x.id ∷ ns) (names-set tasks i t t' h e)

  pub In-names :
      (tasks : List (Task A P)) (i : ℕ) (t : Task A P)
      → get_elem? tasks i ≡ some t
      → In t.id (names tasks)
  unfolding names
  In-names [] i t h = absurd (cc)
  In-names (x ∷ tasks) zero t h = inl (ap (λ (t : Task A P). t.id) (sym (some_inj x t h)))
  In-names (x ∷ tasks) (suc i) t h = inr (In-names tasks i t h)

  -- An actor is spawned under a name of its own, which is not that of the origin.
  abbrev pub IsNamed : {s s' : System A P} → Step s s' → Type 0
  IsNamed {s} (spawns name actor state e) = (name ≢ "world") × (¬ In name (names s.tasks))
  IsNamed _ = Unit

  -- How many calls of `send_external` the step is.
  abbrev pub origins : {s s' : System A P} → Step s s' → ℕ
  origins (sends to msg e) = 1
  origins _ = 0

  -- The states after `n` steps with `o` calls of `send_external`.
  pub data Run : ℕ → ℕ → System A P → Type 0 where
    begun : Run 0 0 new_system
    next :
        {n o : ℕ} {s s' : System A P}
        → Run n o s
        → (step : Step s s') → IsNamed step
        → Run (n + 1) (o + origins step) s'
