-- ===== src/Prod/Handler/Operations.antt =====
-- The operations of a loop of crates/lichtung-prod that runs by itself, one after the other, and
-- `Context::compute` of crates/lichtung-core/src/context.rs as one of them.
use lichtung.Prelude.{
  ℕ, List, ◌∷◌, Option, none, some, Bool, ◌≡◌, refl, get_elem?, set, ap, sym, ◌∙◌, subst,
}
use lichtung.Core.{Action, compute_step, perform, compute}
use lichtung.Prod.{SharedRuntime, Task, Phase, running, prod_dispatch}
use lichtung.Prod.System.{System, step_task, step_at, advance, do_compute}
use lichtung.Prod.Handler.{
  masked, mask, context, Alone, stop, step, Reaches, get_elem?-set_self, set-set, mask-set,
}

module _ {A P : Type 0} where
  pub step_is :
      (i : ℕ) (t : Task A P) (s : System A P) (p : Phase P)
      → get_elem? s.tasks i ≡ some t
      → t.phase ≡ p
      → step_task s i ≡ step_at i t p s
  unfolding step_task
  step_is i t s p at e =
      ap (λ (r : Option (Task A P)). elim r [ none ↦ s | some t ↦ step_at i t t.phase s ]) at
      ∙ ap (λ p. step_at i t p s) e

  -- The first of several operations.
  pub first : {i : ℕ} {s s' s'' : System A P} → step_task s i ≡ s' → Alone i s' s'' → Alone i s s''
  first {i} {s} {s'} {s''} e a = step (subst (λ x. Alone i x s'') (sym e) a)

  module _ (i : ℕ) (t : Task A P) (s : System A P) (at : get_elem? s.tasks i ≡ some t) where
    -- The system with the task and the shared runtime replaced.
    abbrev pub placed : Task A P → SharedRuntime → System A P
    placed t' shared = record s { tasks = set s.tasks i t'; shared = shared }

    pub placed_at : (t' : Task A P) → get_elem? (set s.tasks i t') i ≡ some t'
    placed_at t' = get_elem?-set_self s.tasks i t t' at

    -- A later operation that is no delivery.
    pub placed_step :
        (t₁ : Task A P) (shared : SharedRuntime) (p : Phase P)
        → t₁.phase ≡ p
        → step_at i t₁ p (placed t₁ shared) ≡ record s {
          tasks = set (set s.tasks i t₁) i (advance p t₁ shared).0;
          shared = (advance p t₁ shared).1;
        }
        → step_task (placed t₁ shared) i ≡ placed (advance p t₁ shared).0 (advance p t₁ shared).1
    placed_step t₁ shared p e m =
        step_is i t₁ (placed t₁ shared) p (placed_at t₁) e
        ∙ m
        ∙ ap (λ tasks. record s { tasks = tasks; shared = (advance p t₁ shared).1 })
            (set-set s.tasks i t₁ (advance p t₁ shared).0)

    -- A context in which only the tasks are to be compared.
    pub same_tasks :
        (t' : Task A P) (shared : SharedRuntime) (tasks : List (Task A P))
        → masked t' ≡ masked t
        → tasks ≡ mask i s.tasks
        → context i t' (placed t' shared) ≡ record {
          id = t'.id;
          clock = t'.clock;
          lamport = t'.lamport;
          seq = t'.seq;
          backend = (shared, tasks);
        }
    same_tasks t' shared tasks m e =
        ap
          (λ tasks. record {
            id = t'.id;
            clock = t'.clock;
            lamport = t'.lamport;
            seq = t'.seq;
            backend = (shared, tasks);
          })
          (mask-set s.tasks i t t' at m ∙ sym e)

    pub compute-Reaches :
        (busy : Bool) (rest : List (Action P))
        → t.phase ≡ running busy (compute_step ∷ rest)
        → Reaches i t s (running busy rest) (perform prod_dispatch (context i t s) compute_step)
    unfolding perform compute step_at advance do_compute prod_dispatch
    compute-Reaches busy rest e =
        let r = do_compute busy rest t s.shared in
        record {
          after = placed r.0 r.1;
          task = r.0;
          alone = first (step_is i t s (running busy (compute_step ∷ rest)) at e) stop;
          there = placed_at r.0;
          phase = refl;
          state = refl;
          seen = same_tasks r.0 r.1 (mask i s.tasks) refl refl;
          main = refl;
          lost = refl;
        }
