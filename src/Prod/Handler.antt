-- ===== src/Prod/Handler.antt =====
-- A handler that no other thread interrupts: the operations of crates/lichtung-prod/src/system.rs against
-- the calls of `Context` in crates/lichtung-core/src/context.rs.
pub mod Deliveries
mod Operations
mod Sends
pub mod Calls
pub mod Returns
use lichtung.Prelude.{
  ℕ, zero, suc, List, [], ◌∷◌, Option, none, some, Bool, ◌≡◌, refl, get_elem?, set, ap, ap₂, sym,
  ◌∙◌,
}
use lichtung.Clock.{new, start}
use lichtung.Core.{Context}
use lichtung.Prod.{SharedRuntime, Task, Phase, waiting}
use lichtung.Prod.System.{System, step_task}

module _ {A P : Type 0} where
  -- What other threads see of a task whose handler runs.
  abbrev pub masked : Task A P → Task A P
  masked t = record t { clock = new; lamport = start; seq = 0; phase = waiting }

  unfoldable pub mask : ℕ → List (Task A P) → List (Task A P)
  mask i [] = []
  mask zero (t ∷ tasks) = masked t ∷ tasks
  mask (suc i) (t ∷ tasks) = t ∷ mask i tasks

  -- The context that a handler of task `i` sees: the variables of its loop, and the rest of the
  -- system as its backend.
  abbrev pub context : ℕ → Task A P → System A P → Context (SharedRuntime × List (Task A P))
  context i t s = record {
    id = t.id;
    clock = t.clock;
    lamport = t.lamport;
    seq = t.seq;
    backend = (s.shared, mask i s.tasks);
  }

  -- Operations of task `i` only.
  pub data Alone (i : ℕ) : System A P → System A P → Type 0 where
    stop : {s : System A P} → Alone i s s
    step : {s s' : System A P} → Alone i (step_task s i) s' → Alone i s s'

  -- The task comes to the phase by itself, with this context, and its main thread stands still.
  pub record Reaches (i : ℕ) (t : Task A P) (s : System A P) (p : Phase P)
      (c : Context (SharedRuntime × List (Task A P))) : Type 0 where
    pub after : System A P
    pub task : Task A P
    pub alone : Alone i s after
    pub there : get_elem? after.tasks i ≡ some task
    pub phase : task.phase ≡ p
    pub state : task.state ≡ t.state
    pub seen : context i task after ≡ c
    pub main : after.main ≡ s.main
    pub lost : after.lost ≡ s.lost

  pub Alone-trans : (i : ℕ) {s s' s'' : System A P} → Alone i s s' → Alone i s' s'' → Alone i s s''
  Alone-trans i stop b = b
  Alone-trans i (step a) b = step (Alone-trans i a b)

  pub Reaches-trans :
      (i : ℕ) (t : Task A P) (s : System A P) (p q : Phase P)
      (c d : Context (SharedRuntime × List (Task A P))) (r : Reaches i t s p c)
      → Reaches i r.task r.after q d
      → Reaches i t s q d
  Reaches-trans i t s p q c d r r' = record {
    after = r'.after;
    task = r'.task;
    alone = Alone-trans i r.alone r'.alone;
    there = r'.there;
    phase = r'.phase;
    state = r'.state ∙ r.state;
    seen = r'.seen;
    main = r'.main ∙ r.main;
    lost = r'.lost ∙ r.lost;
  }

  pub get_elem?-set_self :
      (tasks : List (Task A P)) (i : ℕ) (t t' : Task A P)
      → get_elem? tasks i ≡ some t
      → get_elem? (set tasks i t') i ≡ some t'
  get_elem?-set_self [] i t t' h = absurd (cc)
  get_elem?-set_self (x ∷ tasks) zero t t' h = refl
  get_elem?-set_self (x ∷ tasks) (suc i) t t' h = get_elem?-set_self tasks i t t' h

  pub set-set :
      (tasks : List (Task A P)) (i : ℕ) (t t' : Task A P)
      → set (set tasks i t) i t' ≡ set tasks i t'
  set-set [] i t t' = refl
  set-set (x ∷ tasks) zero t t' = refl
  set-set (x ∷ tasks) (suc i) t t' = ap (λ l. x ∷ l) (set-set tasks i t t')

  some_inj : (x y : Task A P) → some x ≡ some y → x ≡ y
  some_inj x y h = cc

  pub mask-set :
      (tasks : List (Task A P)) (i : ℕ) (t t' : Task A P)
      → get_elem? tasks i ≡ some t
      → masked t' ≡ masked t
      → mask i (set tasks i t') ≡ mask i tasks
  unfolding mask
  mask-set [] i t t' h e = absurd (cc)
  mask-set (x ∷ tasks) zero t t' h e = ap (λ y. y ∷ tasks) (e ∙ ap masked (sym (some_inj x t h)))
  mask-set (x ∷ tasks) (suc i) t t' h e = ap (λ l. x ∷ l) (mask-set tasks i t t' h e)
