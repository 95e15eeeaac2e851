-- ===== src/Prod/Watch.antt =====
-- What the steps of crates/lichtung-prod do to the main thread, which sleeps until the count is 0.
use lichtung.Prelude.{
  ℕ, List, [], Option, none, some, Bool, ◌+◌, ◌==◌, ◌≡◌, ◌≤◌, ◌<◌, ◌⊎◌, refl, arith, get_elem?, set,
  Bool-cases, inl, inr, ap, sym, ◌∙◌,
}
use lichtung.Prelude.Words.{u64_max}
use lichtung.Core.{Action}
use lichtung.Core.Event.{Envelope}
use lichtung.Prod.{
  Phase, Task, created, waiting, finished, ended, received, running, numbered, logged, counted,
  refused, finished_last, refused_last,
}
use lichtung.Prelude.Sums.{sum_by, sum_by-set}
use lichtung.Prod.Weight.{Raises, deliver-Raises}
use lichtung.Prod.Notify.{notifies, will_notify, Woken, Wakes, advance-Wakes}
use lichtung.Prod.System.{
  System, Main, Step, finish_send, step_at, step_task, panic_at, panic, abort_at, abort, spawn,
  send_external, step_main_at, step_main, ready, checking, sleeping, quiescent, origin_numbered,
  origin_logged, origin_counted, task, panics, aborts, main, spawns, sends, runs,
}

module _ {A P : Type 0} where
  -- While the main thread sleeps, a count of 0 comes with a wakeup, stored or to come.
  abbrev pub Watched : System A P → Type 0
  Watched s = s.main ≡ sleeping → s.shared.in_flight ≡ 0 → Woken s

  -- A step beside the main thread.
  abbrev Beside : System A P → System A P → Type 0
  Beside s s' = (s'.main ≡ s.main) × Wakes s s' × (s.lost ≤ s'.lost)

  unchanged-Beside : (s : System A P) → Beside s s
  unchanged-Beside s = (refl, λ z b w. w z, omega arith)

  -- Other tasks, with as many loops that will notify.
  moved-Beside :
      (s : System A P) (tasks : List (Task A P)) (lost : ℕ)
      → sum_by will_notify tasks ≡ sum_by will_notify s.tasks
      → s.lost ≤ lost
      → Beside s (record s { tasks = tasks; lost = lost })
  moved-Beside s tasks lost same le = (refl, λ z b w. kept (w z), omega arith)
    where
      kept : Woken s → Woken (record s { tasks = tasks })
      kept (inl stored) = inl stored
      kept (inr next) = inr (omega arith)

  -- The phase of a task changes between two in which it does not notify.
  calm :
      (s : System A P) (i : ℕ) (t t' : Task A P)
      → get_elem? s.tasks i ≡ some t
      → will_notify t ≡ will_notify t'
      → sum_by will_notify (set s.tasks i t') ≡ sum_by will_notify s.tasks
  calm s i t t' at e = omega (arith, sum_by-set will_notify s.tasks i t t' at)

  placed-Beside :
      (s : System A P) (tasks : List (Task A P))
      → sum_by will_notify tasks ≡ sum_by will_notify s.tasks
      → Beside s (record s { tasks = tasks })
  placed-Beside s tasks same =
      (refl, (moved-Beside s tasks s.lost same (omega arith)).1, omega arith)

  delivery-Beside :
      (i : ℕ) (t : Task A P) (sink : ℕ) (env : Envelope P) (busy : Bool) (rest : List (Action P))
      (s : System A P)
      → get_elem? s.tasks i ≡ some t
      → t.phase ≡ counted sink env busy rest
      → (r : Option (List (Task A P)))
      → Raises will_notify 0 (set s.tasks i (record t { phase = running busy rest })) r
      → Beside s (elim r [
        | some tasks ↦ record s { tasks = tasks }
        | none ↦ record s { tasks = set s.tasks i (record t { phase = refused busy rest }) }
      ])
  unfolding Raises
  delivery-Beside i t sink env busy rest s at e none g =
      placed-Beside s _ (calm s i t (record t { phase = refused busy rest }) at (ap notifies e))
  delivery-Beside i t sink env busy rest s at e (some tasks) g =
      placed-Beside s tasks
        (omega (arith, calm s i t (record t { phase = running busy rest }) at (ap notifies e)))

  step_at-Beside :
      (i : ℕ) (t : Task A P) (p : Phase P) (s : System A P)
      → get_elem? s.tasks i ≡ some t
      → t.phase ≡ p
      → Beside s (step_at i t p s)
  unfolding step_at finish_send
  step_at-Beside i t (counted sink env busy rest) s at e =
      delivery-Beside i t sink env busy rest s at e _ (
        deliver-Raises will_notify 0 sink env
          (set s.tasks i (record t { phase = running busy rest })) (λ t. omega arith))
  step_at-Beside i t created s at e = (refl, advance-Wakes i t s created at e, omega arith)
  step_at-Beside i t waiting s at e = (refl, advance-Wakes i t s waiting at e, omega arith)
  step_at-Beside i t finished s at e = (refl, advance-Wakes i t s finished at e, omega arith)
  step_at-Beside i t finished_last s at e =
      (refl, advance-Wakes i t s finished_last at e, omega arith)
  step_at-Beside i t ended s at e = (refl, advance-Wakes i t s ended at e, omega arith)
  step_at-Beside i t (received env) s at e =
      (refl, advance-Wakes i t s (received env) at e, omega arith)
  step_at-Beside i t (running busy calls) s at e =
      (refl, advance-Wakes i t s (running busy calls) at e, omega arith)
  step_at-Beside i t (numbered sink env busy rest) s at e =
      (refl, advance-Wakes i t s (numbered sink env busy rest) at e, omega arith)
  step_at-Beside i t (logged sink env busy rest) s at e =
      (refl, advance-Wakes i t s (logged sink env busy rest) at e, omega arith)
  step_at-Beside i t (refused busy rest) s at e =
      (refl, advance-Wakes i t s (refused busy rest) at e, omega arith)
  step_at-Beside i t (refused_last busy rest) s at e =
      (refl, advance-Wakes i t s (refused_last busy rest) at e, omega arith)

  step_task-Beside : (s : System A P) (i : ℕ) → Beside s (step_task s i)
  unfolding step_task
  step_task-Beside s i = cases (get_elem? s.tasks i) refl
    where
      cases :
          (r : Option (Task A P))
          → get_elem? s.tasks i ≡ r
          → Beside s (elim r [ none ↦ s | some t ↦ step_at i t t.phase s ])
      cases none at = unchanged-Beside s
      cases (some t) at = step_at-Beside i t t.phase s at refl

  dropped-Beside :
      (s : System A P) (i : ℕ) (t : Task A P) (lost : ℕ)
      → get_elem? s.tasks i ≡ some t
      → will_notify t ≡ 0
      → s.lost ≤ lost
      → Beside s
          (record s { tasks = set s.tasks i (record t { inbox = []; phase = ended }); lost = lost })
  dropped-Beside s i t lost at e le =
      moved-Beside s _ lost (calm s i t (record t { inbox = []; phase = ended }) at e) le

  panic_at-Beside :
      (i : ℕ) (t : Task A P) (p : Phase P) (s : System A P)
      → get_elem? s.tasks i ≡ some t
      → t.phase ≡ p
      → Beside s (panic_at i t p s)
  unfolding panic_at
  panic_at-Beside i t (running busy rest) s at e =
      dropped-Beside s i t _ at (ap notifies e) (omega arith)
  panic_at-Beside i t created s at e = unchanged-Beside s
  panic_at-Beside i t waiting s at e = unchanged-Beside s
  panic_at-Beside i t finished s at e = unchanged-Beside s
  panic_at-Beside i t finished_last s at e = unchanged-Beside s
  panic_at-Beside i t ended s at e = unchanged-Beside s
  panic_at-Beside i t (received env) s at e = unchanged-Beside s
  panic_at-Beside i t (numbered sink env busy rest) s at e = unchanged-Beside s
  panic_at-Beside i t (logged sink env busy rest) s at e = unchanged-Beside s
  panic_at-Beside i t (counted sink env busy rest) s at e = unchanged-Beside s
  panic_at-Beside i t (refused busy rest) s at e = unchanged-Beside s
  panic_at-Beside i t (refused_last busy rest) s at e = unchanged-Beside s

  panic-Beside : (s : System A P) (i : ℕ) → Beside s (panic s i)
  unfolding panic
  panic-Beside s i = cases (get_elem? s.tasks i) refl
    where
      cases :
          (r : Option (Task A P))
          → get_elem? s.tasks i ≡ r
          → Beside s (elim r [ none ↦ s | some t ↦ panic_at i t t.phase s ])
      cases none at = unchanged-Beside s
      cases (some t) at = panic_at-Beside i t t.phase s at refl

  abort_at-Beside :
      (i : ℕ) (t : Task A P) (p : Phase P) (s : System A P)
      → get_elem? s.tasks i ≡ some t
      → t.phase ≡ p
      → Beside s (abort_at i t p s)
  unfolding abort_at
  abort_at-Beside i t (running busy rest) s at e = unchanged-Beside s
  abort_at-Beside i t created s at e = dropped-Beside s i t _ at (ap notifies e) (omega arith)
  abort_at-Beside i t waiting s at e = dropped-Beside s i t _ at (ap notifies e) (omega arith)
  abort_at-Beside i t finished s at e = unchanged-Beside s
  abort_at-Beside i t finished_last s at e = unchanged-Beside s
  abort_at-Beside i t ended s at e = unchanged-Beside s
  abort_at-Beside i t (received env) s at e = unchanged-Beside s
  abort_at-Beside i t (numbered sink env busy rest) s at e = unchanged-Beside s
  abort_at-Beside i t (logged sink env busy rest) s at e = unchanged-Beside s
  abort_at-Beside i t (counted sink env busy rest) s at e = unchanged-Beside s
  abort_at-Beside i t (refused busy rest) s at e = unchanged-Beside s
  abort_at-Beside i t (refused_last busy rest) s at e = unchanged-Beside s

  abort-Beside : (s : System A P) (i : ℕ) → Beside s (abort s i)
  unfolding abort
  abort-Beside s i = cases (get_elem? s.tasks i) refl
    where
      cases :
          (r : Option (Task A P))
          → get_elem? s.tasks i ≡ r
          → Beside s (elim r [ none ↦ s | some t ↦ abort_at i t t.phase s ])
      cases none at = unchanged-Beside s
      cases (some t) at = abort_at-Beside i t t.phase s at refl

  -- What a step does to the main thread: it falls asleep only where the count is not 0, and finds the
  -- system quiescent only where it is.
  pub record Careful (s s' : System A P) : Type 0 where
    pub watched : Watched s → s.shared.in_flight < u64_max → Watched s'
    pub settled : s'.main ≡ quiescent → (s.main ≡ quiescent) ⊎ (s.shared.in_flight ≡ 0)
    pub losing : s.lost ≤ s'.lost

  Beside-Careful : (s s' : System A P) → Beside s s' → Careful s s'
  Beside-Careful s s' (same, wakes, losing) = record {
    watched = λ w b asleep z. wakes z b (λ z'. w (sym same ∙ asleep) z');
    settled = λ q. inl (sym same ∙ q);
    losing = losing;
  }

  origin-Careful :
      (s : System A P) (sink : ℕ) (env : Envelope P) (r : Option (List (Task A P)))
      → Careful s (elim r [
        | some tasks ↦ record s { tasks = tasks; main = ready }
        | none ↦ record s { main = ready; lost = s.lost + 1 }
      ])
  origin-Careful s sink env none = record {
    watched = λ w b e z. absurd (cc);
    settled = λ q. absurd (cc);
    losing = omega arith;
  }
  origin-Careful s sink env (some tasks) = record {
    watched = λ w b e z. absurd (cc);
    settled = λ q. absurd (cc);
    losing = omega arith;
  }

  step_main-Careful : (s : System A P) (m : Main P) → s.main ≡ m → Careful s (step_main_at m s)
  unfolding step_main_at
  step_main-Careful s ready e = record {
    watched = λ w b. w;
    settled = λ q. inl q;
    losing = omega arith;
  }
  step_main-Careful s quiescent e = record {
    watched = λ w b. w;
    settled = λ q. inl q;
    losing = omega arith;
  }
  step_main-Careful s checking e = elim (Bool-cases (s.shared.in_flight == 0)) [
    | inl none_ ↦ rw none_ (record {
      watched = λ w b a z. absurd (cc);
      settled = λ q. inr (ground arith);
      losing = omega arith;
    })
    | inr some_ ↦ rw some_ (record {
      watched = λ w b a z. absurd (ground arith);
      settled = λ q. absurd (cc);
      losing = omega arith;
    })
  ]
  step_main-Careful s sleeping e = elim (Bool-cases s.shared.permit) [
    | inl woken ↦ rw woken (record {
      watched = λ w b a z. absurd (cc);
      settled = λ q. absurd (cc);
      losing = omega arith;
    })
    | inr asleep ↦
        rw asleep (record { watched = λ w b. w; settled = λ q. inl q; losing = omega arith })
  ]
  step_main-Careful s (origin_numbered sink env) e = record {
    watched = λ w b e z. absurd (cc);
    settled = λ q. absurd (cc);
    losing = omega arith;
  }
  step_main-Careful s (origin_logged sink env) e = record {
    watched = λ w b e z. absurd (cc);
    settled = λ q. absurd (cc);
    losing = omega arith;
  }
  step_main-Careful s (origin_counted sink env) e = origin-Careful s sink env _

  pub Step-Careful : (s s' : System A P) → Step s s' → Careful s s'
  unfolding step_main spawn send_external
  Step-Careful s s' (task i) = Beside-Careful s _ (step_task-Beside s i)
  Step-Careful s s' (panics i) = Beside-Careful s _ (panic-Beside s i)
  Step-Careful s s' (aborts i e) = Beside-Careful s _ (abort-Beside s i)
  Step-Careful s s' main = step_main-Careful s s.main refl
  Step-Careful s s' (spawns name actor state e) = record {
    watched = λ w b asleep z. absurd (cc);
    settled = λ q. inl q;
    losing = omega arith;
  }
  Step-Careful s s' (sends to msg e) = record {
    watched = λ w b e z. absurd (cc);
    settled = λ q. absurd (cc);
    losing = omega arith;
  }
  Step-Careful s s' (runs e) = record {
    watched = λ w b e z. absurd (cc);
    settled = λ q. absurd (cc);
    losing = omega arith;
  }
