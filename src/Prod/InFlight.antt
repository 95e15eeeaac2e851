-- ===== src/Prod/InFlight.antt =====
-- The in-flight count of crates/lichtung-prod/src/shared.rs, in every interleaving of the actors' loops
-- and the main thread.
use lichtung.Prelude.{
  ℕ, List, [], ◌∷◌, Option, none, some, Bool, ◌+◌, ◌==◌, ◌≡◌, ◌≤◌, ◌<◌, refl, arith, get_elem?, set,
  Bool-cases, inl, inr, ap,
}
use lichtung.Prelude.Words.{u64_max}
use lichtung.Core.{Action}
use lichtung.Core.Event.{Envelope}
use lichtung.Prod.{
  next_msg_id, record_event, inc_in_flight, Phase, Task, created, waiting, finished, ended,
  received, running, numbered, logged, counted, refused, finished_last, refused_last,
}
use lichtung.Prelude.Sums.{sum_by, sum_by-append, sum_by-set, le_sum_by}
use lichtung.Prod.Weight.{
  held, weight, held_by_main, outstanding, Grows, Raises, deliver-Grows, advance_balance,
}
use lichtung.Prod.System.{
  System, Main, Step, advance, finish_send, step_at, step_task, panic_at, panic, abort_at, abort,
  spawn, send_external, step_main_at, step_main, spawned, ready, checking, sleeping, quiescent,
  origin_numbered, origin_logged, origin_counted, task, panics, aborts, main, spawns, sends, runs,
}

module _ {A P : Type 0} where
  -- The count is that of the outstanding messages.
  abbrev pub IsBalanced : System A P → Type 0
  IsBalanced s = s.shared.in_flight ≡ outstanding s

  module _ (i : ℕ) (t : Task A P) (s : System A P) (at : get_elem? s.tasks i ≡ some t)
      (balanced : IsBalanced s) (small : outstanding s < u64_max) where
    weight_small : weight t ≤ s.shared.in_flight
    weight_small = omega (arith, le_sum_by weight s.tasks i t at)

    advance-IsBalanced :
        (p : Phase P)
        → t.phase ≡ p
        → IsBalanced (record s {
          tasks = set s.tasks i (advance p t s.shared).0;
          shared = (advance p t s.shared).1;
        })
    advance-IsBalanced p e = omega (
      arith,
      advance_balance p t s.shared e weight_small (omega arith),
      sum_by-set weight s.tasks i t (advance p t s.shared).0 at,
      le_sum_by weight s.tasks i t at,
    )

    -- The two outcomes of a delivery.
    delivery-IsBalanced :
        (sink : ℕ) (env : Envelope P) (busy : Bool) (rest : List (Action P))
        → t.phase ≡ counted sink env busy rest
        → (r : Option (List (Task A P)))
        → Grows (set s.tasks i (record t { phase = running busy rest })) r
        → IsBalanced (elim r [
          | some tasks ↦ record s { tasks = tasks }
          | none ↦ record s { tasks = set s.tasks i (record t { phase = refused busy rest }) }
        ])
    unfolding Raises
    delivery-IsBalanced sink env busy rest e none g = omega (
      arith,
      ap held e,
      sum_by-set weight s.tasks i t (record t { phase = refused busy rest }) at,
    )
    delivery-IsBalanced sink env busy rest e (some tasks) g = omega (
      arith,
      ap held e,
      sum_by-set weight s.tasks i t (record t { phase = running busy rest }) at,
    )

    step_at-IsBalanced : (p : Phase P) → t.phase ≡ p → IsBalanced (step_at i t p s)
    unfolding step_at finish_send
    step_at-IsBalanced (counted sink env busy rest) e =
        delivery-IsBalanced sink env busy rest e _
          (deliver-Grows sink env (set s.tasks i (record t { phase = running busy rest })))
    step_at-IsBalanced created e = advance-IsBalanced created e
    step_at-IsBalanced waiting e = advance-IsBalanced waiting e
    step_at-IsBalanced finished e = advance-IsBalanced finished e
    step_at-IsBalanced finished_last e = advance-IsBalanced finished_last e
    step_at-IsBalanced ended e = advance-IsBalanced ended e
    step_at-IsBalanced (received env) e = advance-IsBalanced (received env) e
    step_at-IsBalanced (running busy calls) e = advance-IsBalanced (running busy calls) e
    step_at-IsBalanced (numbered sink env busy rest) e =
        advance-IsBalanced (numbered sink env busy rest) e
    step_at-IsBalanced (logged sink env busy rest) e =
        advance-IsBalanced (logged sink env busy rest) e
    step_at-IsBalanced (refused busy rest) e = advance-IsBalanced (refused busy rest) e
    step_at-IsBalanced (refused_last busy rest) e = advance-IsBalanced (refused_last busy rest) e

    panic_at-IsBalanced : (p : Phase P) → t.phase ≡ p → IsBalanced (panic_at i t p s)
    unfolding panic_at
    panic_at-IsBalanced (running busy rest) e = omega (
      arith,
      ap held e,
      sum_by-set weight s.tasks i t (record t { inbox = []; phase = ended }) at,
    )
    panic_at-IsBalanced created e = balanced
    panic_at-IsBalanced waiting e = balanced
    panic_at-IsBalanced finished e = balanced
    panic_at-IsBalanced finished_last e = balanced
    panic_at-IsBalanced ended e = balanced
    panic_at-IsBalanced (received env) e = balanced
    panic_at-IsBalanced (numbered sink env busy rest) e = balanced
    panic_at-IsBalanced (logged sink env busy rest) e = balanced
    panic_at-IsBalanced (counted sink env busy rest) e = balanced
    panic_at-IsBalanced (refused busy rest) e = balanced
    panic_at-IsBalanced (refused_last busy rest) e = balanced

    abort_at-IsBalanced : (p : Phase P) → t.phase ≡ p → IsBalanced (abort_at i t p s)
    unfolding abort_at
    abort_at-IsBalanced (running busy rest) e = balanced
    abort_at-IsBalanced created e = omega (
      arith,
      ap held e,
      sum_by-set weight s.tasks i t (record t { inbox = []; phase = ended }) at,
    )
    abort_at-IsBalanced waiting e = omega (
      arith,
      ap held e,
      sum_by-set weight s.tasks i t (record t { inbox = []; phase = ended }) at,
    )
    abort_at-IsBalanced finished e = balanced
    abort_at-IsBalanced finished_last e = balanced
    abort_at-IsBalanced ended e = balanced
    abort_at-IsBalanced (received env) e = balanced
    abort_at-IsBalanced (numbered sink env busy rest) e = balanced
    abort_at-IsBalanced (logged sink env busy rest) e = balanced
    abort_at-IsBalanced (counted sink env busy rest) e = balanced
    abort_at-IsBalanced (refused busy rest) e = balanced
    abort_at-IsBalanced (refused_last busy rest) e = balanced

  step_task-IsBalanced :
      (s : System A P) (i : ℕ) → IsBalanced s → outstanding s < u64_max → IsBalanced (step_task s i)
  unfolding step_task
  step_task-IsBalanced s i h b = cases (get_elem? s.tasks i) refl
    where
      cases :
          (r : Option (Task A P))
          → get_elem? s.tasks i ≡ r
          → IsBalanced (elim r [ none ↦ s | some t ↦ step_at i t t.phase s ])
      cases none e = h
      cases (some t) e = step_at-IsBalanced i t s e h b t.phase refl

  panic-IsBalanced :
      (s : System A P) (i : ℕ) → IsBalanced s → outstanding s < u64_max → IsBalanced (panic s i)
  unfolding panic
  panic-IsBalanced s i h b = cases (get_elem? s.tasks i) refl
    where
      cases :
          (r : Option (Task A P))
          → get_elem? s.tasks i ≡ r
          → IsBalanced (elim r [ none ↦ s | some t ↦ panic_at i t t.phase s ])
      cases none e = h
      cases (some t) e = panic_at-IsBalanced i t s e h b t.phase refl

  abort-IsBalanced :
      (s : System A P) (i : ℕ) → IsBalanced s → outstanding s < u64_max → IsBalanced (abort s i)
  unfolding abort
  abort-IsBalanced s i h b = cases (get_elem? s.tasks i) refl
    where
      cases :
          (r : Option (Task A P))
          → get_elem? s.tasks i ≡ r
          → IsBalanced (elim r [ none ↦ s | some t ↦ abort_at i t t.phase s ])
      cases none e = h
      cases (some t) e = abort_at-IsBalanced i t s e h b t.phase refl

  -- Once more, the two outcomes of a delivery.
  origin-IsBalanced :
      (s : System A P) (sink : ℕ) (env : Envelope P)
      → s.main ≡ origin_counted sink env
      → IsBalanced s
      → (r : Option (List (Task A P))) → Grows s.tasks r
      → IsBalanced (elim r [
        | some tasks ↦ record s { tasks = tasks; main = ready }
        | none ↦ record s { main = ready; lost = s.lost + 1 }
      ])
  unfolding Raises
  origin-IsBalanced s sink env e h none g = omega (arith, ap held_by_main e)
  origin-IsBalanced s sink env e h (some tasks) g = omega (arith, ap held_by_main e)

  step_main-IsBalanced :
      (s : System A P) (m : Main P)
      → s.main ≡ m
      → IsBalanced s
      → outstanding s < u64_max
      → IsBalanced (step_main_at m s)
  unfolding step_main_at inc_in_flight record_event
  step_main-IsBalanced s ready e h b = h
  step_main-IsBalanced s quiescent e h b = h
  step_main-IsBalanced s checking e h b = elim (Bool-cases (s.shared.in_flight == 0)) [
    | inl none_ ↦ rw none_ (omega (arith, ap held_by_main e))
    | inr some_ ↦ rw some_ (omega (arith, ap held_by_main e))
  ]
  step_main-IsBalanced s sleeping e h b = elim (Bool-cases s.shared.permit) [
    | inl woken ↦ rw woken (omega (arith, ap held_by_main e))
    | inr asleep ↦ rw asleep h
  ]
  step_main-IsBalanced s (origin_numbered sink env) e h b = omega (arith, ap held_by_main e)
  step_main-IsBalanced s (origin_logged sink env) e h b = omega (arith, ap held_by_main e)
  step_main-IsBalanced s (origin_counted sink env) e h b =
      origin-IsBalanced s sink env e h _ (deliver-Grows sink env s.tasks)

  pub Step-IsBalanced :
      (s s' : System A P) → Step s s' → IsBalanced s → outstanding s < u64_max → IsBalanced s'
  unfolding step_main spawn send_external next_msg_id sum_by
  Step-IsBalanced s s' (task i) h b = step_task-IsBalanced s i h b
  Step-IsBalanced s s' (panics i) h b = panic-IsBalanced s i h b
  Step-IsBalanced s s' (aborts i e) h b = abort-IsBalanced s i h b
  Step-IsBalanced s s' main h b = step_main-IsBalanced s s.main refl h b
  Step-IsBalanced s s' (spawns name actor state e) h b =
      omega (arith, sum_by-append weight s.tasks (spawned name actor state ∷ []))
  Step-IsBalanced s s' (sends to msg e) h b = omega (arith, ap held_by_main e)
  Step-IsBalanced s s' (runs e) h b = omega (arith, ap held_by_main e)
