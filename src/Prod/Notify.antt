-- ===== src/Prod/Notify.antt =====
-- The wakeups of crates/lichtung-prod/src/shared.rs: a permit that is stored, and the loops that stand in
-- `dec_in_flight` before `notify_one`.
use lichtung.Prelude.{
  ℕ, [], ◌∷◌, some, true, false, ◌≡◌, ◌≤◌, ◌<◌, ◌⊎◌, refl, arith, get_elem?, set, inl, inr, ap, ◌∙◌,
}
use lichtung.Prelude.Words.{u64_max}
use lichtung.Prelude.Sums.{sum_by, sum_by-set, le_sum_by, sum_by_pos}
use lichtung.Core.{send_to, compute_step}
use lichtung.Prod.{
  SharedRuntime, next_msg_id, record_event, inc_in_flight, sub_in_flight, notify_one, Phase, Task,
  created, waiting, finished, ended, received, running, numbered, logged, counted, refused,
  finished_last, refused_last,
}
use lichtung.Prod.System.{System, advance, begin_send, do_compute, step_task, step_at}

module _ {P : Type 0} where
  abbrev pub notifies : Phase P → ℕ
  notifies finished_last = 1
  notifies (refused_last busy rest) = 1
  notifies _ = 0

  -- A count of 0 after an operation was there before it, and then no wakeup goes away; or the wakeup is
  -- stored, or is the loop's next operation.
  abbrev Notifies : SharedRuntime → SharedRuntime → Phase P → Phase P → Type 0
  Notifies s s' p p' =
      s'.in_flight ≡ 0
      → s.in_flight < u64_max
      → ((s.in_flight ≡ 0) × (s'.permit ≡ s.permit) × (notifies p ≤ notifies p'))
        ⊎ ((s'.permit ≡ true) ⊎ (0 < notifies p'))

module _ {A P : Type 0} where
  abbrev pub will_notify : Task A P → ℕ
  will_notify t = notifies t.phase

  -- The main thread is woken, or will be by a loop that brought the count to 0.
  abbrev pub Woken : System A P → Type 0
  Woken s = (s.shared.permit ≡ true) ⊎ (0 < sum_by will_notify s.tasks)

  advance-Notifies :
      (p : Phase P) (t : Task A P) (s : SharedRuntime)
      → t.phase ≡ p
      → Notifies s (advance p t s).1 p (advance p t s).0.phase
  unfolding advance begin_send do_compute inc_in_flight sub_in_flight notify_one record_event
      next_msg_id
  advance-Notifies created t s e z b = inl (z, refl, omega arith)
  advance-Notifies waiting t s e z b = inl (z, refl, omega arith)
  advance-Notifies finished t s e z b = ground arith
  advance-Notifies finished_last t s e z b = inr (inl refl)
  advance-Notifies ended t s e z b = inl (z, refl, omega arith)
  advance-Notifies (received env) t s e z b = inl (z, refl, omega arith)
  advance-Notifies (running busy (send_to to msg ∷ rest)) t s e z b = inl (z, refl, omega arith)
  advance-Notifies (running busy (compute_step ∷ rest)) t s e z b = inl (z, refl, omega arith)
  advance-Notifies (running true []) t s e z b = inl (z, refl, omega arith)
  advance-Notifies (running false []) t s e z b = inl (z, refl, omega arith)
  advance-Notifies (numbered sink env busy rest) t s e z b = inl (z, refl, omega arith)
  advance-Notifies (logged sink env busy rest) t s e z b = absurd (omega arith)
  advance-Notifies (counted sink env busy rest) t s e z b = inl (z, refl, omega arith)
  advance-Notifies (refused busy rest) t s e z b = ground arith
  advance-Notifies (refused_last busy rest) t s e z b = inr (inl refl)

  -- After a step the main thread is woken where it was, or where the step brought the count to 0.
  abbrev pub Wakes : System A P → System A P → Type 0
  Wakes s s' =
      s'.shared.in_flight ≡ 0
      → s.shared.in_flight < u64_max
      → (s.shared.in_flight ≡ 0 → Woken s)
      → Woken s'

  pub advance-Wakes :
      (i : ℕ) (t : Task A P) (s : System A P) (p : Phase P)
      → get_elem? s.tasks i ≡ some t
      → t.phase ≡ p
      → Wakes s (record s {
        tasks = set s.tasks i (advance p t s.shared).0;
        shared = (advance p t s.shared).1;
      })
  advance-Wakes i t s p at e z b w = go (advance-Notifies p t s.shared e z b)
    where
      t' : Task A P
      t' = (advance p t s.shared).0

      s' : SharedRuntime
      s' = (advance p t s.shared).1

      grown :
          notifies p ≤ notifies t'.phase
          → sum_by will_notify s.tasks ≤ sum_by will_notify (set s.tasks i t')
      grown le = omega (arith, sum_by-set will_notify s.tasks i t t' at, ap notifies e)

      mine : 0 < notifies t'.phase → 0 < sum_by will_notify (set s.tasks i t')
      mine h =
          omega
            (arith, sum_by-set will_notify s.tasks i t t' at, le_sum_by will_notify s.tasks i t at)

      kept :
          s'.permit ≡ s.shared.permit
          → notifies p ≤ notifies t'.phase
          → Woken s
          → (s'.permit ≡ true) ⊎ (0 < sum_by will_notify (set s.tasks i t'))
      kept same le (inl stored) = inl (same ∙ stored)
      kept same le (inr some_) = inr (omega (arith, grown le))

      go :
          ((s.shared.in_flight ≡ 0)
              × (s'.permit ≡ s.shared.permit)
              × (notifies p ≤ notifies t'.phase))
            ⊎ ((s'.permit ≡ true) ⊎ (0 < notifies t'.phase))
          → (s'.permit ≡ true) ⊎ (0 < sum_by will_notify (set s.tasks i t'))
      go (inl (z', same, le)) = kept same le (w z')
      go (inr (inl stored)) = inl stored
      go (inr (inr next)) = inr (mine next)

  -- A loop that will notify stores the permit with its next operation.
  pub record Notifying (s : System A P) : Type 0 where
    pub index : ℕ
    pub stores : (step_task s index).shared.permit ≡ true
    pub main : (step_task s index).main ≡ s.main
    pub count : (step_task s index).shared.in_flight ≡ s.shared.in_flight

  pub next_notifies : (s : System A P) → 0 < sum_by will_notify s.tasks → Notifying s
  unfolding step_task step_at advance notify_one
  next_notifies s h =
      let (i, t, at, pos) = sum_by_pos will_notify s.tasks h in cases i t at t.phase refl pos
    where
      cases :
          (i : ℕ) (t : Task A P)
          → get_elem? s.tasks i ≡ some t
          → (p : Phase P) → t.phase ≡ p
          → 0 < notifies p
          → Notifying s
      cases i t at finished_last e pos = record {
        index = i;
        stores = rw (at, step_task, e) refl;
        main = rw (at, step_task, e) refl;
        count = rw (at, step_task, e) refl;
      }
      cases i t at (refused_last busy rest) e pos = record {
        index = i;
        stores = rw (at, step_task, e) refl;
        main = rw (at, step_task, e) refl;
        count = rw (at, step_task, e) refl;
      }
      cases i t at created e pos = absurd (omega arith)
      cases i t at waiting e pos = absurd (omega arith)
      cases i t at finished e pos = absurd (omega arith)
      cases i t at ended e pos = absurd (omega arith)
      cases i t at (received env) e pos = absurd (omega arith)
      cases i t at (running busy calls) e pos = absurd (omega arith)
      cases i t at (numbered sink env busy rest) e pos = absurd (omega arith)
      cases i t at (logged sink env busy rest) e pos = absurd (omega arith)
      cases i t at (counted sink env busy rest) e pos = absurd (omega arith)
      cases i t at (refused busy rest) e pos = absurd (omega arith)
