-- ===== src/Prod/Quiescence.antt =====
-- Quiescence in crates/lichtung-prod/src/system.rs: what a count of 0 says, and that the main thread does
-- not sleep through it.
use lichtung.Prelude.{
  ℕ, List, [], ◌∷◌, some, true, ◌≡◌, ◌<◌, ◌≢◌, ◌⊎◌, ◌∙◌, refl, arith, length, get_elem?, inl, inr,
}
use lichtung.Prelude.Words.{u64_max}
use lichtung.Prod.{Task}
use lichtung.Prelude.Sums.{sum_by, le_sum_by}
use lichtung.Prod.Weight.{held, outstanding, weight}
use lichtung.Prod.InFlight.{IsBalanced, Step-IsBalanced}
use lichtung.Prod.Notify.{next_notifies}
use lichtung.Prod.Watch.{Watched, Step-Careful}
use lichtung.Prod.System.{
  System, Step, new_system, step_task, step_main, step_main_at, checking, sleeping, quiescent,
}

no_length : {B : Type 0} (l : List B) → length l ≡ 0 → l ≡ []
no_length [] h = refl
no_length (x ∷ l) h = absurd (omega arith)

module _ {A P : Type 0} where
  -- The states of a run, with fewer than 2^64 - 1 messages outstanding in each state that is left.
  pub data Reachable : System A P → Type 0 where
    initial : Reachable new_system
    next : {s s' : System A P} → Reachable s → outstanding s < u64_max → Step s s' → Reachable s'

  pub Reachable-IsBalanced : {s : System A P} → Reachable s → IsBalanced s
  unfolding sum_by
  Reachable-IsBalanced initial = refl
  Reachable-IsBalanced (next {s} {s'} r b step) =
      Step-IsBalanced s s' step (Reachable-IsBalanced r) b

  pub Reachable-Watched : {s : System A P} → Reachable s → Watched s
  Reachable-Watched initial = λ e z. absurd (cc)
  Reachable-Watched (next {s} {s'} r b step) =
      (Step-Careful s s' step).watched (Reachable-Watched r) (omega (arith, Reachable-IsBalanced r))

  -- Where the count is 0 in a run, every mailbox is empty, no loop handles or sends a message that is
  -- counted, and no message was lost.
  pub in_flight_zero :
      (s : System A P) (i : ℕ) (t : Task A P)
      → Reachable s
      → s.shared.in_flight ≡ 0
      → get_elem? s.tasks i ≡ some t
      → (t.inbox ≡ []) × (held t.phase ≡ 0) × (s.lost ≡ 0)
  in_flight_zero s i t r z at = (
    no_length t.inbox (omega (arith, Reachable-IsBalanced r, le_sum_by weight s.tasks i t at)),
    omega (arith, Reachable-IsBalanced r, le_sum_by weight s.tasks i t at),
    omega (arith, Reachable-IsBalanced r),
  )

  -- The main thread wakes at its next operation, and the one behind it leaves the loop.
  abbrev pub WakesUp : System A P → Type 0
  WakesUp s = ((step_main s).main ≡ checking) × ((step_main (step_main s)).main ≡ quiescent)

  permit-WakesUp :
      (s : System A P)
      → s.main ≡ sleeping
      → s.shared.in_flight ≡ 0
      → s.shared.permit ≡ true
      → WakesUp s
  unfolding step_main step_main_at
  permit-WakesUp s e z woken = rw (e, woken, z) (refl, refl)

  -- No wakeup is lost: in a run, a main thread that sleeps while the count is 0 wakes at its next
  -- operation, or does so after the next operation of some loop, and then finds the system quiescent,
  -- where nothing else happened in between.
  pub sleeping_wakes :
      (s : System A P)
      → Reachable s
      → s.main ≡ sleeping
      → s.shared.in_flight ≡ 0
      → WakesUp s ⊎ ((i : ℕ) × WakesUp (step_task s i))
  sleeping_wakes s r e z = elim (Reachable-Watched r e z) [
    | inl stored ↦ inl (permit-WakesUp s e z stored)
    | inr waits ↦
        let n = next_notifies s waits in
        inr (n.index, permit-WakesUp (step_task s n.index) (n.main ∙ e) (n.count ∙ z) n.stores)
  ]

  -- A part of a run, from one state to a later one.
  pub data Later (s : System A P) : System A P → Type 0 where
    now : Later s s
    then : {s' s'' : System A P} → Later s s' → outstanding s' < u64_max → Step s' s'' → Later s s''

  record Hangs (s : System A P) : Type 0 where
    balanced : IsBalanced s
    lossy : 0 < s.lost
    awake : s.main ≢ quiescent

  Later-Hangs : {s s' : System A P} → Hangs s → Later s s' → Hangs s'
  Later-Hangs h now = h
  Later-Hangs h (then {s'} {s''} l b step) =
      let before = Later-Hangs h l in
      let care = Step-Careful s' s'' step in
      record {
        balanced = Step-IsBalanced s' s'' step before.balanced b;
        lossy = omega (arith, before.lossy, care.losing);
        awake = λ q. elim (care.settled q) [
          | inl was ↦ before.awake was
          | inr z ↦ omega (arith, before.lossy, before.balanced)
        ];
      }

  -- Once a counted message is lost, to a panic or by `send_external` to a closed mailbox,
  -- `run_until_quiescent` does not return any more, whatever the threads do, in a run with fewer than
  -- 2^64 - 1 outstanding messages.
  pub lost_never_quiescent :
      (s s' : System A P)
      → Reachable s
      → 0 < s.lost
      → s.main ≢ quiescent
      → Later s s'
      → s'.main ≢ quiescent
  lost_never_quiescent s s' r h e l =
      (Later-Hangs (record { balanced = Reachable-IsBalanced r; lossy = h; awake = e }) l).awake
