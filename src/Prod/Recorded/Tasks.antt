-- ===== src/Prod/Recorded/Tasks.antt =====
-- The steps of a task of crates/lichtung-prod/src/system.rs, its panic and its abort keep the log one
-- that is accepted.
use lichtung.Prelude.{
  ℕ, List, [], Option, none, some, Bool, ◌+◌, ◌≡◌, ◌<◌, refl, arith, sym, subst, ap, get_elem?, set,
}
use lichtung.Prelude.Words.{u64_max}
use lichtung.Core.{Action}
use lichtung.Core.Event.{Envelope}
use lichtung.Prod.{
  Task, Phase, counted, running, refused, finished_last, refused_last, ended, created, waiting,
  finished, received, numbered, logged,
}
use lichtung.Prod.System.{
  System, advance, finish_send, step_at, step_task, panic_at, panic, abort_at, abort,
}
use lichtung.Prod.Recorded.{IsKnown-le, IsStamped-le}
use lichtung.Prod.Recorded.Claims.{taken, taken_le_all}
use lichtung.Prod.Recorded.Deliver.{Delivered, deliver-Delivered}
use lichtung.Prod.Recorded.Loops.{SoundTask, IsSound, Advanced, quiet, rests, at_rest}
use lichtung.Prod.Recorded.Advance.{advance-Advanced}
use lichtung.Prod.Recorded.Systems.{IsRecorded, MainStage-le, advanced-IsRecorded}
use lichtung.Prod.Recorded.Steps.{later-IsRecorded, moved-IsRecorded, delivered-IsRecorded}

module _ {A P : Type 0} where
  module _ (n o i : ℕ) (t : Task A P) (s : System A P) (at : get_elem? s.tasks i ≡ some t)
      (small : n < u64_max) (h : IsRecorded n o s) where
    abbrev Sound : Phase P → Type 0
    Sound p = IsSound n s.shared.events t.id t.clock t.seq t.inbox p

    here : (p : Phase P) → t.phase ≡ p → Sound p
    here p e = rw e at (h.sound i t at)

    -- The loop itself is moved, and its mailbox perhaps dropped.
    placed-IsRecorded :
        (t' : Task A P)
        → t'.id ≡ t.id
        → ((k : ℕ) → taken k t'.phase ≡ 0)
        → SoundTask (n + 1) s.shared.events t'
        → IsRecorded (n + 1) o (record s { tasks = set s.tasks i t' })
    placed-IsRecorded t' e z g =
        advanced-IsRecorded n o i t t' s s.shared at
          (quiet n t.phase t s.shared t' s.shared e refl refl z g) h

    advance-IsRecorded :
        (p : Phase P)
        → t.phase ≡ p
        → IsRecorded (n + 1) o (record s {
          tasks = set s.tasks i (advance p t s.shared).0;
          shared = (advance p t s.shared).1;
        })
    advance-IsRecorded p e =
        advanced-IsRecorded n o i t _ s _ at
          (subst (λ q. Advanced n q t s.shared (advance p t s.shared).0 (advance p t s.shared).1)
            (sym e)
            (advance-Advanced n t s.shared small p e h.numbers
              (λ k b. omega (arith, h.once k b, taken_le_all k s.tasks i t at, ap (taken k) e))
              (here p e)))
          h

    abbrev sending : Bool → List (Action P) → Task A P
    sending busy rest = record t { phase = running busy rest }

    delivery-IsRecorded :
        (sink : ℕ) (env : Envelope P) (busy : Bool) (rest : List (Action P))
        → t.phase ≡ counted sink env busy rest
        → IsRecorded (n + 1) o (finish_send i t sink env busy rest s)
    unfolding finish_send
    delivery-IsRecorded sink env busy rest e =
        cases _ (λ tasks q. deliver-Delivered sink env (set s.tasks i (sending busy rest)) tasks q)
      where
        cases :
            (r : Option (List (Task A P)))
            → ((tasks : List (Task A P))
                → r ≡ some tasks
                → Delivered env (set s.tasks i (sending busy rest)) tasks)
            → IsRecorded (n + 1) o (elim r [
              | some tasks ↦ record s { tasks = tasks }
              | none ↦ record s { tasks = set s.tasks i (record t { phase = refused busy rest }) }
            ])
        cases none d =
            placed-IsRecorded _ refl (λ k. refl)
              (rests n t.phase t s.shared (refused busy rest) refl tt (h.sound i t at))
        cases (some tasks) d =
            delivered-IsRecorded (n + 1) o (record s { tasks = set s.tasks i (sending busy rest) })
              env tasks (d tasks refl)
              (IsKnown-le (omega arith) (λ x m. m) (here (counted sink env busy rest) e).stage)
              (placed-IsRecorded (sending busy rest) refl (λ k. refl)
                (rests n t.phase t s.shared (running busy rest) refl tt (h.sound i t at)))

    step_at-IsRecorded : (p : Phase P) → t.phase ≡ p → IsRecorded (n + 1) o (step_at i t p s)
    unfolding step_at
    step_at-IsRecorded (counted sink env busy rest) e = delivery-IsRecorded sink env busy rest e
    step_at-IsRecorded created e = advance-IsRecorded created e
    step_at-IsRecorded waiting e = advance-IsRecorded waiting e
    step_at-IsRecorded finished e = advance-IsRecorded finished e
    step_at-IsRecorded finished_last e = advance-IsRecorded finished_last e
    step_at-IsRecorded ended e = advance-IsRecorded ended e
    step_at-IsRecorded (received env) e = advance-IsRecorded (received env) e
    step_at-IsRecorded (running busy calls) e = advance-IsRecorded (running busy calls) e
    step_at-IsRecorded (numbered sink env busy rest) e =
        advance-IsRecorded (numbered sink env busy rest) e
    step_at-IsRecorded (logged sink env busy rest) e =
        advance-IsRecorded (logged sink env busy rest) e
    step_at-IsRecorded (refused busy rest) e = advance-IsRecorded (refused busy rest) e
    step_at-IsRecorded (refused_last busy rest) e = advance-IsRecorded (refused_last busy rest) e

    -- The loop ends, and its mailbox is dropped.
    dropped-IsRecorded :
        (lost : ℕ)
        → IsRecorded (n + 1) o (record s {
          tasks = set s.tasks i (record t { inbox = []; phase = ended });
          lost = lost;
        })
    dropped-IsRecorded lost =
        let st = (h.sound i t at).stamped in
        moved-IsRecorded s.shared.in_flight s.shared.permit s.main lost
          (placed-IsRecorded (record t { inbox = []; phase = ended }) refl (λ k. refl)
            (at_rest ended refl
              (IsStamped-le (omega arith) (λ x m. m) (λ x m a. m)
                (record {
                  bounded = st.bounded;
                  numbered = st.numbered;
                  known = λ env m. absurd m;
                  up_to = st.up_to;
                }))
              tt))
          (MainStage-le s.shared.events s.shared.events s.main (omega arith) (λ x m. m) h.origin)
          (λ k. omega arith) (omega arith)

    panic_at-IsRecorded : (p : Phase P) → t.phase ≡ p → IsRecorded (n + 1) o (panic_at i t p s)
    unfolding panic_at
    panic_at-IsRecorded (running busy rest) e = dropped-IsRecorded _
    panic_at-IsRecorded created e = later-IsRecorded h
    panic_at-IsRecorded waiting e = later-IsRecorded h
    panic_at-IsRecorded finished e = later-IsRecorded h
    panic_at-IsRecorded finished_last e = later-IsRecorded h
    panic_at-IsRecorded ended e = later-IsRecorded h
    panic_at-IsRecorded (received env) e = later-IsRecorded h
    panic_at-IsRecorded (numbered sink env busy rest) e = later-IsRecorded h
    panic_at-IsRecorded (logged sink env busy rest) e = later-IsRecorded h
    panic_at-IsRecorded (counted sink env busy rest) e = later-IsRecorded h
    panic_at-IsRecorded (refused busy rest) e = later-IsRecorded h
    panic_at-IsRecorded (refused_last busy rest) e = later-IsRecorded h

    abort_at-IsRecorded : (p : Phase P) → t.phase ≡ p → IsRecorded (n + 1) o (abort_at i t p s)
    unfolding abort_at
    abort_at-IsRecorded (running busy rest) e = later-IsRecorded h
    abort_at-IsRecorded created e = dropped-IsRecorded _
    abort_at-IsRecorded waiting e = dropped-IsRecorded _
    abort_at-IsRecorded finished e = later-IsRecorded h
    abort_at-IsRecorded finished_last e = later-IsRecorded h
    abort_at-IsRecorded ended e = later-IsRecorded h
    abort_at-IsRecorded (received env) e = later-IsRecorded h
    abort_at-IsRecorded (numbered sink env busy rest) e = later-IsRecorded h
    abort_at-IsRecorded (logged sink env busy rest) e = later-IsRecorded h
    abort_at-IsRecorded (counted sink env busy rest) e = later-IsRecorded h
    abort_at-IsRecorded (refused busy rest) e = later-IsRecorded h
    abort_at-IsRecorded (refused_last busy rest) e = later-IsRecorded h

  pub step_task-IsRecorded :
      (n o i : ℕ) (s : System A P)
      → n < u64_max
      → IsRecorded n o s
      → IsRecorded (n + 1) o (step_task s i)
  unfolding step_task
  step_task-IsRecorded n o i s b h = cases (get_elem? s.tasks i) refl
    where
      cases :
          (r : Option (Task A P))
          → get_elem? s.tasks i ≡ r
          → IsRecorded (n + 1) o (elim r [ none ↦ s | some t ↦ step_at i t t.phase s ])
      cases none e = later-IsRecorded h
      cases (some t) e = step_at-IsRecorded n o i t s e b h t.phase refl

  pub panic-IsRecorded :
      (n o i : ℕ) (s : System A P)
      → n < u64_max
      → IsRecorded n o s
      → IsRecorded (n + 1) o (panic s i)
  unfolding panic
  panic-IsRecorded n o i s b h = cases (get_elem? s.tasks i) refl
    where
      cases :
          (r : Option (Task A P))
          → get_elem? s.tasks i ≡ r
          → IsRecorded (n + 1) o (elim r [ none ↦ s | some t ↦ panic_at i t t.phase s ])
      cases none e = later-IsRecorded h
      cases (some t) e = panic_at-IsRecorded n o i t s e b h t.phase refl

  pub abort-IsRecorded :
      (n o i : ℕ) (s : System A P)
      → n < u64_max
      → IsRecorded n o s
      → IsRecorded (n + 1) o (abort s i)
  unfolding abort
  abort-IsRecorded n o i s b h = cases (get_elem? s.tasks i) refl
    where
      cases :
          (r : Option (Task A P))
          → get_elem? s.tasks i ≡ r
          → IsRecorded (n + 1) o (elim r [ none ↦ s | some t ↦ abort_at i t t.phase s ])
      cases none e = later-IsRecorded h
      cases (some t) e = abort_at-IsRecorded n o i t s e b h t.phase refl
