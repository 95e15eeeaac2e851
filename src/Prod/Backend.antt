-- ===== src/Prod/Backend.antt =====
-- `ProdDispatch` of crates/lichtung-prod/src/dispatch.rs as the backend of a context.
use lichtung.Prelude.{ℕ, List, Option, none, some, ◌≡◌, ◌==◌, Bool-cases, inl, inr, refl}
use lichtung.Core.Event.{Envelope}
use lichtung.Core.Stamps.{Logged}
use lichtung.Prod.{
  SharedRuntime, Task, deliver, dispatch_deliver, prod_dispatch, next_msg_id, record_event,
  inc_in_flight, dec_in_flight, sub_in_flight, notify_one,
}

dec_keeps_events : (s : SharedRuntime) → (dec_in_flight s).events ≡ s.events
unfolding dec_in_flight sub_in_flight notify_one
dec_keeps_events s = elim (Bool-cases (s.in_flight == 1)) [
  | inl last ↦ rw last refl
  | inr more ↦ rw more refl
]

module _ {A P : Type 0} where
  pub deliver_keeps_events :
      (sink : ℕ) (env : Envelope P) (b : SharedRuntime × List (Task A P))
      → (dispatch_deliver sink env b).0.events ≡ b.0.events
  unfolding dispatch_deliver inc_in_flight
  deliver_keeps_events sink env (s, tasks) = cases (deliver sink env tasks)
    where
      cases :
          (r : Option (List (Task A P)))
          → (elim r as (λ x. SharedRuntime × List (Task A P)) [
            | some tasks' ↦ (inc_in_flight s, tasks')
            | none ↦ (dec_in_flight (inc_in_flight s), tasks)
          ]).0.events
            ≡ s.events
      cases none = dec_keeps_events (inc_in_flight s)
      cases (some tasks') = refl

  -- The events of the channel are the log of the backend.
  unfoldable pub prod_logged : Logged (prod_dispatch {A = A} {P = P})
  unfolding prod_dispatch next_msg_id record_event
  prod_logged = record {
    log = λ b. b.0.events;
    numbering = λ b. refl;
    recording = λ e b. refl;
    delivering = deliver_keeps_events;
  }
