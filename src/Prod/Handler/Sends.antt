-- ===== src/Prod/Handler/Sends.antt =====
-- `Context::send` of crates/lichtung-core/src/context.rs with the backend of crates/lichtung-prod, as the
-- operations of a loop that runs by itself.
use lichtung.Prelude.{
  ℕ, List, [], ◌∷◌, ◌++◌, Option, none, some, Bool, ◌+◌, ◌%◌, ◌≡◌, ◌==◌, true, false, if◌then◌else◌,
  refl, get_elem?, set, ap, ap₂, sym, ◌∙◌, subst, inl, inr,
}
use lichtung.Prelude.Words.{u64_mod}
use lichtung.Clock.{increment, tick}
use lichtung.Core.{Context, Action, Addr, send_to, perform, send}
use lichtung.Core.Event.{Envelope, emit_event}
use lichtung.Prod.{
  SharedRuntime, Task, Phase, running, numbered, logged, counted, refused, refused_last,
  sub_in_flight, notify_one, deliver, dispatch_deliver, prod_dispatch, next_msg_id, record_event,
  inc_in_flight, dec_in_flight,
}
use lichtung.Prod.System.{System, step_task, step_at, advance, finish_send, begin_send}
use lichtung.Prod.Recorded.Deliver.{Got, deliver-Delivered}
use lichtung.Prod.Handler.{mask, context, Alone, stop, Reaches, set-set, mask-set}
use lichtung.Prod.Handler.Deliveries.{deliver-mask, mask_result}
use lichtung.Prod.Handler.Operations.{step_is, first, placed, placed_at, placed_step, same_tasks}

module _ {A P : Type 0} where
  -- A message in the mailbox changes nothing else.
  pub Got-same :
      {B : Type 0} (env : Envelope P) (t u : Task A P) (f : Task A P → B)
      → f (record t { inbox = t.inbox ++ env ∷ [] }) ≡ f t
      → Got env t u
      → f u ≡ f t
  Got-same env t u f e (inl same) = ap f same
  Got-same env t u f e (inr more) = ap f more ∙ e

  module _ (i : ℕ) (t : Task A P) (s : System A P) (at : get_elem? s.tasks i ≡ some t) (to : Addr)
      (msg : P) (busy : Bool) (rest : List (Action P)) where
    abbrev stamped : Task A P
    stamped = record t {
      clock = increment t.clock t.id;
      lamport = (tick t.lamport).0;
      seq = (t.seq + 1) % u64_mod;
      phase = running busy rest;
    }

    abbrev env : Envelope P
    env = record {
      msg = msg;
      vclock = stamped.clock;
      lamport = record { value = (tick t.lamport).1 };
      msg_id = (next_msg_id s.shared).1;
      src = t.id;
      dst = to.id;
    }

    abbrev at_phase : Phase P → Task A P
    at_phase p = record stamped { phase = p }

    abbrev numbered_runtime : SharedRuntime
    numbered_runtime = (next_msg_id s.shared).0

    abbrev logged_runtime : SharedRuntime
    logged_runtime = record_event (emit_event t.id stamped.seq env) numbered_runtime

    abbrev counted_runtime : SharedRuntime
    counted_runtime = inc_in_flight logged_runtime

    abbrev refused_at : Task A P
    refused_at = at_phase (refused busy rest)

    -- The two outcomes of the delivery.
    abbrev delivery : Option (List (Task A P)) → System A P
    delivery r = elim r [
      | some tasks ↦ record s { tasks = tasks; shared = counted_runtime }
      | none ↦ placed i t s at refused_at counted_runtime
    ]

    abbrev outcome : Option (List (Task A P))
    outcome = deliver to.sink env (set s.tasks i stamped)

    delivered_step :
        step_task (placed i t s at (at_phase (counted to.sink env busy rest)) counted_runtime) i
        ≡ delivery outcome
    unfolding step_at finish_send
    delivered_step =
        let t₃ = at_phase (counted to.sink env busy rest) in
        step_is i t₃ (placed i t s at t₃ counted_runtime) (counted to.sink env busy rest)
          (placed_at i t s at t₃) refl
        ∙ ap₂
            (λ (x y : List (Task A P)). elim (deliver to.sink env x) [
              | some tasks ↦ record s { tasks = tasks; shared = counted_runtime }
              | none ↦ record s { tasks = y; shared = counted_runtime }
            ])
            (set-set s.tasks i t₃ stamped) (set-set s.tasks i t₃ refused_at)

    -- The four operations up to the delivery.
    sending_alone :
        {s' : System A P}
        → t.phase ≡ running busy (send_to to msg ∷ rest)
        → Alone i (delivery outcome) s'
        → Alone i s s'
    unfolding step_at advance begin_send
    sending_alone e a = first (step_is i t s (running busy (send_to to msg ∷ rest)) at e) (
        first
          (placed_step i t s at (at_phase (numbered to.sink env busy rest)) numbered_runtime
            (numbered to.sink env busy rest) refl refl)
          (first
            (placed_step i t s at (at_phase (logged to.sink env busy rest)) logged_runtime
              (logged to.sink env busy rest) refl refl)
            (first delivered_step a)))

    -- `ProdDispatch::deliver` as the backend of the context.
    abbrev answer : Option (List (Task A P)) → SharedRuntime × List (Task A P)
    answer r = elim r [
      | some tasks ↦ (counted_runtime, tasks)
      | none ↦ (dec_in_flight counted_runtime, mask i s.tasks)
    ]

    dispatched :
        (r : Option (List (Task A P)))
        → outcome ≡ r
        → dispatch_deliver to.sink env (logged_runtime, mask i s.tasks) ≡ answer (mask_result i r)
    unfolding dispatch_deliver
    dispatched r q = ap answer (
        ap (deliver to.sink env) (sym (mask-set s.tasks i t stamped at refl))
        ∙ deliver-mask to.sink env (set s.tasks i stamped) i stamped (placed_at i t s at stamped)
            refl
        ∙ ap (mask_result i) q)

    abbrev seen_with : SharedRuntime × List (Task A P) → Context (SharedRuntime × List (Task A P))
    seen_with b = record {
      id = t.id;
      clock = stamped.clock;
      lamport = stamped.lamport;
      seq = stamped.seq;
      backend = b;
    }

    abbrev uncounted_runtime : SharedRuntime
    uncounted_runtime = (sub_in_flight counted_runtime).0

    abbrev is_last : Bool
    is_last = counted_runtime.in_flight == 1

    abbrev uncounted_at : Bool → Task A P
    uncounted_at last = at_phase (if last then refused_last busy rest else running busy rest)

    refused_step :
        step_task (placed i t s at refused_at counted_runtime) i
        ≡ placed i t s at (uncounted_at is_last) uncounted_runtime
    unfolding step_at advance sub_in_flight
    refused_step = placed_step i t s at refused_at counted_runtime (refused busy rest) refl refl

    notified_step :
        step_task (placed i t s at (uncounted_at true) uncounted_runtime) i
        ≡ placed i t s at stamped (notify_one uncounted_runtime)
    unfolding step_at advance
    notified_step =
        placed_step i t s at (uncounted_at true) uncounted_runtime (refused_last busy rest) refl
          refl

    -- What `dec_in_flight` does with a delivery that was refused.
    refused_alone :
        Alone i
          (placed i t s at refused_at counted_runtime)
          (placed i t s at stamped (dec_in_flight counted_runtime))
    unfolding dec_in_flight sub_in_flight
    refused_alone = first refused_step (notified is_last)
      where
        notified :
            (last : Bool)
            → Alone i (placed i t s at (uncounted_at last) uncounted_runtime) (
                placed i t s at stamped
                  (if last then notify_one uncounted_runtime else uncounted_runtime))
        notified true = first notified_step stop
        notified false = stop

    pub send-Reaches :
        t.phase ≡ running busy (send_to to msg ∷ rest)
        → Reaches i t s (running busy rest) (perform prod_dispatch (context i t s) (send_to to msg))
    unfolding perform send prod_dispatch
    send-Reaches e = cases outcome refl
      where
        cases :
            (r : Option (List (Task A P)))
            → outcome ≡ r
            → Reaches i t s
                (running busy rest)
                (seen_with (dispatch_deliver to.sink env (logged_runtime, mask i s.tasks)))
        cases none q = record {
          after = placed i t s at stamped (dec_in_flight counted_runtime);
          task = stamped;
          alone = sending_alone e (
              subst
                (λ r.
                  Alone i (delivery r) (placed i t s at stamped (dec_in_flight counted_runtime)))
                (sym q) refused_alone);
          there = placed_at i t s at stamped;
          phase = refl;
          state = refl;
          seen =
              same_tasks i t s at stamped (dec_in_flight counted_runtime) (mask i s.tasks) refl refl
              ∙ sym (ap seen_with (dispatched none q));
          main = refl;
          lost = refl;
        }
        cases (some tasks) q =
            let (u, there, got) =
              (deliver-Delivered to.sink env (set s.tasks i stamped) tasks q).to i stamped
                (placed_at i t s at stamped) in
            let after : System A P = record s { tasks = tasks; shared = counted_runtime } in
            record {
              after = after;
              task = u;
              alone = sending_alone e (subst (λ r. Alone i (delivery r) after) (sym q) stop);
              there = there;
              phase = Got-same env stamped u (λ u. u.phase) refl got;
              state = Got-same env stamped u (λ u. u.state) refl got;
              seen =
                  Got-same env stamped u (λ u. context i u after) refl got
                  ∙ sym (ap seen_with (dispatched (some tasks) q));
              main = refl;
              lost = refl;
            }
