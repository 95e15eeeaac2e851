-- ===== src/Prod/Recorded/Origin.antt =====
-- The steps of the main thread of crates/lichtung-prod/src/system.rs keep its log one that is
-- accepted.
use lichtung.Prelude.{
  ℕ, List, [], ◌∷◌, ◌++◌, Option, none, some, Bool, false, ◌+◌, ◌==◌, ◌≡◌, ◌≤◌, ◌<◌, ◌⊎◌, inl, inr,
  refl, arith, In, In-append, sym, ◌∙◌, ap, Bool-cases,
}
use lichtung.Prelude.Words.{u64_max}
use lichtung.Clock.{new}
use lichtung.Log.{CausalEvent}
use lichtung.Core.{Addr}
use lichtung.Core.Event.{Envelope, emit_event}
use lichtung.Prod.{Task, record_event, inc_in_flight, next_msg_id}
use lichtung.Prod.System.{
  System, Main, send_external, step_main_at, ready, checking, sleeping, quiescent, origin_numbered,
  origin_logged, origin_counted,
}
use lichtung.Prod.Run.{names}
use lichtung.Prod.Recorded.{IsKnown, IsBounded-le, new-IsBounded, increment-IsBounded, emit-IsKnown}
use lichtung.Prod.Recorded.Claims.{
  taken_by_main, emitted, emitted-append, emitted-emit, emitted_none,
}
use lichtung.Prod.Recorded.Deliver.{Delivered, deliver-Delivered}
use lichtung.Prod.Recorded.Records.{
  Records, Records-Includes, Records-IsFaithful, Records-others, Records-actors, Records-length,
  worlds, worlds-append, no_world,
}
use lichtung.Prod.Recorded.Loops.{IsSound-le}
use lichtung.Prod.Recorded.Steps.{later-IsRecorded, moved-IsRecorded, delivered-IsRecorded}
use lichtung.Prod.Recorded.Systems.{IsRecorded, MainStage, starting}

module _ {A P : Type 0} where
  -- The emit of the only origin.
  origin_emit-IsRecorded :
      (n o sink : ℕ) (env : Envelope P) (s : System A P)
      → o ≤ 1
      → n < u64_max
      → s.main ≡ origin_numbered sink env
      → IsRecorded n o s
      → IsRecorded (n + 1) o (record s {
        shared = record_event (emit_event "world" 1 env) s.shared;
        main = origin_logged sink env;
      })
  unfolding record_event emit_event
  origin_emit-IsRecorded n o sink env s one small e h =
      let log = s.shared.events in
      let x = emit_event "world" 1 env in
      let stage : MainStage n log (origin_numbered sink env) = rw e at h.origin in
      let none_ : worlds log ≡ 0 = omega (arith, h.origins, ap starting e) in
      let fresh : emitted env.msg_id log ≡ 0 =
        ground
          (arith, h.once env.msg_id (omega (arith, stage.1)), ap (taken_by_main env.msg_id) e) in
      let records : Records "world" log (log ++ x ∷ []) = inr (
        x,
        refl,
        refl,
        record {
          later = λ y m a. absurd (no_world log none_ y m a);
          fresh = λ op y m op' k same id. emitted_none env.msg_id log fresh y m op' (same ∙ sym id);
          sent = λ op. absurd (cc);
        },
      ) in
      let sub = Records-Includes "world" log (log ++ x ∷ []) records in
      record {
        faithful = Records-IsFaithful "world" log (log ++ x ∷ []) records h.faithful;
        sound = λ i t at.
            IsSound-le (omega arith) sub
              (λ y m own.
                Records-others "world" log (log ++ x ∷ []) records y m
                  (λ w. h.inner i t at (sym own ∙ w)))
              (h.sound i t at);
        inner = h.inner;
        distinct = h.distinct;
        actors =
            Records-actors "world" log (log ++ x ∷ []) (λ a. (a ≡ "world") ⊎ In a (names s.tasks))
              records (inl refl) h.actors;
        origin = emit-IsKnown log "world" 1 env (IsBounded-le (omega arith) stage.0);
        once = λ k b. omega (
          arith,
          h.once k b,
          ap (taken_by_main k) e,
          emitted-append k log x,
          emitted-emit k "world" 1 env b (omega (arith, stage.1)),
        );
        unused = λ k b lt. omega (
          arith,
          h.unused k b lt,
          ap (taken_by_main k) e,
          emitted-append k log x,
          emitted-emit k "world" 1 env b (omega (arith, stage.1)),
        );
        numbers = omega (arith, h.numbers);
        origins = omega (arith, h.origins, ap starting e, worlds-append log x);
        few = omega (arith, h.few, Records-length "world" log (log ++ x ∷ []) records);
        world_first = λ y m w. elim ((In-append y log (x ∷ [])).0 m) [
          | inl old ↦ h.world_first y old w
          | inr (inl new_) ↦ ap (λ (x : CausalEvent). x.seq) new_
          | inr (inr none_) ↦ absurd none_
        ];
      }

  -- The main thread stands at a call's end, or at a delivery.
  pub moves_on :
      {n o : ℕ} {s : System A P} (in_flight : ℕ) (permit : Bool) (main : Main P) (lost : ℕ)
      → IsRecorded n o s
      → MainStage n s.shared.events main
      → ((k : ℕ) → taken_by_main k main ≡ 0)
      → starting main ≡ 0
      → IsRecorded (n + 1) o (record s {
        shared = record s.shared { in_flight = in_flight; permit = permit };
        main = main;
        lost = lost;
      })
  moves_on in_flight permit main lost h st z z' =
      later-IsRecorded
        (moved-IsRecorded in_flight permit main lost h st (λ k. omega (arith, z k)) (omega arith))

  origin_delivery-IsRecorded :
      (n o sink : ℕ) (env : Envelope P) (s : System A P)
      → s.main ≡ origin_counted sink env
      → IsRecorded n o s
      → IsRecorded (n + 1) o (step_main_at (origin_counted sink env) s)
  unfolding step_main_at
  origin_delivery-IsRecorded n o sink env s e h =
      cases _ (λ tasks q. deliver-Delivered sink env s.tasks tasks q)
    where
      known : IsKnown n s.shared.events env
      known = stage (rw e at h.origin)
        where
          stage :
              MainStage n s.shared.events (origin_counted sink env) → IsKnown n s.shared.events env
          stage k = k

      cases :
          (r : Option (List (Task A P)))
          → ((tasks : List (Task A P)) → r ≡ some tasks → Delivered env s.tasks tasks)
          → IsRecorded (n + 1) o (elim r [
            | some tasks ↦ record s { tasks = tasks; main = ready }
            | none ↦ record s { main = ready; lost = s.lost + 1 }
          ])
      cases none d =
          moves_on s.shared.in_flight s.shared.permit ready (s.lost + 1) h tt (λ k. refl) refl
      cases (some tasks) d =
          moves_on s.shared.in_flight s.shared.permit ready s.lost
            (delivered-IsRecorded n o s env tasks (d tasks refl) known h) tt (λ k. refl) refl

  pub step_main-IsRecorded :
      (n o : ℕ) (s : System A P) (m : Main P)
      → o ≤ 1
      → n < u64_max
      → s.main ≡ m
      → IsRecorded n o s
      → IsRecorded (n + 1) o (step_main_at m s)
  unfolding step_main_at inc_in_flight
  step_main-IsRecorded n o s ready one small e h = later-IsRecorded h
  step_main-IsRecorded n o s quiescent one small e h = later-IsRecorded h
  step_main-IsRecorded n o s checking one small e h = elim (Bool-cases (s.shared.in_flight == 0)) [
    | inl none_ ↦
        rw none_
          (moves_on s.shared.in_flight s.shared.permit quiescent s.lost h tt (λ k. refl) refl)
    | inr some_ ↦
        rw some_ (moves_on s.shared.in_flight s.shared.permit sleeping s.lost h tt (λ k. refl) refl)
  ]
  step_main-IsRecorded n o s sleeping one small e h = elim (Bool-cases s.shared.permit) [
    | inl woken ↦
        simp woken (moves_on s.shared.in_flight false checking s.lost h tt (λ k. refl) refl)
    | inr asleep ↦ simp asleep (later-IsRecorded h)
  ]
  step_main-IsRecorded n o s (origin_numbered sink env) one small e h =
      origin_emit-IsRecorded n o sink env s one small e h
  step_main-IsRecorded n o s (origin_logged sink env) one small e h =
      moves_on _ s.shared.permit (origin_counted sink env) s.lost h (rw e at h.origin) (λ k. refl)
        refl
  step_main-IsRecorded n o s (origin_counted sink env) one small e h =
      origin_delivery-IsRecorded n o sink env s e h

  pub send_external-IsRecorded :
      (n o : ℕ) (to : Addr) (msg : P) (s : System A P)
      → n < u64_max
      → s.main ≡ ready
      → IsRecorded n o s
      → IsRecorded (n + 1) (o + 1) (send_external to msg s)
  unfolding send_external next_msg_id
  send_external-IsRecorded n o to msg s small e h =
      let l = later-IsRecorded h in
      record {
        faithful = h.faithful;
        sound = l.sound;
        inner = h.inner;
        distinct = h.distinct;
        actors = h.actors;
        origin =
            (increment-IsBounded new "world" small (new-IsBounded n), omega (arith, h.numbers));
        once = λ k b. ground (arith, h.once k b, h.unused k b, h.numbers, ap (taken_by_main k) e);
        unused = λ k b lt. ground (arith, h.unused k b, h.numbers, ap (taken_by_main k) e);
        numbers = omega (arith, h.numbers);
        origins = omega (arith, h.origins, ap starting e);
        few = omega (arith, h.few);
        world_first = h.world_first;
      }
