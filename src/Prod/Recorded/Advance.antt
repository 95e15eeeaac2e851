-- ===== src/Prod/Recorded/Advance.antt =====
-- The operations of `actor_loop` in crates/lichtung-prod/src/system.rs, and of `Context` for it, keep
-- the loop sound.
use lichtung.Prelude.{
  ℕ, List, [], ◌∷◌, ◌++◌, Bool, true, false, ◌+◌, ◌%◌, ◌==◌, ◌≡◌, ◌≤◌, ◌<◌, inl, inr, refl, arith,
  Bool-cases, sym, ◌∙◌, ap,
}
use lichtung.Prelude.Words.{u64_mod, u64_max}
use lichtung.Clock.{VectorClock, increment, tick, to_string_map}
use lichtung.Clock.Canonical.{to_string_map-entries}
use lichtung.Clock.Merge.{happens_before-increment}
use lichtung.Core.{Action, Addr, send_to, compute_step}
use lichtung.Core.Event.{Envelope, emit_event, recv_event, compute_event, mid}
use lichtung.Log.{CausalEvent}
use lichtung.Engine.Append.{Fresh, Sent}
use lichtung.Poset.HbStrict.{hb_strict-eq-happens_before}
use lichtung.Prod.{
  SharedRuntime, next_msg_id, record_event, inc_in_flight, sub_in_flight, notify_one, Phase, Task,
  created, waiting, finished, ended, received, running, numbered, logged, counted, refused,
  finished_last, refused_last,
}
use lichtung.Prod.System.{advance, dispatch_message, begin_send, do_compute}
use lichtung.Prod.Recorded.{
  IsStamped, AllBehind, IsKnown-le, IsStamped-le, IsBounded-le, increment-IsBounded,
  advance-IsStamped, record_own-IsStamped, emit-IsKnown, own-Appendable, advanced-AllBehind,
}
use lichtung.Prod.Recorded.Claims.{
  taken, emitted, emitted-append, emitted_none, emitted-emit, emitted-recv, emitted-compute,
}
use lichtung.Prod.Recorded.Loops.{IsSound, Advanced, at_rest, is_pending, Stage, quiet, rests}
use lichtung.Prod.Recorded.Receive.{receive-Advanced}

module _ {A P : Type 0} where
  module _ (n : ℕ) (t : Task A P) (s : SharedRuntime) (small : n < u64_max) where
    abbrev At : Phase P → Type 0
    At p = IsSound n s.events t.id t.clock t.seq t.inbox p

    -- The loop records an event with its stamps, and moves to a phase without one.
    recorded :
        (p : Phase P) (t₁ : Task A P) (state : A) (p' : Phase P) (e : CausalEvent)
        → t₁.id ≡ t.id
        → IsStamped (n + 1) s.events t₁.id t₁.clock t₁.seq t₁.inbox
        → AllBehind s.events t₁.id t₁.clock t₁.seq
        → is_pending p' ≡ false
        → (e.actor ≡ t₁.id) × (e.seq ≡ t₁.seq) × (e.vclock ≡ t₁.clock.entries)
        → Fresh s.events e
        → Sent s.events e
        → Stage (n + 1) (s.events ++ e ∷ []) t₁.clock p'
        → ((k : ℕ) → k ≤ u64_max → taken k p' + emitted k (e ∷ []) ≤ taken k p)
        → Advanced n p t s (record t₁ { state = state; phase = p' }) (record_event e s)
    unfolding record_event
    recorded p t₁ state p' e i st b rest (ea, eq, ec) fresh sent stage claims = record {
      same_id = i;
      sound = at_rest p' rest (record_own-IsStamped e st eq ec) stage;
      records =
          inr (
            e,
            refl,
            ea ∙ i,
            own-Appendable s.events t₁.id t₁.clock t₁.seq e b ea eq ec fresh sent,
          );
      numbers = omega arith;
      claims = λ k b. omega (arith, claims k b, emitted-append k s.events e);
    }

    kept : {p : Phase P} → At p → IsStamped (n + 1) s.events t.id t.clock t.seq t.inbox
    kept h = IsStamped-le (omega arith) (λ x m. m) (λ x m a. m) h.stamped

    recv-Advanced :
        (env : Envelope P) (state : A) (p' : Phase P)
        → is_pending p' ≡ false
        → ((log : List CausalEvent) → Stage (n + 1) log t.clock p')
        → ((k : ℕ) → taken k p' ≡ 0)
        → At (received env)
        → Advanced n
            (received env)
            t
            s
            (record t { state = state; phase = p' })
            (record_event (recv_event t.id t.seq t.clock t.lamport.value env) s)
    unfolding recv_event mid
    recv-Advanced env state p' rest stage none_ h =
        recorded (received env) t state p' _ refl (kept h) (h.behind refl) rest
          (refl, refl, to_string_map-entries t.clock h.stamped.bounded.sorted) (λ o. absurd (cc))
          (λ o.
            let (k, before) = h.stage in
            let (x, m, op, name, same) = k.emitted in
            (
              x,
              m,
              op,
              name,
              rw
                  (
                    same,
                    to_string_map-entries t.clock h.stamped.bounded.sorted,
                    hb_strict-eq-happens_before,
                  )
                  before,
            ))
          (stage _)
          λ k b. omega (arith, none_ k, emitted-recv k t.id t.seq t.clock t.lamport.value env)

    dispatch-Advanced :
        (env : Envelope P)
        → At (received env)
        → Advanced n
            (received env)
            t
            s
            (dispatch_message env t)
            (record_event (recv_event t.id t.seq t.clock t.lamport.value env) s)
    unfolding dispatch_message
    dispatch-Advanced env h = elim (Bool-cases (t.actor.accepts t.state env.msg)) [
      | inl good ↦ rw good (recv-Advanced env _ (running true _) refl (λ log. tt) (λ k. refl) h)
      | inr bad ↦ rw bad (recv-Advanced env t.state finished refl (λ log. tt) (λ k. refl) h)
    ]

    -- The stamps of a call.
    abbrev call_clock : VectorClock
    call_clock = increment t.clock t.id

    called :
        {p : Phase P}
        → At p
        → IsStamped (n + 1) s.events t.id call_clock ((t.seq + 1) % u64_mod) t.inbox
          × AllBehind s.events t.id call_clock ((t.seq + 1) % u64_mod)
    called h =
        let b = h.stamped.bounded in
        let later = happens_before-increment t.clock t.id (omega (arith, b.small t.id)) in
        let next : (t.seq + 1) % u64_mod ≡ t.seq + 1 = omega (arith, h.stamped.numbered) in
        (
          advance-IsStamped h.stamped later next (increment-IsBounded t.clock t.id small b)
              (λ x m. m),
          advanced-AllBehind s.events t.id t.clock call_clock t.seq _ h.stamped.up_to later
              (omega arith),
        )

    compute-Advanced :
        (busy : Bool) (rest : List (Action P))
        → At (running busy (compute_step ∷ rest))
        → Advanced n
            (running busy (compute_step ∷ rest))
            t
            s
            (do_compute busy rest t s).0
            (do_compute busy rest t s).1
    unfolding do_compute tick compute_event
    compute-Advanced busy rest h =
        let lam = (t.lamport.value + 1) % u64_mod in
        let t₁ : Task A P = record t {
          clock = call_clock;
          lamport = record { value = lam };
          seq = (t.seq + 1) % u64_mod;
        } in
        let (st, b) = called h in
        recorded (running busy (compute_step ∷ rest)) t₁ t.state (running busy rest) _ refl st b
          refl (refl, refl, to_string_map-entries call_clock st.bounded.sorted) (λ o. absurd (cc))
          (λ o. absurd (cc)) tt
          λ k b. omega (arith, emitted-compute k t.id ((t.seq + 1) % u64_mod) call_clock lam)

    begin_send-Advanced :
        (to : Addr) (msg : P) (busy : Bool) (rest : List (Action P))
        → s.msg_id ≤ n
        → At (running busy (send_to to msg ∷ rest))
        → Advanced n
            (running busy (send_to to msg ∷ rest))
            t
            s
            (begin_send to msg busy rest t s).0
            (begin_send to msg busy rest t s).1
    unfolding begin_send next_msg_id
    begin_send-Advanced to msg busy rest le h =
        let (st, b) = called h in
        record {
          same_id = refl;
          sound = record { stamped = st; behind = λ e. b; stage = (refl, omega arith) };
          records = inl refl;
          numbers = omega arith;
          claims = λ k b. ground arith;
        }

    emit-Advanced :
        (sink : ℕ) (env : Envelope P) (busy : Bool) (rest : List (Action P))
        → (taken env.msg_id (numbered sink env busy rest) + emitted env.msg_id s.events ≤ 1)
        → At (numbered sink env busy rest)
        → Advanced n
            (numbered sink env busy rest)
            t
            s
            (record t { phase = logged sink env busy rest })
            (record_event (emit_event t.id t.seq env) s)
    unfolding emit_event
    emit-Advanced sink env busy rest once h =
        let sorted = h.stamped.bounded.sorted in
        let wire : to_string_map env.vclock ≡ t.clock.entries =
          ap to_string_map h.stage.0 ∙ to_string_map-entries t.clock sorted in
        recorded (numbered sink env busy rest) t t.state (logged sink env busy rest) _ refl (kept h)
          (h.behind refl) refl (refl, refl, wire)
          (λ o x m op name same id.
            emitted_none env.msg_id s.events (ground (arith, once)) x m op (same ∙ sym id))
          (λ o. absurd (cc))
          (emit-IsKnown s.events t.id t.seq env
            (rw (h.stage.0) (IsBounded-le (omega arith) h.stamped.bounded)))
          λ k b. omega (arith, emitted-emit k t.id t.seq env b (omega (arith, h.stage.1)))

    -- The next operation of a loop keeps it sound. A loop that stands at a delivery is not meant here.
    pub advance-Advanced :
        (p : Phase P)
        → t.phase ≡ p
        → s.msg_id ≤ n
        → ((k : ℕ) → k ≤ u64_max → taken k p + emitted k s.events ≤ 1)
        → At p
        → Advanced n p t s (advance p t s).0 (advance p t s).1
    unfolding advance inc_in_flight sub_in_flight notify_one
    advance-Advanced created e le once h =
        quiet n created t s _ s refl refl refl (λ k. refl) (rests n created t s _ refl tt h)
    advance-Advanced waiting e le once h = receive-Advanced n t s small e h
    advance-Advanced (received env) e le once h = dispatch-Advanced env h
    advance-Advanced (running busy (send_to to msg ∷ rest)) e le once h =
        begin_send-Advanced to msg busy rest le h
    advance-Advanced (running busy (compute_step ∷ rest)) e le once h = compute-Advanced busy rest h
    advance-Advanced (running true []) e le once h =
        quiet n (running true []) t s _ s refl refl refl (λ k. refl)
          (rests n (running true []) t s finished refl tt h)
    advance-Advanced (running false []) e le once h =
        quiet n (running false []) t s _ s refl refl refl (λ k. refl)
          (rests n (running false []) t s waiting refl tt h)
    advance-Advanced (numbered sink env busy rest) e le once h =
        emit-Advanced sink env busy rest (once env.msg_id (omega (arith, h.stage.1))) h
    advance-Advanced (logged sink env busy rest) e le once h =
        quiet n (logged sink env busy rest) t s _ _ refl refl refl (λ k. refl)
          (rests n (logged sink env busy rest) t s (counted sink env busy rest) refl
            (IsKnown-le (omega arith) (λ x m. m) h.stage) h)
    advance-Advanced (counted sink env busy rest) e le once h =
        quiet n (counted sink env busy rest) t s t s refl refl refl (λ k. ap (taken k) e)
          (rests n (counted sink env busy rest) t s t.phase (ap is_pending e)
            (rw e (IsKnown-le (omega arith) (λ x m. m) h.stage)) h)
    advance-Advanced (refused busy rest) e le once h = elim (Bool-cases (s.in_flight == 1)) [
      | inl last ↦ rw last (
          quiet n (refused busy rest) t s _ _ refl refl refl (λ k. refl)
            (rests n (refused busy rest) t s (refused_last busy rest) refl tt h))
      | inr more ↦ rw more (
          quiet n (refused busy rest) t s _ _ refl refl refl (λ k. refl)
            (rests n (refused busy rest) t s (running busy rest) refl tt h))
    ]
    advance-Advanced (refused_last busy rest) e le once h =
        quiet n (refused_last busy rest) t s _ _ refl refl refl (λ k. refl)
          (rests n (refused_last busy rest) t s _ refl tt h)
    advance-Advanced finished e le once h = elim (Bool-cases (s.in_flight == 1)) [
      | inl last ↦ rw last (
          quiet n finished t s _ _ refl refl refl (λ k. refl)
            (rests n finished t s finished_last refl tt h))
      | inr more ↦ rw more (
          quiet n finished t s _ _ refl refl refl (λ k. refl)
            (rests n finished t s waiting refl tt h))
    ]
    advance-Advanced finished_last e le once h =
        quiet n finished_last t s _ _ refl refl refl (λ k. refl)
          (rests n finished_last t s _ refl tt h)
    advance-Advanced ended e le once h =
        quiet n ended t s t s refl refl refl (λ k. ap (taken k) e)
          (rests n ended t s t.phase (ap is_pending e) (rw e tt) h)
