-- ===== src/Core/Stamps.antt =====
-- The causal stamps of crates/lichtung-core/src/context.rs: what the calls of a handler record.
use mathlib.Core.List.{append-nil, append_assoc}
use lichtung.Prelude.{
  ℕ, String, List, [], ◌∷◌, ◌++◌, none, some, true, ◌+◌, ◌%◌, ◌<◌, ◌≤◌, ◌≡◌, eq_iff, refl, arith,
  length, ap, ◌∙◌,
}
use lichtung.Prelude.Words.{u64_mod, u64_max}
use lichtung.Clock.{VectorClock, increment, get, happens_before, to_string_map, tick}
use lichtung.Clock.Merge.{get-increment, happens_before-increment}
use lichtung.Log.{CausalEvent, emit, compute}
use lichtung.Core.{
  Context, Dispatch, Action, send_to, compute_step, perform, run_actions, send,
  compute as compute_call,
}
use lichtung.Core.Event.{Envelope, id_of, emit_event, compute_event}

-- What a runtime's backend keeps of the events that it is given.
pub record Logged {S P : Type 0} (d : Dispatch S P) : Type 0 where
  pub log : S → List CausalEvent
  pub numbering : (b : S) → log ((d.next_msg_id b).0) ≡ log b
  pub recording : (e : CausalEvent) (b : S) → log (d.record_event e b) ≡ log b ++ e ∷ []
  pub delivering : (sink : ℕ) (env : Envelope P) (b : S) → log (d.deliver sink env b) ≡ log b

abbrev pub IsKind : {P : Type 0} → String → Action P → CausalEvent → Type 0
IsKind id (send_to to msg) e = (e.op ≡ emit) × (e.src ≡ some id) × (e.dst ≡ some to.id)
IsKind id compute_step e = (e.op ≡ compute) × (e.msg_id ≡ none)

-- The event that a call records on the world-line of `id`.
pub record IsStamped {P : Type 0} (id : String) (seq lamport : ℕ) (clock : VectorClock)
    (action : Action P) (e : CausalEvent) : Type 0 where
  pub named : e.id ≡ id_of id seq
  pub owned : e.actor ≡ id
  pub numbered : e.seq ≡ seq
  pub timed : e.lamport ≡ lamport
  pub clocked : e.vclock ≡ to_string_map clock
  pub kind : IsKind id action e

-- One event for each call, in order: each with the next sequence number and the next Lamport stamp,
-- and a clock that the clock before it happens before.
abbrev pub IsWorldLine :
    {P : Type 0} → String → ℕ → ℕ → VectorClock → List (Action P) → List CausalEvent → Type 0
IsWorldLine id seq lamport clock [] [] = Unit
IsWorldLine id seq lamport clock [] (e ∷ es) = ⊥
IsWorldLine id seq lamport clock (a ∷ actions) [] = ⊥
IsWorldLine id seq lamport clock (a ∷ actions) (e ∷ es) =
    IsStamped id (seq + 1) (lamport + 1) (increment clock id) a e
    × (happens_before clock (increment clock id) ≡ true)
    × IsWorldLine id (seq + 1) (lamport + 1) (increment clock id) actions es

module _ {S P : Type 0} (d : Dispatch S P) (l : Logged d) where
  record Performed (c after : Context S) (a : Action P) : Type 0 where
    same_id : after.id ≡ c.id
    next_seq : after.seq ≡ c.seq + 1
    next_lamport : after.lamport.value ≡ c.lamport.value + 1
    next_clock : after.clock ≡ increment c.clock c.id
    event : CausalEvent
    stamped : IsStamped c.id (c.seq + 1) (c.lamport.value + 1) (increment c.clock c.id) a event
    recorded : l.log after.backend ≡ l.log c.backend ++ event ∷ []

  perform-Performed :
      (c : Context S) (a : Action P)
      → c.seq < u64_max
      → c.lamport.value < u64_max
      → Performed c (perform d c a) a
  unfolding perform send compute_call tick emit_event compute_event
  perform-Performed c (send_to to msg) h k =
      let b = (d.next_msg_id c.backend).0 in
      let env : Envelope P = record {
        msg = msg;
        vclock = increment c.clock c.id;
        lamport = record { value = (c.lamport.value + 1) % u64_mod };
        msg_id = (d.next_msg_id c.backend).1;
        src = c.id;
        dst = to.id;
      } in
      let e = emit_event c.id ((c.seq + 1) % u64_mod) env in
      let seq_eq : (c.seq + 1) % u64_mod ≡ c.seq + 1 = omega arith in
      record {
        same_id = refl;
        next_seq = omega arith;
        next_lamport = omega arith;
        next_clock = refl;
        event = e;
        stamped = record {
          named = ap (id_of c.id) seq_eq;
          owned = refl;
          numbered = seq_eq;
          timed = omega arith;
          clocked = refl;
          kind = (refl, refl, refl);
        };
        recorded =
            l.delivering to.sink env (d.record_event e b)
            ∙ l.recording e b
            ∙ ap (λ (es : List CausalEvent). es ++ e ∷ []) (l.numbering c.backend);
      }
  perform-Performed c compute_step h k =
      let e =
        compute_event c.id ((c.seq + 1) % u64_mod) (increment c.clock c.id)
          ((c.lamport.value + 1) % u64_mod) in
      let seq_eq : (c.seq + 1) % u64_mod ≡ c.seq + 1 = omega arith in
      record {
        same_id = refl;
        next_seq = omega arith;
        next_lamport = omega arith;
        next_clock = refl;
        event = e;
        stamped = record {
          named = ap (id_of c.id) seq_eq;
          owned = refl;
          numbered = seq_eq;
          timed = omega arith;
          clocked = refl;
          kind = (refl, refl);
        };
        recorded = l.recording e c.backend;
      }

  abbrev Continued : Context S → Context S → List (Action P) → Type 0
  Continued c last actions =
      (es : List CausalEvent) × (l.log last.backend ≡ l.log c.backend ++ es)
      × IsWorldLine c.id c.seq c.lamport.value c.clock actions es

  -- A call in front of the others.
  continue_back :
      (c after last : Context S) (a : Action P) (actions : List (Action P))
      → Performed c after a
      → get c.clock c.id < u64_max
      → Continued after last actions
      → Continued c last (a ∷ actions)
  continue_back c after last a actions p h (es, logged, line) = (
    p.event ∷ es,
    logged
        ∙ ap (λ (es' : List CausalEvent). es' ++ es) p.recorded
        ∙ append_assoc (l.log c.backend) (p.event ∷ []) es,
    (
      p.stamped,
      happens_before-increment c.clock c.id h,
      rw (p.same_id, p.next_seq, p.next_lamport, p.next_clock) at line,
    ),
  )

  counter_after :
      (c after : Context S) (a : Action P)
      → Performed c after a
      → get c.clock c.id < u64_max
      → get after.clock after.id ≡ get c.clock c.id + 1
  counter_after c after a p h =
      rw (p.next_clock, p.same_id)
        (ground (arith, get-increment c.clock c.id c.id, eq_iff c.id c.id))

  -- What the calls of one handler record with any backend that logs: one event for each call, in the
  -- order of the calls, which continue the actor's world-line, while none of the three counters
  -- passes 2^64 - 1.
  pub run_actions-IsWorldLine :
      (c : Context S) (actions : List (Action P))
      → c.seq + length actions ≤ u64_max
      → c.lamport.value + length actions ≤ u64_max
      → get c.clock c.id + length actions ≤ u64_max
      → (es : List CausalEvent) × (l.log (run_actions d c actions).backend ≡ l.log c.backend ++ es)
        × IsWorldLine c.id c.seq c.lamport.value c.clock actions es
  unfolding run_actions
  run_actions-IsWorldLine c [] h k m = ([], rw append-nil, tt)
  run_actions-IsWorldLine c (a ∷ actions) h k m =
      let after = perform d c a in
      let p = perform-Performed c a (omega arith) (omega arith) in
      continue_back c after (run_actions d after actions) a actions p (omega arith) (
        run_actions-IsWorldLine after actions (omega (arith, p.next_seq))
          (omega (arith, p.next_lamport)) (omega (arith, counter_after c after a p (omega arith))))
