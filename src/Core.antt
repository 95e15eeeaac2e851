-- ===== src/Core.antt =====
-- crates/lichtung-core: the boundary between actors and runtimes. `P` is the type of payloads,
-- `Box<dyn Any + Send>`; `S` is the state of a runtime's backend.
pub mod Event
pub mod Names
pub mod Stamps
pub mod Keeps
use Event.{emit_event, compute_event, Envelope}
use lichtung.Prelude.{ℕ, String, List, [], ◌∷◌, Option, none, some, Bool, ◌+◌, ◌%◌}
use lichtung.Prelude.Words.{u64_mod}
use lichtung.Clock.{ActorId, VectorClock, Lamport, increment, tick}
use lichtung.Log.{CausalEvent}

-- `Addr`: the id of an actor and its sink. A sink is known by its number.
pub record Addr : Type 0 where
  pub id : ActorId
  pub sink : ℕ

-- `trait Dispatch`, what a context asks of the runtime.
pub record Dispatch (S P : Type 0) : Type 0 where
  pub next_msg_id : S → S × ℕ
  pub record_event : CausalEvent → S → S
  pub deliver : ℕ → Envelope P → S → S

-- `Context`: what it borrows from the actor's loop, and the backend.
pub record Context (S : Type 0) : Type 0 where
  pub id : String
  pub clock : VectorClock
  pub lamport : Lamport
  pub seq : ℕ
  pub backend : S

-- A handler reads its own id from the context, which never changes, and else has these two calls,
-- which tell it nothing: what it does is a list of calls.
pub data Action (P : Type 0) : Type 0 where
  send_to : Addr → P → Action P
  compute_step : Action P

-- `trait Actor` for actors with states `A`. A payload that is not accepted fails the downcast to
-- `Actor::Msg`.
pub record Actor (A P : Type 0) : Type 0 where
  pub started : A → A × List (Action P)
  pub accepts : A → P → Bool
  pub handle : A → P → A × List (Action P)

module _ {S P : Type 0} (d : Dispatch S P) where
  unfoldable pub send : Context S → Addr → P → Context S
  send c to msg =
      let clock = increment c.clock c.id in
      let (lamport, lam) = tick c.lamport in
      let seq = (c.seq + 1) % u64_mod in
      let (b, msg_id) = d.next_msg_id c.backend in
      let env : Envelope P = record {
        msg = msg;
        vclock = clock;
        lamport = record { value = lam };
        msg_id = msg_id;
        src = c.id;
        dst = to.id;
      } in
      let b' = d.record_event (emit_event c.id seq env) b in
      record {
        id = c.id;
        clock = clock;
        lamport = lamport;
        seq = seq;
        backend = d.deliver to.sink env b';
      }

  unfoldable pub compute : Context S → Context S
  compute c =
      let clock = increment c.clock c.id in
      let (lamport, lam) = tick c.lamport in
      let seq = (c.seq + 1) % u64_mod in
      record {
        id = c.id;
        clock = clock;
        lamport = lamport;
        seq = seq;
        backend = d.record_event (compute_event c.id seq clock lam) c.backend;
      }

  -- One call of a handler.
  unfoldable pub perform : Context S → Action P → Context S
  unfolding send compute
  perform c (send_to to msg) = send c to msg
  perform c compute_step = compute c

  unfoldable pub run_actions : Context S → List (Action P) → Context S
  unfolding perform
  run_actions c [] = c
  run_actions c (a ∷ actions) = run_actions (perform c a) actions
