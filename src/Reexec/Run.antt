-- ===== src/Reexec/Run.antt =====
-- The driver of crates/lichtung-replay/src/reexec.rs.
mod Soundness
mod Loops
mod Ends
pub mod Faithful
use Prim.Native.String.{◌++◌ as append_str}
use lichtung.Prelude.{
  ℕ, zero, suc, String, List, [], ◌∷◌, ◌++◌, Option, none, some, Bool, true, false, ◌+◌, ◌-◌, ◌%◌,
  ◌==◌, get_elem?, if◌then◌else◌,
}
use lichtung.Prelude.Words.{u64_mod, u64_max}
use lichtung.Prelude.Decimal.{show}
use lichtung.Prelude.Result.{Result, ok, err}
use lichtung.Map.{Map, lookup, insert, keys, get_or_zero}
use lichtung.Clock.{VectorClock, Lamport, new, start, merge, increment, update}
use lichtung.Log.{CausalEvent, recv, op_eq}
use lichtung.Core.{Dispatch, Actor, Action, Context, run_actions}
use lichtung.Core.Event.{Envelope, recv_event}
use lichtung.Poset.{ReplayError}
use lichtung.Engine.{Replayed, replay_log}
use lichtung.Reexec.{
  parse_mid, vclock_from, index_log, or_none, Detail, Divergence, ReplayState, verify, diverge,
  more_sends, malformed_origin, no_origin, no_msg_id, no_message, no_actor, not_produced,
  pending_get, pending_remove, pending_insert,
}
use lichtung.Reexec.Backend.{
  parse_mid?, recorded_mid, next_msg_id, replay_dispatch, seed_origin, seed_origins, check_complete,
  fresh_state,
}

abbrev pub Stamps : Type 0
Stamps = VectorClock × Lamport × ℕ

abbrev pub no_stamps : Stamps
no_stamps = (new, start, 0)

abbrev pub stamps_of : String → Map Stamps → Stamps
stamps_of id clocks = elim (lookup id clocks) [ none ↦ no_stamps | some s ↦ s ]

-- `ErasedActor`: an actor and its state.
pub record Erased (A P : Type 0) : Type 0 where
  pub actor : Actor A P
  pub state : A

-- `ReplaySystem`
pub record ReplaySystem (A P : Type 0) : Type 0 where
  pub actors : Map (Erased A P)
  pub origins : List (String × P)

-- What the loops of `replay` change.
pub record Progress (A P : Type 0) : Type 0 where
  pub actors : Map (Erased A P)
  pub clocks : Map Stamps
  pub state : ReplayState P

module _ {A P : Type 0} where
  abbrev pub new_system : ReplaySystem A P
  new_system = record { actors = []; origins = [] }

  unfoldable pub spawn : String → Actor A P → A → ReplaySystem A P → ReplaySystem A P
  spawn name actor state sys = record sys {
    actors = insert name (record { actor = actor; state = state }) sys.actors;
  }

  unfoldable pub origin : String → P → ReplaySystem A P → ReplaySystem A P
  origin to msg sys = record sys { origins = sys.origins ++ (to, msg) ∷ [] }

  -- A downcast that fails is a panic, which is no answer.
  unfoldable pub answer : Erased A P → Option P → Option (A × List (Action P))
  answer a none = some (a.actor.started a.state)
  answer a (some msg) =
      if a.actor.accepts a.state msg then some (a.actor.handle a.state msg) else none

  -- The run of one `started` or `handle`.
  unfoldable pub drive_actor :
      String → Erased A P → A × List (Action P) → Progress A P → Progress A P
  drive_actor dst a (state', calls) p =
      let (clock, lamport, seq) = stamps_of dst p.clocks in
      let ctx =
        run_actions (replay_dispatch dst)
          (record { id = dst; clock = clock; lamport = lamport; seq = seq; backend = p.state })
          calls in
      record {
        actors = insert dst (record a { state = state' }) p.actors;
        clocks = insert dst (ctx.clock, ctx.lamport, ctx.seq) p.clocks;
        state = ctx.backend;
      }

  -- `drive`; both callers pass an actor that is there.
  unfoldable pub drive : String → Option P → Progress A P → Option (Progress A P)
  unfolding drive_actor answer
  drive dst msg p = elim (lookup dst p.actors) [
    | none ↦ none
    | some a ↦ elim (answer a msg) [ none ↦ none | some r ↦ some (drive_actor dst a r p) ]
  ]

  -- The `started()` pass.
  unfoldable pub start_all : List String → Progress A P → Option (Progress A P)
  unfolding drive
  start_all [] p = some p
  start_all (name ∷ names) p = elim (drive name none p) [
    | none ↦ none
    | some p' ↦ start_all names p'
  ]

  -- A receipt: the stamps, and the check of the event.
  unfoldable pub stamp_receipt : CausalEvent → ℕ → Envelope P → Progress A P → Progress A P
  stamp_receipt ev m env p =
      let (clock, lamport, seq) = stamps_of ev.actor p.clocks in
      let clock' = increment (merge clock env.vclock) ev.actor in
      let (lamport', lam) = update lamport env.lamport in
      let seq' = (seq + 1) % u64_mod in
      let state = record p.state { pending = pending_remove m p.state.pending } in
      record p {
        clocks = insert ev.actor (clock', lamport', seq') p.clocks;
        state = verify (recv_event ev.actor seq' clock' lam env) state;
      }

  abbrev pub note : String → Detail → Progress A P → Progress A P
  note id detail p = record p { state = diverge id detail p.state }

  -- The body of the loop over the timeline, at a receipt.
  unfoldable pub replay_receipt : CausalEvent → Progress A P → Option (Progress A P)
  unfolding stamp_receipt drive
  replay_receipt ev p = elim (parse_mid? ev.msg_id) [
    | none ↦ some (note ev.id no_msg_id p)
    | some m ↦ elim (pending_get m p.state.pending) [
      | none ↦ some (note ev.id no_message p)
      | some env ↦
          let p' = stamp_receipt ev m env p in
          elim (lookup ev.actor p.actors) [
            | none ↦ some (note ev.id no_actor p')
            | some a ↦ drive ev.actor (some env.msg) p'
          ]
    ]
  ]

  unfoldable pub replay_events : List CausalEvent → Progress A P → Option (Progress A P)
  unfolding replay_receipt
  replay_events [] p = some p
  replay_events (ev ∷ timeline) p = elim (op_eq ev.op recv) [
    | false ↦ replay_events timeline p
    | true ↦ elim (replay_receipt ev p) [ none ↦ none | some p' ↦ replay_events timeline p' ]
  ]

  abbrev pub fresh_clocks : Map (Erased A P) → Map Stamps
  fresh_clocks [] = []
  fresh_clocks ((id, a) ∷ actors) = (id, no_stamps) ∷ fresh_clocks actors

  -- The state behind the origins.
  abbrev pub seeded : ReplaySystem A P → List CausalEvent → Progress A P
  seeded sys log = record {
    actors = sys.actors;
    clocks = fresh_clocks sys.actors;
    state =
        seed_origins sys.origins 0 (or_none (lookup "world" (index_log log).emits_by_actor))
          (fresh_state log);
  }

  -- The two passes over the actors.
  unfoldable pub execute :
      ReplaySystem A P → List CausalEvent → List CausalEvent → Option (Progress A P)
  unfolding start_all replay_events
  execute sys log timeline = elim (start_all (keys sys.actors) (seeded sys log)) [
    | none ↦ none
    | some p ↦ replay_events timeline p
  ]

-- `ReplayOutcome`, with the last state of the run for its history.
pub record ReplayOutcome (P : Type 0) : Type 0 where
  pub replayed : Replayed
  pub last : ReplayState P

abbrev pub divergences : {P : Type 0} → ReplayOutcome P → List Divergence
divergences o = o.last.divergences

abbrev pub is_faithful : {P : Type 0} → ReplayOutcome P → Bool
is_faithful o = elim (divergences o) [ [] ↦ true | _ ↦ false ]

-- An error of `replay`, or the panic of `handle_any`.
pub data Failure : Type 0 where
  refused : ReplayError → Failure
  panicked : Failure

module _ {A P : Type 0} where
  unfoldable pub replay : ReplaySystem A P → List CausalEvent → Result Failure (ReplayOutcome P)
  unfolding execute check_complete
  replay sys log = elim (replay_log log) [
    | err e ↦ err (refused e)
    | ok replayed ↦ elim (execute sys log replayed.timeline) [
      | none ↦ err panicked
      | some p ↦ ok (record { replayed = replayed; last = check_complete log p.state })
    ]
  ]
