-- ===== src/Reexec.antt =====
-- crates/lichtung-replay/src/reexec.rs: the re-execution of the actors over a recorded log. `A` is the
-- type of the actors' states, `P` that of payloads. A `HashMap` is a `Map`: only its keys, and for the
-- actors' names their sorted order, are used.
pub mod Index
pub mod Backend
pub mod Run
pub mod Numbers
use Prim.Native.Char.{code}
use lichtung.Prelude.{
  ℕ, zero, suc, String, List, [], ◌∷◌, ◌++◌, Option, none, some, Bool, true, false, ◌+◌, ◌-◌, ◌%◌,
  leb, ◌==◌, get_elem?, if◌then◌else◌,
}
use lichtung.Prelude.Words.{u64_mod, u64_max}
use lichtung.Prelude.Decimal.{parse_u64}
use lichtung.Map.{Map, lookup, insert, remove, keys, get_or_zero}
use lichtung.Clock.{VectorClock, set, new}
use lichtung.Log.{CausalEvent, emit, op_eq, event_eq}
use lichtung.Core.{Dispatch, Actor}
use lichtung.Core.Event.{Envelope}
use lichtung.Engine.{Replayed}

-- `s.strip_prefix('m').and_then(|d| d.parse().ok())`
unfoldable pub parse_mid : String → Option ℕ
parse_mid String.[] = none
parse_mid (String.◌∷◌ c d) = if code c == 109 then parse_u64 d else none

set_all : Map ℕ → VectorClock → VectorClock
set_all [] vc = vc
set_all ((k, v) ∷ map) vc = set_all map (set vc k v)

unfoldable pub vclock_from : Map ℕ → VectorClock
unfolding set_all
vclock_from map = set_all map new

pub record RecordedIndex : Type 0 where
  pub by_id : Map CausalEvent
  pub emits_by_actor : Map (List CausalEvent)

abbrev pub or_none : Option (List CausalEvent) → List CausalEvent
or_none none = []
or_none (some v) = v

unfoldable pub index_event : CausalEvent → RecordedIndex → RecordedIndex
index_event e r = record {
  by_id = insert e.id e r.by_id;
  emits_by_actor =
      if op_eq e.op emit
      then insert e.actor (or_none (lookup e.actor r.emits_by_actor) ++ e ∷ []) r.emits_by_actor
      else r.emits_by_actor;
}

-- The loop over the log.
unfoldable pub index_events : List CausalEvent → RecordedIndex → RecordedIndex
unfolding index_event
index_events [] r = r
index_events (e ∷ log) r = index_events log (index_event e r)

-- `v.sort_by_key(|e| e.seq)`, a stable sort.
insert_event : CausalEvent → List CausalEvent → List CausalEvent
insert_event e [] = e ∷ []
insert_event e (f ∷ v) = if leb e.seq f.seq then e ∷ f ∷ v else f ∷ insert_event e v

unfoldable pub sort_events : List CausalEvent → List CausalEvent
unfolding insert_event
sort_events [] = []
sort_events (e ∷ v) = insert_event e (sort_events v)

-- The loop over `values_mut`.
unfoldable pub sort_values : Map (List CausalEvent) → Map (List CausalEvent)
sort_values [] = []
sort_values ((actor, v) ∷ m) = (actor, sort_events v) ∷ sort_values m

-- `RecordedIndex::build`
unfoldable pub index_log : List CausalEvent → RecordedIndex
unfolding index_events sort_values
index_log log =
    let r = index_events log (record { by_id = []; emits_by_actor = [] }) in
    record r { emits_by_actor = sort_values r.emits_by_actor }

-- What the texts of `Divergence::detail` say.
pub data Detail : Type 0 where
  diverges : CausalEvent → CausalEvent → Detail
  no_counterpart more_sends malformed_origin no_origin no_msg_id no_message no_actor not_produced :
      Detail

pub record Divergence : Type 0 where
  pub event_id : String
  pub detail : Detail

-- `HashMap<u64, Envelope>`
abbrev pub Pending : Type 0 → Type 0
Pending P = List (ℕ × Envelope P)

module _ {P : Type 0} where
  unfoldable pub pending_get : ℕ → Pending P → Option (Envelope P)
  pending_get m [] = none
  pending_get m ((k, env) ∷ pending) = if m == k then some env else pending_get m pending

  unfoldable pub pending_remove : ℕ → Pending P → Pending P
  pending_remove m [] = []
  pending_remove m ((k, env) ∷ pending) =
      if m == k then pending_remove m pending else (k, env) ∷ pending_remove m pending

  unfoldable pub pending_insert : ℕ → Envelope P → Pending P → Pending P
  unfolding pending_remove
  pending_insert m env pending = (m, env) ∷ pending_remove m pending

-- `made` is a history variable: the events that were verified, in order.
pub record ReplayState (P : Type 0) : Type 0 where
  pub recorded : RecordedIndex
  pub pending : Pending P
  pub send_count : Map ℕ
  pub divergences : List Divergence
  pub produced : Map (Unit {0})
  pub made : List CausalEvent

module _ {P : Type 0} where
  abbrev pub diverge : String → Detail → ReplayState P → ReplayState P
  diverge event_id detail state = record state {
    divergences = state.divergences ++ record { event_id = event_id; detail = detail } ∷ [];
  }

  unfoldable pub verify : CausalEvent → ReplayState P → ReplayState P
  verify event state =
      let state' = record state {
        produced = insert event.id tt state.produced;
        made = state.made ++ event ∷ [];
      } in
      elim (lookup event.id state.recorded.by_id) [
        | some rec ↦
            if event_eq rec event then state' else diverge event.id (diverges rec event) state'
        | none ↦ diverge event.id no_counterpart state'
      ]
