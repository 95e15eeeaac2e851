-- ===== src/Engine.antt =====
-- crates/lichtung-replay/src/engine.rs: `replay_log`, from a log to its canonical timeline and the
-- picture of its poset.
mod Visit
pub mod Reach
pub mod Pairs
pub mod Replay
pub mod Append
pub mod Ends
pub mod Canonical
use lichtung.Prelude.{
  ℕ, zero, suc, String, List, [], ◌∷◌, ◌++◌, Option, none, some, Bool, true, false, ◌+◌, ◌-◌, ◌||◌,
  not, map, length, get_or, set, replicate, if◌then◌else◌,
}
use lichtung.Prelude.Result.{Result, ok, err, ◌>>=◌}
use lichtung.Log.{CausalEvent}
use lichtung.Log.Lines.{Codec, LogError, write_events}
use lichtung.Poset.{Poset, Edge, ReplayError, build, validate, event_at}
use lichtung.Extension.{successors, linearize}

pub record PosetJson : Type 0 where
  pub events : List String
  pub edges : List (String × String)
  pub concurrent : List (String × String)

pub record Replayed : Type 0 where
  pub timeline : List CausalEvent
  pub poset_json : PosetJson

-- The depth-first search of `concurrent_pairs`; the top of the stack is the head of the list.
pub record Search : Type 0 where
  pub seen : List Bool
  pub stack : List ℕ

-- The loop over `succ[u]`.
unfoldable pub visit : List ℕ → Search → Search
visit [] s = s
visit (v ∷ vs) s =
    visit vs (
      if get_or s.seen v false then s else record { seen = set s.seen v true; stack = v ∷ s.stack })

-- The `while let` loop.
unfoldable pub walk : List (List ℕ) → ℕ → Search → Search
walk succ zero s = s
walk succ (suc fuel) s = elim s.stack [
  | [] ↦ s
  | u ∷ rest ↦ walk succ fuel (visit (get_or succ u []) (record s { stack = rest }))
]

-- One row of `reach`. `n + 1` rounds are enough: `walk_ends`.
unfoldable pub reach_from : ℕ → List (List ℕ) → ℕ → List Bool
reach_from n succ s = (walk succ (suc n) (record { seen = replicate n false; stack = s ∷ [] })).seen

-- `reach[a][b]`
unfoldable pub reaches : ℕ → List (List ℕ) → ℕ → ℕ → Bool
reaches n succ a b = get_or (reach_from n succ a) b false

module _ (events : List CausalEvent) (succ : List (List ℕ)) where
  abbrev n : ℕ
  n = length events

  -- `for b in (a + 1)..n`, from `b` on, with `left` rounds to go.
  unfoldable pub pairs_with : ℕ → ℕ → ℕ → List (String × String) → List (String × String)
  pairs_with a zero b out = out
  pairs_with a (suc left) b out = pairs_with a left (suc b) (
      if not (reaches n succ a b)
      then (if not (reaches n succ b a)
          then out ++ ((event_at events a).id, (event_at events b).id) ∷ []
          else out)
      else out)

  -- `for a in 0..n`
  unfoldable pub pairs_from : ℕ → ℕ → List (String × String) → List (String × String)
  pairs_from zero a out = out
  pairs_from (suc left) a out = pairs_from left (suc a) (pairs_with a left (suc a) out)

unfoldable pub concurrent_pairs : Poset → List (String × String)
concurrent_pairs p =
    let n = length p.events in pairs_from p.events (successors p.edges (replicate n [])) n 0 []

-- The artifacts of a poset in a linear order.
abbrev pub assemble : Poset → List ℕ → Replayed
assemble poset order = record {
  timeline = map (event_at poset.events) order;
  poset_json = record {
    events = map (λ i. (event_at poset.events i).id) order;
    edges =
        map (λ (e : Edge). ((event_at poset.events e.0).id, (event_at poset.events e.1).id))
          poset.edges;
    concurrent = concurrent_pairs poset;
  };
}

unfoldable pub replay_log : List CausalEvent → Result ReplayError Replayed
replay_log events = do
  poset ← build events
  done ← validate poset
  order ← linearize poset
  ok (assemble poset order)

-- `From<LogError> for ReplayError`
pub from_log_error : LogError → ReplayError
from_log_error LogError.io = ReplayError.io
from_log_error LogError.json = ReplayError.json

-- `write_events(w, &self.timeline)?`
pub write_timeline :
    (codec : Codec) {W : Type 0} (write_all : String → W → Result LogError W)
    → Replayed
    → W
    → Result ReplayError W
unfolding from_log_error
write_timeline codec write_all r w = elim (write_events codec write_all r.timeline w) [
  | ok w' ↦ ok w'
  | err e ↦ err (from_log_error e)
]

-- `serde_json::to_writer(&mut w, &self.poset_json)?`
unfoldable pub write_poset :
    {W : Type 0} (to_writer : PosetJson → W → Option W) → Replayed → W → Result ReplayError W
write_poset to_writer r w = elim (to_writer r.poset_json w) [
  | some w' ↦ ok w'
  | none ↦ err ReplayError.json
]
