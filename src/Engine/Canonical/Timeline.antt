-- ===== src/Engine/Canonical/Timeline.antt =====
-- The timeline of `replay_log` of crates/lichtung-replay/src/engine.rs does not depend on the order in
-- which the events are recorded.
use lichtung.Prelude.{ℕ, List, [], map, ◌≡◌, ◌↔◌, arith, In, length, ap, ◌==◌, Bool-cases, inl, inr}
use lichtung.Prelude.Counts.{count}
use lichtung.Prelude.Result.{ok, >>=-ok}
use lichtung.Log.{CausalEvent}
use lichtung.Poset.{Poset, build, validate, event_at}
use lichtung.Poset.Build.{build_iff, build_edges}
use lichtung.Extension.{kahn, linearize}
use lichtung.Extension.Correct.{build-InRange, linearize-IsLinearExtension}
use lichtung.Extension.Canonical.{kahn-GreedyAt}
use lichtung.Extension.Greedy.{IsGreedy, Covers, IsGreedy-unique}
use lichtung.Engine.{Replayed, assemble, replay_log}
use lichtung.Engine.Append.{index_of}
use lichtung.Engine.Canonical.{GreedyAt-IsGreedy, In-map_count}

linearize-order : (p : Poset) (order : List ℕ) → linearize p ≡ ok order → (kahn p).order ≡ order
unfolding linearize
linearize-order p order h = elim (Bool-cases (length (kahn p).order == length p.events)) [
  | inl full ↦ ground arith
  | inr short ↦ absurd (ground arith)
]

-- Each event of the timeline is the least, by Lamport number, actor and sequence number, of those that
-- wait for nothing, and all the events are in it.
pub record IsCanonical (log timeline : List CausalEvent) : Type 0 where
  pub greedy : IsGreedy log [] timeline
  pub covers : Covers log timeline

linearized-IsCanonical :
    (log : List CausalEvent) (p : Poset) (order : List ℕ)
    → build log ≡ ok p
    → linearize p ≡ ok order
    → IsCanonical log (map (event_at log) order)
unfolding count
linearized-IsCanonical log p order built found =
    let range = build-InRange log p built in
    let (same, edges_iff) = build_edges log p built in
    let all = linearize-IsLinearExtension p range order found in
    record {
      greedy =
          GreedyAt-IsGreedy log ((build_iff log).0 (p, built)).distinct_seq p.edges edges_iff []
            order (λ j c. absurd (omega arith))
            (rw (linearize-order p order found, same) at (kahn-GreedyAt p range));
      covers = λ z m.
          let (j, lt, e) = index_of log z m in
          rw e at (
            In-map_count log j order
              (ground (arith, all.each_once j, ap (length {A = CausalEvent}) same)));
    }

-- The timeline of a replay lists all events of the log. Each is the least, by Lamport number, then actor,
-- then sequence number, of the events that are not listed before it and of which the preceding event of
-- the same actor and, for a receipt, the emit are.
pub replayed-IsCanonical :
    (log : List CausalEvent) (r : Replayed) → replay_log log ≡ ok r → IsCanonical log r.timeline
unfolding replay_log
replayed-IsCanonical log r h =
    let (p, built, h1) = >>=-ok (build log) _ h in
    let (u, valid, h2) = >>=-ok (validate p) _ h1 in
    let (order, found, h3) = >>=-ok (linearize p) _ h2 in
    let same = (build_edges log p built).0 in
    let result : assemble p order ≡ r = cc in
    rw (← result, same) (linearized-IsCanonical log p order built found)

-- Two logs of the same events that are replayed, in whatever order each lists them, have the same
-- timeline.
pub timeline_is_independent :
    (log log' : List CausalEvent) (r r' : Replayed)
    → replay_log log ≡ ok r
    → replay_log log' ≡ ok r'
    → ((x : CausalEvent) → In x log ↔ In x log')
    → r.timeline ≡ r'.timeline
timeline_is_independent log log' r r' h h' same =
    let c = replayed-IsCanonical log r h in
    let c' = replayed-IsCanonical log' r' h' in
    IsGreedy-unique log log' same [] r.timeline r'.timeline c.greedy c'.greedy c.covers c'.covers
