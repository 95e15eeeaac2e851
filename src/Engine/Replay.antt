-- ===== src/Engine/Replay.antt =====
-- `replay_log` of crates/lichtung-replay/src/engine.rs: which logs are replayed, and the timeline.
use lichtung.Prelude.{ℕ, List, true, ◌≡◌, ◌⊎◌, ◌↔◌, ap, sym, ◌∙◌, map}
use lichtung.Prelude.Result.{ok, >>=-ok}
use lichtung.Log.{CausalEvent}
use lichtung.Poset.{Edge, Poset, build, validate, event_at, hb_strict}
use lichtung.Poset.Program.{ProgramEdge}
use lichtung.Poset.Messages.{MessageEdge}
use lichtung.Poset.Build.{IsWellFormed, build_iff, build_edges, validate_iff}
use lichtung.Poset.HbStrict.{clock, hb_strict-eq-happens_before}
use lichtung.Clock.Order.{happens_before_trans}
use lichtung.Extension.{linearize}
use lichtung.Extension.Correct.{
  IsLinearExtension, validated_linearizes, build-InRange, linearize-IsLinearExtension,
}
use lichtung.Engine.{Replayed, concurrent_pairs, assemble, replay_log}
use lichtung.Engine.Reach.{Leads, edge, further}

-- Where the clocks were validated, a chain of edges leads forward in the recorded happens-before
-- order: events with concurrent clocks are never joined by one.
pub Leads-happens_before :
    (p : Poset)
    → validate p ≡ ok tt
    → {i j : ℕ} → Leads p.edges i j
    → hb_strict (event_at p.events i).vclock (event_at p.events j).vclock ≡ true
Leads-happens_before p valid (edge m) = (validate_iff p).0 valid _ _ m
Leads-happens_before p valid {i} (further {b = u} {c = v} l m) =
    let vc = λ (k : ℕ). clock (event_at p.events k).vclock in
    rw hb_strict-eq-happens_before (
      happens_before_trans (vc i) (vc u) (vc v)
        (rw hb_strict-eq-happens_before at (Leads-happens_before p valid l))
        (rw hb_strict-eq-happens_before at ((validate_iff p).0 valid u v m)))

-- What a log must satisfy to be replayed.
pub record IsFaithful (events : List CausalEvent) : Type 0 where
  pub well_formed : IsWellFormed events
  pub ordered :
      (i j : ℕ)
      → ProgramEdge events i j ⊎ MessageEdge events i j
      → hb_strict (event_at events i).vclock (event_at events j).vclock ≡ true

-- `replay_log` succeeds exactly for the logs that `build` accepts and in which the recorded clocks are
-- strictly ordered along program order and from each emit to its receipts.
pub replay_log_iff :
    (events : List CausalEvent) → ((r : Replayed) × (replay_log events ≡ ok r)) ↔ IsFaithful events
unfolding replay_log
replay_log_iff events = (
  λ (r, h).
      let (p, built, h1) = >>=-ok (build events) _ h in
      let (u, valid, h2) = >>=-ok (validate p) _ h1 in
      let (same, edges) = build_edges events p built in
      record {
        well_formed = (build_iff events).0 (p, built);
        ordered = λ i j e. rw same at ((validate_iff p).0 valid i j ((edges i j).1 e));
      },
  λ f.
      let (p, built) = (build_iff events).1 f.well_formed in
      let (same, edges) = build_edges events p built in
      let valid = (validate_iff p).1 (λ i j m. rw same (f.ordered i j ((edges i j).0 m))) in
      let (order, found, _) = validated_linearizes events p built valid in
      (assemble p order, rw built (rw valid (rw found))),
)

-- What a successful replay returns: the events of the log in the order of a linear extension of its
-- poset, with the ids in that order, the edges of the poset and its incomparable pairs.
pub replay_log-IsLinearExtension :
    (events : List CausalEvent) (r : Replayed)
    → replay_log events ≡ ok r
    → (p : Poset) × (order : List ℕ) × (build events ≡ ok p)
      × (p.events ≡ events)
      × IsLinearExtension p order
      × (r.timeline ≡ map (event_at events) order)
      × (r.poset_json.events ≡ map (λ i. (event_at events i).id) order)
      × (r.poset_json.edges
          ≡ map (λ (e : Edge). ((event_at events e.0).id, (event_at events e.1).id)) p.edges)
      × (r.poset_json.concurrent ≡ concurrent_pairs p)
unfolding replay_log
replay_log-IsLinearExtension events r h =
    let (p, built, h1) = >>=-ok (build events) _ h in
    let (u, valid, h2) = >>=-ok (validate p) _ h1 in
    let (order, found, h3) = >>=-ok (linearize p) _ h2 in
    let same = (build_edges events p built).0 in
    let result : assemble p order ≡ r = cc in
    (
      p,
      order,
      built,
      same,
      linearize-IsLinearExtension p (build-InRange events p built) order found,
      sym (ap (λ (q : Replayed). q.timeline) result)
          ∙ ap (λ (es : List CausalEvent). map (event_at es) order) same,
      sym (ap (λ (q : Replayed). q.poset_json.events) result)
          ∙ ap (λ (es : List CausalEvent). map (λ i. (event_at es i).id) order) same,
      sym (ap (λ (q : Replayed). q.poset_json.edges) result)
          ∙ ap
              (λ (es : List CausalEvent).
                map (λ (e : Edge). ((event_at es e.0).id, (event_at es e.1).id)) p.edges)
              same,
      sym (ap (λ (q : Replayed). q.poset_json.concurrent) result),
    )
