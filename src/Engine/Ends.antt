-- ===== src/Engine/Ends.antt =====
-- The `while let` loop of `concurrent_pairs` in crates/lichtung-replay/src/engine.rs ends.
use lichtung.Prelude.{
  ℕ, zero, suc, List, [], ◌∷◌, ◌≡◌, ◌≤◌, ◌<◌, ap, refl, arith, inl, inr, length, replicate, false,
  ◌∙◌, sym,
}
use lichtung.Prelude.Result.{ok}
use lichtung.Log.{CausalEvent}
use lichtung.Poset.{Poset, build}
use lichtung.Extension.{successors}
use lichtung.Engine.{Search, walk, reach_from}
use lichtung.Extension.Correct.{build-InRange}
use lichtung.Engine.Reach.{walk_empties, stack_cases, walk-nil, walk-cons}

walk_stays :
    (succ : List (List ℕ)) (fuel more : ℕ) (s : Search)
    → fuel ≤ more
    → (walk succ fuel s).stack ≡ []
    → walk succ more s ≡ walk succ fuel s
unfolding walk
walk_stays succ zero zero s h e = refl
walk_stays succ zero (suc more) s h e = rw e refl
walk_stays succ (suc fuel) zero s h e = absurd (omega arith)
walk_stays succ (suc fuel) (suc more) s h e = elim (stack_cases s.stack) [
  | inl none_ ↦ walk-nil succ more s none_ ∙ sym (walk-nil succ fuel s none_)
  | inr (u, rest, some_) ↦
      let round = walk-cons succ fuel s u rest some_ in
      walk-cons succ more s u rest some_
      ∙ walk_stays succ fuel more _ (omega arith) (sym (ap (λ (s : Search). s.stack) round) ∙ e)
      ∙ sym round
]

-- For a log that `build` accepts, the search from any event ends with an empty stack after one round
-- more than there are events, also where the edges have a cycle, and more rounds find nothing else.
pub search_ends :
    (events : List CausalEvent) (p : Poset) (a rounds : ℕ)
    → build events ≡ ok p
    → length p.events < rounds
    → let n = length p.events in
      let succ = successors p.edges (replicate n []) in
      let s : Search = record { seen = replicate n false; stack = a ∷ [] } in
      ((walk succ rounds s).stack ≡ []) × ((walk succ rounds s).seen ≡ reach_from n succ a)
unfolding reach_from
search_ends events p a rounds built h =
    let n = length p.events in
    let empty = walk_empties n p.edges (build-InRange events p built) a in
    let same =
      walk_stays (successors p.edges (replicate n [])) (suc n) rounds _ (omega arith) empty in
    (ap (λ (s : Search). s.stack) same ∙ empty, ap (λ (s : Search). s.seen) same)
