-- ===== src/Extension/Ends.antt =====
-- The `while let` loop of `linearize` in crates/lichtung-replay/src/extension.rs ends.
use lichtung.Prelude.{
  ℕ, zero, suc, List, [], ◌≡◌, ◌≤◌, refl, arith, inl, inr, length, replicate, ◌∙◌, sym, ap,
}
use lichtung.Prelude.Result.{ok}
use lichtung.Log.{CausalEvent}
use lichtung.Poset.{Poset, build}
use lichtung.Extension.{Kahn, drain, kahn, start, successors}
use lichtung.Extension.Correct.{finished, build-InRange}
use lichtung.Extension.Invariant.{heap_cases, drain-nil, drain-cons}

-- A loop that has ended stays ended, however many rounds it is given.
drain_stays :
    (events : List CausalEvent) (succ : List (List ℕ)) (fuel more : ℕ) (s : Kahn)
    → fuel ≤ more
    → (drain events succ fuel s).heap ≡ []
    → drain events succ more s ≡ drain events succ fuel s
unfolding drain
drain_stays events succ zero zero s h e = refl
drain_stays events succ zero (suc more) s h e = rw e refl
drain_stays events succ (suc fuel) zero s h e = absurd (omega arith)
drain_stays events succ (suc fuel) (suc more) s h e = elim (heap_cases s.heap) [
  | inl none_ ↦ drain-nil events succ more s none_ ∙ sym (drain-nil events succ fuel s none_)
  | inr (k, rest, some_) ↦
      let round = drain-cons events succ fuel s k rest some_ in
      drain-cons events succ more s k rest some_
      ∙ drain_stays events succ fuel more _ (omega arith)
          (sym (ap (λ (s : Kahn). s.heap) round) ∙ e)
      ∙ sym round
]

-- For a log that `build` accepts, one round for each event ends the loop with an empty heap, also where
-- the edges have a cycle, and more rounds change nothing.
pub kahn_ends :
    (events : List CausalEvent) (p : Poset) (rounds : ℕ)
    → build events ≡ ok p
    → length p.events ≤ rounds
    → ((kahn p).heap ≡ [])
      × (drain p.events
            (successors p.edges (replicate (length p.events) []))
            rounds
            (start p.events p.edges)
          ≡ kahn p)
unfolding kahn
kahn_ends events p rounds built h =
    let empty = (finished p (build-InRange events p built)).1 in
    (empty, drain_stays p.events _ (length p.events) rounds _ h empty)
