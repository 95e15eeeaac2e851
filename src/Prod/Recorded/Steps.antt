-- ===== src/Prod/Recorded/Steps.antt =====
-- What the steps of crates/lichtung-prod/src/system.rs have in common: nothing happens, the main thread
-- moves, or a message is delivered.
use lichtung.Prelude.{
  ℕ, List, [], ◌∷◌, some, Bool, ◌+◌, ◌≡◌, ◌≤◌, inl, inr, refl, arith, In-append, sym, ◌∙◌,
  get_elem?,
}
use lichtung.Core.Event.{Envelope}
use lichtung.Prod.{Task}
use lichtung.Prod.System.{System, Main}
use lichtung.Prod.Recorded.{IsKnown}
use lichtung.Prod.Recorded.Claims.{taken_by_main}
use lichtung.Prod.Recorded.Deliver.{Delivered, Got}
use lichtung.Prod.Recorded.Loops.{SoundTask, IsSound-le}
use lichtung.Prod.Recorded.Systems.{IsRecorded, MainStage, MainStage-le, starting}

module _ {A P : Type 0} where
  -- A step in which nothing happens.
  pub later-IsRecorded : {n o : ℕ} {s : System A P} → IsRecorded n o s → IsRecorded (n + 1) o s
  later-IsRecorded {s = s} h = record {
    faithful = h.faithful;
    sound = λ i t e. IsSound-le (omega arith) (λ x m. m) (λ x m a. m) (h.sound i t e);
    inner = h.inner;
    distinct = h.distinct;
    actors = h.actors;
    origin = MainStage-le s.shared.events s.shared.events s.main (omega arith) (λ x m. m) h.origin;
    once = h.once;
    unused = h.unused;
    numbers = omega (arith, h.numbers);
    origins = h.origins;
    few = omega (arith, h.few);
    world_first = h.world_first;
  }

  -- The main thread moves to a phase with no new claim.
  pub moved-IsRecorded :
      {n o : ℕ} {s : System A P} (in_flight : ℕ) (permit : Bool) (main : Main P) (lost : ℕ)
      → IsRecorded n o s
      → MainStage n s.shared.events main
      → ((k : ℕ) → taken_by_main k main ≤ taken_by_main k s.main)
      → starting main ≤ starting s.main
      → IsRecorded n o (record s {
        shared = record s.shared { in_flight = in_flight; permit = permit };
        main = main;
        lost = lost;
      })
  moved-IsRecorded in_flight permit main lost h st le le' = record {
    faithful = h.faithful;
    sound = h.sound;
    inner = h.inner;
    distinct = h.distinct;
    actors = h.actors;
    origin = st;
    once = λ k b. omega (arith, h.once k b, le k);
    unused = λ k b lt. omega (arith, h.unused k b lt, le k);
    numbers = h.numbers;
    origins = omega (arith, h.origins);
    few = h.few;
    world_first = h.world_first;
  }

  module _ (n o : ℕ) (s : System A P) (env : Envelope P) (tasks : List (Task A P))
      (d : Delivered env s.tasks tasks) (known : IsKnown n s.shared.events env)
      (h : IsRecorded n o s) where
    got :
        (t u : Task A P)
        → Got env t u
        → SoundTask n s.shared.events t
        → SoundTask n s.shared.events u × (u.id ≡ t.id)
    got t u (inl same) g = rw same (g, refl)
    got t u (inr more) g = rw more (
      record {
        stamped = record {
          bounded = g.stamped.bounded;
          numbered = g.stamped.numbered;
          known = λ x m. elim ((In-append x t.inbox (env ∷ [])).0 m) [
            | inl old ↦ g.stamped.known x old
            | inr (inl new_) ↦ rw new_ known
            | inr (inr none_) ↦ absurd none_
          ];
          up_to = g.stamped.up_to;
        };
        behind = g.behind;
        stage = g.stage;
      },
      refl,
    )

    found :
        (j : ℕ) (u : Task A P)
        → get_elem? tasks j ≡ some u
        → SoundTask n s.shared.events u
          × (t : Task A P) × (get_elem? s.tasks j ≡ some t)
          × (u.id ≡ t.id)
    found j u e =
        let (t, at, g) = d.from j u e in
        let (sound, same) = got t u g (h.sound j t at) in (sound, t, at, same)

    pub delivered-IsRecorded : IsRecorded n o (record s { tasks = tasks })
    delivered-IsRecorded = record {
      faithful = h.faithful;
      sound = λ j u e. (found j u e).0;
      inner = λ j u e w. let (_, t, at, same) = found j u e in h.inner j t at (sym same ∙ w);
      distinct = λ j k u v e f w.
          let (_, t, at, same) = found j u e in
          let (_, t', at', same') = found k v f in
          h.distinct j k t t' at at' (sym same ∙ w ∙ same');
      actors = λ x m. rw d.same_names (h.actors x m);
      origin = h.origin;
      once = λ k b. omega (arith, h.once k b, d.same_taken k);
      unused = λ k b lt. omega (arith, h.unused k b lt, d.same_taken k);
      numbers = h.numbers;
      origins = h.origins;
      few = h.few;
      world_first = h.world_first;
    }
