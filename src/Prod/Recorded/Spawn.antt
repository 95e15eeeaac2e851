-- ===== src/Prod/Recorded/Spawn.antt =====
-- `System::spawn` of crates/lichtung-prod/src/system.rs keeps the log one that is accepted.
use lichtung.Prelude.{
  ℕ, String, List, [], ◌∷◌, ◌++◌, some, ◌+◌, ◌≡◌, ◌≢◌, ◌⊎◌, inl, inr, arith, In, In-append, sym,
  subst, ◌∙◌, ap, length, get_elem?, get_elem?-append,
}
use lichtung.Log.{CausalEvent}
use lichtung.Core.{Actor}
use lichtung.Prod.{Task}
use lichtung.Prod.System.{System, spawn, spawned}
use lichtung.Prod.Run.{names, names-append, In-names}
use lichtung.Prod.Recorded.{new-IsBounded}
use lichtung.Prod.Recorded.Claims.{all_taken, all_taken-append}
use lichtung.Prod.Recorded.Loops.{SoundTask}
use lichtung.Prod.Recorded.Steps.{later-IsRecorded}
use lichtung.Prod.Recorded.Systems.{IsRecorded}

module _ {A P : Type 0} where
  module _ (n o : ℕ) (name : String) (actor : Actor A P) (state : A) (s : System A P)
      (inner : name ≢ "world") (new_name : ¬ In name (names s.tasks)) (h : IsRecorded n o s) where
    abbrev one_more : List (Task A P)
    one_more = s.tasks ++ spawned name actor state ∷ []

    no_events : (x : CausalEvent) → In x s.shared.events → x.actor ≢ name
    no_events x m a = elim (h.actors x m) [
      | inl w ↦ inner (sym a ∙ w)
      | inr i ↦ new_name (rw a at i)
    ]

    spawned_sound : SoundTask n s.shared.events (spawned name actor state)
    spawned_sound = record {
      stamped = record {
        bounded = new-IsBounded n;
        numbered = omega arith;
        known = λ env m. absurd m;
        up_to = λ x m a. absurd (no_events x m a);
      };
      behind = λ e. absurd (cc);
      stage = tt;
    }

    -- A task of the longer list is an old one, or the new one.
    abbrev Which : ℕ → Task A P → Type 0
    Which i t =
        (get_elem? s.tasks i ≡ some t) ⊎ ((i ≡ length s.tasks) × (spawned name actor state ≡ t))

    which : (i : ℕ) (t : Task A P) → get_elem? one_more i ≡ some t → Which i t
    which i t e = get_elem?-append s.tasks (spawned name actor state) i t e

    old_name : (i : ℕ) (t : Task A P) → get_elem? s.tasks i ≡ some t → t.id ≢ name
    old_name i t e w = new_name (rw w at (In-names s.tasks i t e))

    id_of_new : (t : Task A P) → spawned name actor state ≡ t → t.id ≡ name
    id_of_new t e = ap (λ (t : Task A P). t.id) (sym e)

    distinct_cases : (i j : ℕ) (t u : Task A P) → Which i t → Which j u → t.id ≡ u.id → i ≡ j
    distinct_cases i j t u (inl e) (inl f) w = h.distinct i j t u e f w
    distinct_cases i j t u (inl e) (inr (_, f)) w = absurd (old_name i t e (w ∙ id_of_new u f))
    distinct_cases i j t u (inr (_, e)) (inl f) w = absurd (old_name j u f (sym w ∙ id_of_new t e))
    distinct_cases i j t u (inr (a, _)) (inr (b, _)) w = omega arith

    sound_cases : (i : ℕ) (t : Task A P) → Which i t → SoundTask n s.shared.events t
    sound_cases i t (inl old) = h.sound i t old
    sound_cases i t (inr (_, new_)) = subst (SoundTask n s.shared.events) new_ spawned_sound

    inner_cases : (i : ℕ) (t : Task A P) → Which i t → t.id ≢ "world"
    inner_cases i t (inl old) = h.inner i t old
    inner_cases i t (inr (_, new_)) = λ w. inner (sym (id_of_new t new_) ∙ w)

    pub spawn-IsRecorded : IsRecorded (n + 1) o (spawn name actor state s)
    unfolding spawn all_taken
    spawn-IsRecorded = later-IsRecorded (record {
      faithful = h.faithful;
      sound = λ i t e. sound_cases i t (which i t e);
      inner = λ i t e. inner_cases i t (which i t e);
      distinct = λ i j t u e f. distinct_cases i j t u (which i t e) (which j u f);
      actors = λ x m. elim (h.actors x m) [
        | inl w ↦ inl w
        | inr i ↦ inr (
            rw (names-append s.tasks (spawned name actor state ∷ []))
              ((In-append x.actor (names s.tasks) _).1 (inl i)))
      ];
      origin = h.origin;
      once = λ k b.
          omega (arith, h.once k b, all_taken-append k s.tasks (spawned name actor state ∷ []));
      unused = λ k b lt.
          omega
            (arith, h.unused k b lt, all_taken-append k s.tasks (spawned name actor state ∷ []));
      numbers = h.numbers;
      origins = h.origins;
      few = h.few;
      world_first = h.world_first;
    })
