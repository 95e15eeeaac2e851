-- ===== src/Prod/Recorded/Records.antt =====
-- What one operation of crates/lichtung-prod/src/system.rs adds to the log.
use lichtung.Prelude.{
  ℕ, String, List, [], ◌∷◌, ◌++◌, ◌+◌, ◌≡◌, ◌≢◌, ◌≤◌, ◌<◌, length, length-append, ◌⊎◌, inl, inr,
  refl, arith, In, In-append, sym, ◌∙◌, ap, str_eq, eq_iff, Bool-cases,
}
use lichtung.Prelude.Counts.{one_if}
use lichtung.Log.{CausalEvent}
use lichtung.Engine.Replay.{IsFaithful}
use lichtung.Engine.Append.{Appendable}
use lichtung.Engine.Append.Faithful.{append-IsFaithful}
use lichtung.Prod.Recorded.{Includes}

-- What an operation records: nothing, or one event of the actor that fits behind the log.
abbrev pub Records : String → List CausalEvent → List CausalEvent → Type 0
Records id log log' =
    (log' ≡ log) ⊎ ((e : CausalEvent) × (log' ≡ log ++ e ∷ []) × (e.actor ≡ id) × Appendable log e)

-- How many events stand on the world-line of the origin.
unfoldable pub worlds : List CausalEvent → ℕ
worlds [] = 0
worlds (x ∷ log) = one_if (str_eq x.actor "world") + worlds log

pub worlds-append :
    (log : List CausalEvent) (e : CausalEvent)
    → worlds (log ++ e ∷ []) ≡ worlds log + one_if (str_eq e.actor "world")
unfolding worlds
worlds-append [] e = omega arith
worlds-append (x ∷ log) e = omega (arith, worlds-append log e)

pub no_world :
    (log : List CausalEvent) → worlds log ≡ 0 → (x : CausalEvent) → In x log → x.actor ≢ "world"
unfolding worlds
no_world (y ∷ log) h x (inl e) a = absurd (
    omega (
      arith,
      ap one_if ((eq_iff y.actor "world").1 (sym (ap (λ (x : CausalEvent). x.actor) e) ∙ a)),
    ))
no_world (y ∷ log) h x (inr i) a = no_world log (omega arith) x i a
no_world [] h x i a = elim i [ ]

pub Records-Includes :
    (id : String) (log log' : List CausalEvent) → Records id log log' → Includes log log'
Records-Includes id log log' (inl e) x m = rw e m
Records-Includes id log log' (inr (e, eq, _, _)) x m = rw eq ((In-append x log (e ∷ [])).1 (inl m))

pub Records-others :
    (id : String) (log log' : List CausalEvent)
    → Records id log log'
    → (x : CausalEvent) → In x log'
    → x.actor ≢ id
    → In x log
Records-others id log log' (inl e) x m ne = rw e at m
Records-others id log log' (inr (e, eq, own, _)) x m ne =
    elim ((In-append x log (e ∷ [])).0 (rw eq at m)) [
      | inl old ↦ old
      | inr (inl new) ↦ absurd (ne (ap (λ (x : CausalEvent). x.actor) new ∙ own))
      | inr (inr none_) ↦ absurd none_
    ]

pub Records-IsFaithful :
    (id : String) (log log' : List CausalEvent)
    → Records id log log'
    → IsFaithful log
    → IsFaithful log'
Records-IsFaithful id log log' (inl e) f = rw e f
Records-IsFaithful id log log' (inr (e, eq, _, fits)) f = rw eq (append-IsFaithful log e f fits)

pub Records-worlds :
    (id : String) (log log' : List CausalEvent)
    → Records id log log'
    → id ≢ "world"
    → worlds log' ≡ worlds log
Records-worlds id log log' (inl e) ne = ap worlds e
Records-worlds id log log' (inr (e, eq, own, _)) ne = elim (Bool-cases (str_eq e.actor "world")) [
  | inl is ↦ absurd (ne (sym own ∙ (eq_iff e.actor "world").0 is))
  | inr other ↦ omega (arith, ap worlds eq, worlds-append log e, ap one_if other)
]

pub some_world :
    (log : List CausalEvent) → 0 < worlds log → (x : CausalEvent) × In x log × (x.actor ≡ "world")
unfolding worlds
some_world [] h = absurd (omega arith)
some_world (y ∷ log) h = elim (Bool-cases (str_eq y.actor "world")) [
  | inl is ↦ (y, inl refl, (eq_iff y.actor "world").0 is)
  | inr other ↦ let (x, m, w) = some_world log (omega (arith, ap one_if other)) in (x, inr m, w)
]

-- What holds of every recorded actor.
pub Records-actors :
    (id : String) (log log' : List CausalEvent) (Good : String → Type 0)
    → Records id log log'
    → Good id
    → ((x : CausalEvent) → In x log → Good x.actor)
    → (x : CausalEvent) → In x log'
    → Good x.actor
Records-actors id log log' Good (inl e) g old x m = old x (rw e at m)
Records-actors id log log' Good (inr (e, eq, own, _)) g old x m =
    elim ((In-append x log (e ∷ [])).0 (rw eq at m)) [
      | inl m' ↦ old x m'
      | inr (inl new) ↦ rw (new, own) g
      | inr (inr none_) ↦ absurd none_
    ]

pub Records-length :
    (id : String) (log log' : List CausalEvent) → Records id log log' → length log' ≤ length log + 1
Records-length id log log' (inl e) = rw e (omega arith)
Records-length id log log' (inr (e, eq, _, _)) = rw eq (omega (arith, length-append log (e ∷ [])))
