-- ===== src/Prod/Recorded/Systems.antt =====
-- The invariant of crates/lichtung-prod/src/system.rs under which its log is one that
-- crates/lichtung-replay accepts; and that a loop's operation keeps it.
use lichtung.Prelude.{
  ℕ, List, some, ◌+◌, ◌≡◌, ◌≢◌, ◌≤◌, ◌<◌, ◌⊎◌, inl, inr, refl, arith, In, sym, ◌∙◌, ap, length,
  get_elem?, set, get_elem?-set,
}
use lichtung.Prelude.Words.{u64_max}
use lichtung.Log.{CausalEvent}
use lichtung.Engine.Replay.{IsFaithful}
use lichtung.Prod.{SharedRuntime, Task}
use lichtung.Prod.System.{
  System, Main, origin_numbered, origin_logged, origin_counted, ready, checking, sleeping,
  quiescent,
}
use lichtung.Prod.Run.{names, names-set, In-names}
use lichtung.Prod.Recorded.{IsBounded, IsKnown, Includes, IsBounded-le, IsKnown-le}
use lichtung.Prod.Recorded.Claims.{taken_by_main, all_taken, all_taken-set, taken_le_all, emitted}
use lichtung.Prod.Recorded.Loops.{SoundTask, IsSound-le, Advanced}
use lichtung.Prod.Recorded.Records.{
  Records-Includes, Records-others, Records-IsFaithful, Records-actors, Records-worlds,
  Records-length, worlds,
}

module _ {P : Type 0} where
  -- What the main thread holds.
  abbrev pub MainStage : ℕ → List CausalEvent → Main P → Type 0
  MainStage n log (origin_numbered sink env) = IsBounded n env.vclock × (env.msg_id ≤ n)
  MainStage n log (origin_logged sink env) = IsKnown n log env
  MainStage n log (origin_counted sink env) = IsKnown n log env
  MainStage n log _ = Unit

  pub MainStage-le :
      {n m : ℕ} (log log' : List CausalEvent) (main : Main P)
      → n ≤ m
      → Includes log log'
      → MainStage n log main
      → MainStage m log' main
  MainStage-le log log' (origin_numbered sink env) h sub (b, g) = (IsBounded-le h b, omega arith)
  MainStage-le log log' (origin_logged sink env) h sub st = IsKnown-le h sub st
  MainStage-le log log' (origin_counted sink env) h sub st = IsKnown-le h sub st
  MainStage-le log log' ready h sub st = tt
  MainStage-le log log' checking h sub st = tt
  MainStage-le log log' sleeping h sub st = tt
  MainStage-le log log' quiescent h sub st = tt

  -- An origin whose emit is not recorded yet.
  abbrev pub starting : Main P → ℕ
  starting (origin_numbered sink env) = 1
  starting _ = 0

module _ {A P : Type 0} where
  abbrev pub claimed : ℕ → System A P → ℕ
  claimed k s = all_taken k s.tasks + taken_by_main k s.main + emitted k s.shared.events

  -- A system after `n` steps with `o` calls of `send_external`.
  pub record IsRecorded (n o : ℕ) (s : System A P) : Type 0 where
    pub faithful : IsFaithful s.shared.events
    pub sound :
        (i : ℕ) (t : Task A P) → get_elem? s.tasks i ≡ some t → SoundTask n s.shared.events t
    pub inner : (i : ℕ) (t : Task A P) → get_elem? s.tasks i ≡ some t → t.id ≢ "world"
    pub distinct :
        (i j : ℕ) (t u : Task A P)
        → get_elem? s.tasks i ≡ some t
        → get_elem? s.tasks j ≡ some u
        → t.id ≡ u.id
        → i ≡ j
    pub actors :
        (x : CausalEvent) → In x s.shared.events → (x.actor ≡ "world") ⊎ In x.actor (names s.tasks)
    pub origin : MainStage n s.shared.events s.main
    pub once : (k : ℕ) → k ≤ u64_max → claimed k s ≤ 1
    pub unused : (k : ℕ) → k ≤ u64_max → s.shared.msg_id < k → claimed k s ≡ 0
    pub numbers : s.shared.msg_id ≤ n
    pub origins : worlds s.shared.events + starting s.main ≤ o
    pub few : length s.shared.events ≤ n
    pub world_first : (x : CausalEvent) → In x s.shared.events → x.actor ≡ "world" → x.seq ≡ 1

  module _ (n o i : ℕ) (t t' : Task A P) (s : System A P) (shared : SharedRuntime)
      (at : get_elem? s.tasks i ≡ some t) (a : Advanced n t.phase t s.shared t' shared)
      (h : IsRecorded n o s) where
    sub : Includes s.shared.events shared.events
    sub = Records-Includes t.id s.shared.events shared.events a.records

    abbrev after : System A P
    after = record s { tasks = set s.tasks i t'; shared = shared }

    -- A task after the operation is the task itself, or another one.
    who :
        (j : ℕ) (u : Task A P)
        → get_elem? after.tasks j ≡ some u
        → ((j ≡ i) × (t' ≡ u)) ⊎ ((j ≢ i) × (get_elem? s.tasks j ≡ some u))
    who j u e = get_elem?-set s.tasks i j t' u e

    named :
        (j : ℕ) (u : Task A P)
        → get_elem? after.tasks j ≡ some u
        → (x : Task A P) × (get_elem? s.tasks j ≡ some x) × (u.id ≡ x.id)
    named j u e = elim (who j u e) [
      | inl (same, is) ↦ (t, rw same at, ap (λ (x : Task A P). x.id) (sym is) ∙ a.same_id)
      | inr (_, old) ↦ (u, old, refl)
    ]

    sound_after :
        (j : ℕ) (u : Task A P)
        → get_elem? after.tasks j ≡ some u
        → SoundTask (n + 1) shared.events u
    sound_after j u e = elim (who j u e) [
      | inl (same, is) ↦ rw is at a.sound
      | inr (ne, old) ↦
          IsSound-le (omega arith) sub
            (λ x m own.
              Records-others t.id s.shared.events shared.events a.records x m
                (λ mine. ne (h.distinct j i u t old at (sym own ∙ mine))))
            (h.sound j u old)
    ]

    pub advanced-IsRecorded : IsRecorded (n + 1) o after
    advanced-IsRecorded = record {
      faithful = Records-IsFaithful t.id s.shared.events shared.events a.records h.faithful;
      sound = sound_after;
      inner = λ j u e w. let (x, old, same) = named j u e in h.inner j x old (sym same ∙ w);
      distinct = λ j k u v e f w.
          let (x, old, same) = named j u e in
          let (y, old', same') = named k v f in h.distinct j k x y old old' (sym same ∙ w ∙ same');
      actors = λ x m. rw (names-set s.tasks i t t' at a.same_id) (
          Records-actors t.id s.shared.events shared.events
            (λ e. (e ≡ "world") ⊎ In e (names s.tasks)) a.records (inr (In-names s.tasks i t at))
            h.actors x m);
      origin = MainStage-le s.shared.events shared.events s.main (omega arith) sub h.origin;
      once = λ k b. ground (
        arith,
        all_taken-set k s.tasks i t t' at,
        taken_le_all k s.tasks i t at,
        a.claims k b,
        h.once k b,
        h.unused k b,
      );
      unused = λ k b lt. ground (
        arith,
        all_taken-set k s.tasks i t t' at,
        taken_le_all k s.tasks i t at,
        a.claims k b,
        h.unused k b,
        a.numbers,
      );
      numbers = omega (arith, a.numbers, h.numbers);
      origins = omega (
        arith,
        Records-worlds t.id s.shared.events shared.events a.records (h.inner i t at),
        h.origins,
      );
      few = omega (arith, Records-length t.id s.shared.events shared.events a.records, h.few);
      world_first = λ x m w.
          h.world_first x
            (Records-others t.id s.shared.events shared.events a.records x m
              (λ mine. h.inner i t at (sym mine ∙ w)))
            w;
    }
