-- ===== src/Reexec/Run/Ends.antt =====
-- The two ends of `replay` in crates/lichtung-replay/src/reexec.rs: the seeding of the origins, and the
-- check for completeness.
use lichtung.Prelude.{
  ℕ, suc, String, List, [], ◌∷◌, Option, none, some, ◌≡◌, ◌≢◌, refl, ◌⊎◌, inl, inr, In, Bool-cases,
  str_eq, eq_iff, get_elem?, ◌∙◌,
}
use lichtung.Map.{lookup, insert, lookup-insert}
use lichtung.Log.{CausalEvent}
use lichtung.Reexec.{
  RecordedIndex, ReplayState, diverge, pending_insert, malformed_origin, no_origin, not_produced,
  vclock_from,
}
use lichtung.Reexec.Backend.{seed_origin, seed_origins, check_complete, parse_mid?}
use lichtung.Reexec.Run.Soundness.{IsSound, append-ne-nil, diverge-IsSound}

module _ {P : Type 0} where
  -- One round of the check for completeness.
  check_one : CausalEvent → ReplayState P → Option (Unit {0}) → ReplayState P
  check_one e s o = elim o [ some _ ↦ s | none ↦ diverge e.id not_produced s ]

module _ {P : Type 0} (R : RecordedIndex) (worlds : List CausalEvent) where
  -- The seeding of an origin counts its emit as produced.
  seed_origin-IsSound :
      (origins : List (String × P)) (k : ℕ) (we : CausalEvent) (s : ReplayState P)
      → In we worlds
      → IsSound R worlds s
      → IsSound R worlds (seed_origin origins k we s)
  unfolding seed_origin
  seed_origin-IsSound origins k we s m h = at_number (parse_mid? we.msg_id)
    where
      seeded_with : ℕ → String → P → ReplayState P
      seeded_with n to_id msg = record s {
        produced = insert we.id tt s.produced;
        pending =
            pending_insert n
              (record {
                msg = msg;
                vclock = vclock_from we.vclock;
                lamport = record { value = we.lamport };
                msg_id = n;
                src = "world";
                dst = to_id;
              })
              s.pending;
      }

      covers :
          (k' : String)
          → lookup k' (insert we.id tt s.produced) ≢ none
          → ((e : CausalEvent) × In e s.made × (e.id ≡ k'))
            ⊎ ((w : CausalEvent) × In w worlds × (w.id ≡ k'))
      covers k' l = elim (Bool-cases (str_eq we.id k')) [
        | inl same ↦ inr (we, m, (eq_iff we.id k').0 same)
        | inr other ↦ h.covered k' (λ z. l (rw (lookup-insert we.id k' tt s.produced, other) z))
      ]

      at_origin :
          (n : ℕ) (o : Option (String × P))
          → IsSound R worlds (elim o [
            | none ↦ diverge we.id no_origin s
            | some (to_id, msg) ↦ seeded_with n to_id msg
          ])
      at_origin n none = diverge-IsSound R worlds we.id no_origin s h
      at_origin n (some (to_id, msg)) = record {
        index = h.index;
        matched = h.matched;
        covered = covers;
      }

      at_number :
          (o : Option ℕ)
          → IsSound R worlds (elim o [
            | none ↦ diverge we.id malformed_origin s
            | some n ↦ elim (get_elem? origins k) [
              | none ↦ diverge we.id no_origin s
              | some (to_id, msg) ↦ seeded_with n to_id msg
            ]
          ])
      at_number none = diverge-IsSound R worlds we.id malformed_origin s h
      at_number (some n) = at_origin n (get_elem? origins k)

  pub seed_origins-IsSound :
      (origins : List (String × P)) (k : ℕ) (wes : List CausalEvent) (s : ReplayState P)
      → ((w : CausalEvent) → In w wes → In w worlds)
      → IsSound R worlds s
      → IsSound R worlds (seed_origins origins k wes s)
  unfolding seed_origins
  seed_origins-IsSound origins k [] s m h = h
  seed_origins-IsSound origins k (we ∷ wes) s m h =
      seed_origins-IsSound origins (suc k) wes (seed_origin origins k we s) (λ w n. m w (inr n))
        (seed_origin-IsSound origins k we s (m we (inl refl)) h)

  check_one-IsSound :
      (e : CausalEvent) (s : ReplayState P) (o : Option (Unit {0}))
      → IsSound R worlds s
      → IsSound R worlds (check_one e s o)
  unfolding check_one
  check_one-IsSound e s none h = diverge-IsSound R worlds e.id not_produced s h
  check_one-IsSound e s (some u) h = h

  pub check_complete-IsSound :
      (log : List CausalEvent) (s : ReplayState P)
      → IsSound R worlds s
      → IsSound R worlds (check_complete log s)
  unfolding check_complete check_one
  check_complete-IsSound [] s h = h
  check_complete-IsSound (e ∷ log) s h =
      check_complete-IsSound log (check_one e s (lookup e.id s.produced))
        (check_one-IsSound e s (lookup e.id s.produced) h)

module _ {P : Type 0} where
  abbrev pub Complete : List CausalEvent → ReplayState P → ReplayState P → Type 0
  Complete log s s' =
      s'.divergences ≡ []
      → (s.divergences ≡ []) × ((e : CausalEvent) → In e log → lookup e.id s'.produced ≢ none)

  check_one-produced :
      (e : CausalEvent) (s : ReplayState P) (o : Option (Unit {0}))
      → (check_one e s o).produced ≡ s.produced
  unfolding check_one
  check_one-produced e s none = refl
  check_one-produced e s (some u) = refl

  keeps_produced :
      (log : List CausalEvent) (s : ReplayState P) → (check_complete log s).produced ≡ s.produced
  unfolding check_complete check_one
  keeps_produced [] s = refl
  keeps_produced (e ∷ log) s =
      keeps_produced log (check_one e s (lookup e.id s.produced))
      ∙ check_one-produced e s (lookup e.id s.produced)

  check_one_finds :
      (e : CausalEvent) (s : ReplayState P) (o : Option (Unit {0}))
      → (check_one e s o).divergences ≡ []
      → (s.divergences ≡ []) × (o ≢ none)
  unfolding check_one
  check_one_finds e s none clean = absurd (append-ne-nil s.divergences _ clean)
  check_one_finds e s (some u) clean = (clean, λ z. cc)

  -- A check without divergences found every event.
  pub check_complete-Complete :
      (log : List CausalEvent) (s : ReplayState P) → Complete log s (check_complete log s)
  unfolding check_complete check_one
  check_complete-Complete [] s clean = (clean, λ e m. absurd m)
  check_complete-Complete (e ∷ log) s clean =
      let one = check_one e s (lookup e.id s.produced) in
      let (clean', all) = check_complete-Complete log one clean in
      let (clean'', found) = check_one_finds e s (lookup e.id s.produced) clean' in
      let same = keeps_produced log one ∙ check_one-produced e s (lookup e.id s.produced) in
      (
        clean'',
        λ f m. elim m [ inl here ↦ rw here (λ z. found (rw same at z)) | inr later ↦ all f later ],
      )

check_complete-made :
    {P : Type 0} (log : List CausalEvent) (s : ReplayState P) → (check_complete log s).made ≡ s.made
unfolding check_complete check_one
check_complete-made [] s = refl
check_complete-made (e ∷ log) s =
    check_complete-made log (check_one e s (lookup e.id s.produced)) ∙ one (lookup e.id s.produced)
  where
    one : (o : Option (Unit {0})) → (check_one e s o).made ≡ s.made
    one none = refl
    one (some u) = refl
