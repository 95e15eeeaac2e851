-- ===== src/Reexec/Run/Soundness.antt =====
-- A replay without divergences re-produced the recording: `replay` and `is_faithful` of
-- crates/lichtung-replay/src/reexec.rs.
use Prim.Native.String.{◌++◌ as append_str}
use lichtung.Prelude.{
  ◌-◌, ℕ, String, List, [], ◌∷◌, ◌++◌, Option, none, some, true, ◌+◌, ◌%◌, ◌≡◌, ◌≢◌, refl, ◌⊎◌, inl,
  inr, In, In-append, Bool-cases, str_eq, eq_iff, if◌then◌else◌,
}
use lichtung.Prelude.Words.{u64_mod, u64_max}
use lichtung.Prelude.Decimal.{show}
use lichtung.Map.{lookup, insert, lookup-insert, get_or_zero}
use lichtung.Log.{CausalEvent, event_eq}
use lichtung.Core.Keeps.{Keeps}
use lichtung.Reexec.{
  RecordedIndex, Detail, ReplayState, verify, diverge, Pending, no_counterpart, diverges,
  more_sends,
}
use lichtung.Reexec.Backend.{recorded_mid, next_msg_id, replay_dispatch}

pub append-ne-nil : {B : Type 0} (xs : List B) (x : B) → xs ++ x ∷ [] ≢ []
append-ne-nil [] x e = cc
append-ne-nil (y ∷ xs) x e = cc

module _ {P : Type 0} (R : RecordedIndex) (worlds : List CausalEvent) where
  -- What is verified equals its recording, or there is a divergence; and what counts as produced was
  -- verified, or is an emit of `world`.
  pub record IsSound (s : ReplayState P) : Type 0 where
    pub index : s.recorded ≡ R
    pub matched :
        s.divergences ≡ []
        → (e : CausalEvent) → In e s.made
        → (rec : CausalEvent) × (lookup e.id R.by_id ≡ some rec) × (event_eq rec e ≡ true)
    pub covered :
        (k : String)
        → lookup k s.produced ≢ none
        → ((e : CausalEvent) × In e s.made × (e.id ≡ k))
          ⊎ ((w : CausalEvent) × In w worlds × (w.id ≡ k))

  pub diverge-IsSound :
      (id : String) (detail : Detail) (s : ReplayState P)
      → IsSound s
      → IsSound (diverge id detail s)
  diverge-IsSound id detail s h = record {
    index = h.index;
    matched = λ clean e m. absurd (append-ne-nil s.divergences _ clean);
    covered = h.covered;
  }

  produced-IsSound :
      (event : CausalEvent) (s : ReplayState P)
      → IsSound s
      → (k : String) → lookup k (insert event.id tt s.produced) ≢ none
      → ((e : CausalEvent) × In e (s.made ++ event ∷ []) × (e.id ≡ k))
        ⊎ ((w : CausalEvent) × In w worlds × (w.id ≡ k))
  produced-IsSound event s h k l = elim (Bool-cases (str_eq event.id k)) [
    | inl same ↦ inl (
      event,
      (In-append event s.made (event ∷ [])).1 (inr (inl refl)),
      (eq_iff event.id k).0 same,
    )
    | inr other ↦
        elim (h.covered k (λ z. l (rw (lookup-insert event.id k tt s.produced, other) z))) [
          | inl (e, m, i) ↦ inl (e, (In-append e s.made (event ∷ [])).1 (inl m), i)
          | inr w ↦ inr w
        ]
  ]

  pub verify-IsSound :
      (event : CausalEvent) (s : ReplayState P) → IsSound s → IsSound (verify event s)
  unfolding verify
  verify-IsSound event s h = cases (lookup event.id s.recorded.by_id) refl
    where
      seen : ReplayState P
      seen = record s { produced = insert event.id tt s.produced; made = s.made ++ event ∷ [] }

      diverged : (detail : Detail) → IsSound (diverge event.id detail seen)
      diverged detail = record {
        index = h.index;
        matched = λ clean e m. absurd (append-ne-nil s.divergences _ clean);
        covered = produced-IsSound event s h;
      }

      equal :
          (rec : CausalEvent)
          → lookup event.id s.recorded.by_id ≡ some rec
          → event_eq rec event ≡ true
          → IsSound seen
      equal rec found same = record {
        index = h.index;
        matched = λ clean e m. elim ((In-append e s.made (event ∷ [])).0 m) [
          | inl old ↦ h.matched clean e old
          | inr (inl here) ↦ rw here (rec, rw h.index at found, same)
          | inr (inr none_) ↦ absurd none_
        ];
        covered = produced-IsSound event s h;
      }

      cases :
          (r : Option CausalEvent)
          → lookup event.id s.recorded.by_id ≡ r
          → IsSound (elim r as (λ x. ReplayState P) [
            | none ↦ diverge event.id no_counterpart seen
            | some rec ↦
                if event_eq rec event then seen else diverge event.id (diverges rec event) seen
          ])
      cases none found = diverged no_counterpart
      cases (some rec) found = elim (Bool-cases (event_eq rec event)) [
        | inl same ↦ rw same (equal rec found same)
        | inr other ↦ rw other (diverged (diverges rec event))
      ]

  next_msg_id-IsSound :
      (current : String) (s : ReplayState P) → IsSound s → IsSound (next_msg_id current s).0
  unfolding next_msg_id
  next_msg_id-IsSound current s h = cases (recorded_mid current _ s)
    where
      j : ℕ
      j = (get_or_zero current s.send_count + 1) % u64_mod

      counted : ReplayState P
      counted = record s { send_count = insert current j s.send_count }

      counted-IsSound : IsSound counted
      counted-IsSound = record { index = h.index; matched = h.matched; covered = h.covered }

      cases :
          (r : Option ℕ)
          → IsSound
              (elim r as (λ x. ReplayState P × ℕ) [
                | some m ↦ (counted, m)
                | none ↦ (
                  diverge (append_str current (append_str ":send" (show j))) more_sends counted,
                  u64_max - j,
                )
              ]).0
      cases none = diverge-IsSound _ more_sends counted counted-IsSound
      cases (some m) = counted-IsSound

  pub with_pending :
      (s : ReplayState P) (p : Pending P) → IsSound s → IsSound (record s { pending = p })
  with_pending s p h = record { index = h.index; matched = h.matched; covered = h.covered }

  pub replay_dispatch-Keeps : (current : String) → Keeps (replay_dispatch current) IsSound
  unfolding replay_dispatch
  replay_dispatch-Keeps current = record {
    numbering = next_msg_id-IsSound current;
    recording = verify-IsSound;
    delivering = λ sink env s h. with_pending s _ h;
  }
