-- ===== src/Reexec/Run/Faithful.antt =====
-- A replay without divergences re-produced the recording: `replay` and `is_faithful` of
-- crates/lichtung-replay/src/reexec.rs.
use lichtung.Prelude.{
  List, [], ◌∷◌, Option, none, some, Bool, true, false, ◌≡◌, ◌≢◌, refl, ◌⊎◌, inl, inr, In, ap, ◌∙◌,
  subst,
}
use lichtung.Prelude.Result.{Result, ok, err}
use lichtung.Map.{lookup, keys}
use lichtung.Log.{CausalEvent, emit, op_eq, event_eq}
use lichtung.Poset.{ReplayError}
use lichtung.Engine.{replay_log, Replayed}
use lichtung.Reexec.{index_log, or_none, Divergence, ReplayState}
use lichtung.Reexec.Index.{DistinctIds, by_id-In, emits-In}
use lichtung.Reexec.Backend.{check_complete, fresh_state}
use lichtung.Reexec.Run.{
  ReplaySystem, Progress, start_all, replay_events, seeded, execute, ReplayOutcome, is_faithful,
  replay, Failure, refused, panicked,
}
use lichtung.Reexec.Run.Loops.{
  Sound, SoundAnswer, chain-Sound, start_all-Sound, replay_events-Sound,
}
use lichtung.Reexec.Run.Ends.{seed_origins-IsSound, check_complete-IsSound, check_complete-Complete}
use lichtung.Reexec.Run.Soundness.{IsSound}

abbrev last_of : {P : Type 0} → ReplayState P → Result Failure (ReplayOutcome P) → ReplayState P
last_of s (err f) = s
last_of s (ok o) = o.last

module _ {A P : Type 0} (sys : ReplaySystem A P) (log : List CausalEvent) where
  abbrev worlds : List CausalEvent
  worlds = or_none (lookup "world" (index_log log).emits_by_actor)

  fresh-IsSound : IsSound (index_log log) worlds (fresh_state {P = P} log)
  unfolding lookup
  fresh-IsSound = record {
    index = refl;
    matched = λ clean e m. absurd m;
    covered = λ k l. absurd (l refl);
  }

  execute-Sound :
      (timeline : List CausalEvent) → SoundAnswer (index_log log) worlds (execute sys log timeline)
  unfolding execute
  execute-Sound timeline =
      chain-Sound (index_log log) worlds (replay_events timeline)
        (replay_events-Sound (index_log log) worlds timeline)
        (start_all (keys sys.actors) (seeded sys log))
        (start_all-Sound (index_log log) worlds (keys sys.actors) (seeded sys log) (
          seed_origins-IsSound (index_log log) worlds sys.origins 0 worlds (fresh_state log)
            (λ w m. m) fresh-IsSound))

  Ended : ReplayState P → Type 0
  Ended s =
      IsSound (index_log log) worlds s
      × (s.divergences ≡ [] → (e : CausalEvent) → In e log → lookup e.id s.produced ≢ none)

  -- The last state of a replay.
  replay-Ended : (o : ReplayOutcome P) → replay sys log ≡ ok o → Ended o.last
  unfolding replay Ended
  replay-Ended o h = at_log (replay_log log) h
    where
      ended :
          (p : Progress A P) → Sound (index_log log) worlds p → Ended (check_complete log p.state)
      ended p g = (
        check_complete-IsSound (index_log log) worlds log p.state g,
        λ clean. (check_complete-Complete log p.state clean).1,
      )

      at_run :
          (replayed : Replayed) (a : Option (Progress A P))
          → SoundAnswer (index_log log) worlds a
          → (elim a as (λ x. Result Failure (ReplayOutcome P)) [
            | none ↦ err panicked
            | some p ↦ ok (record { replayed = replayed; last = check_complete log p.state })
          ])
            ≡ ok o
          → Ended o.last
      at_run replayed none g e = absurd (cc)
      at_run replayed (some p) g e =
          let last_eq : check_complete log p.state ≡ o.last = ap (last_of o.last) e in
          subst Ended last_eq (ended p g)

      at_log :
          (l : Result ReplayError Replayed)
          → (elim l as (λ x. Result Failure (ReplayOutcome P)) [
            | err e ↦ err (refused e)
            | ok replayed ↦
                elim (execute sys log replayed.timeline)
                  as (λ x. Result Failure (ReplayOutcome P)) [
                    | none ↦ err panicked
                    | some p ↦
                        ok (record { replayed = replayed; last = check_complete log p.state })
                  ]
          ])
            ≡ ok o
          → Ended o.last
      at_log (err r) e = absurd (cc)
      at_log (ok replayed) e =
          at_run replayed (execute sys log replayed.timeline) (execute-Sound replayed.timeline) e

  faithful-clean : (o : ReplayOutcome P) → is_faithful o ≡ true → o.last.divergences ≡ []
  faithful-clean o h = cases o.last.divergences h
    where
      cases :
          (ds : List Divergence)
          → (elim ds as (λ x. Bool) [ [] ↦ true | _ ↦ false ]) ≡ true
          → ds ≡ []
      cases [] e = refl
      cases (d ∷ ds) e = absurd (cc)

  -- A faithful replay re-produced the recording: for a log in which no two events share an id, each
  -- event equals, by `==`, an event that the actors produced and `verify` checked, unless it is an emit
  -- of `world`, which is taken from the log.
  pub faithful_reproduces :
      (o : ReplayOutcome P) (e : CausalEvent)
      → replay sys log ≡ ok o
      → is_faithful o ≡ true
      → DistinctIds log
      → In e log
      → ((made : CausalEvent) × In made o.last.made × (event_eq e made ≡ true))
        ⊎ ((e.actor ≡ "world") × (op_eq e.op emit ≡ true))
  unfolding Ended
  faithful_reproduces o e h f d m =
      let (sound, complete) = replay-Ended o h in
      let clean = faithful-clean o f in
      elim (sound.covered e.id (complete clean e m)) [
        | inl (made, n, i) ↦
            let (rec, found, same) = sound.matched clean made n in
            let (k, j) = by_id-In log made.id rec found in
            let it : rec ≡ e = d rec e k m (j ∙ i) in inl (made, n, rw it at same)
        | inr (w, n, i) ↦
            let (k, actor, op) = emits-In log "world" w n in
            let it : w ≡ e = d w e k m i in inr (rw it at actor, rw it at op)
      ]

  -- A faithful replay produced nothing else: each event that the actors produced equals, by `==`, an
  -- event of the log.
  pub faithful_adds_nothing :
      (o : ReplayOutcome P) (made : CausalEvent)
      → replay sys log ≡ ok o
      → is_faithful o ≡ true
      → In made o.last.made
      → (e : CausalEvent) × In e log × (event_eq e made ≡ true)
  unfolding Ended
  faithful_adds_nothing o made h f n =
      let (rec, found, same) = (replay-Ended o h).0.matched (faithful-clean o f) made n in
      (rec, (by_id-In log made.id rec found).0, same)
