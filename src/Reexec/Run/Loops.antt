-- ===== src/Reexec/Run/Loops.antt =====
-- What the loops of `replay` in crates/lichtung-replay/src/reexec.rs keep.
use lichtung.Prelude.{ℕ, String, List, [], ◌∷◌, Option, none, some, Bool, true, false}
use lichtung.Map.{lookup}
use lichtung.Log.{CausalEvent, recv, op_eq}
use lichtung.Core.{Action}
use lichtung.Core.Event.{Envelope}
use lichtung.Core.Keeps.{run_actions_keeps}
use lichtung.Reexec.{RecordedIndex, pending_remove, pending_get, no_msg_id, no_message, no_actor}
use lichtung.Reexec.Backend.{replay_dispatch, parse_mid?}
use lichtung.Reexec.Run.{
  Erased, Progress, drive_actor, drive, start_all, stamp_receipt, replay_receipt, replay_events,
  note, answer,
}
use lichtung.Reexec.Run.Soundness.{
  IsSound, diverge-IsSound, verify-IsSound, with_pending, replay_dispatch-Keeps,
}

module _ {A P : Type 0} (R : RecordedIndex) (worlds : List CausalEvent) where
  abbrev pub Sound : Progress A P → Type 0
  Sound p = IsSound R worlds p.state

  abbrev pub SoundAnswer : Option (Progress A P) → Type 0
  SoundAnswer none = Unit
  SoundAnswer (some p) = Sound p

  drive_actor-Sound :
      (dst : String) (a : Erased A P) (r : A × List (Action P)) (p : Progress A P)
      → Sound p
      → Sound (drive_actor dst a r p)
  unfolding drive_actor
  drive_actor-Sound dst a (state', calls) p h =
      run_actions_keeps (replay_dispatch dst) (IsSound R worlds)
        (replay_dispatch-Keeps R worlds dst) _ calls h

  pub drive-Sound :
      (dst : String) (msg : Option P) (p : Progress A P) → Sound p → SoundAnswer (drive dst msg p)
  unfolding drive
  drive-Sound dst msg p h = cases (lookup dst p.actors)
    where
      answers :
          (a : Erased A P) (o : Option (A × List (Action P)))
          → SoundAnswer (elim o [ none ↦ none | some r ↦ some (drive_actor dst a r p) ])
      answers a none = tt
      answers a (some r) = drive_actor-Sound dst a r p h

      cases :
          (o : Option (Erased A P))
          → SoundAnswer (elim o [
            | none ↦ none
            | some a ↦ elim (answer a msg) [ none ↦ none | some r ↦ some (drive_actor dst a r p) ]
          ])
      cases none = tt
      cases (some a) = answers a (answer a msg)

  -- A part of the run in front of the rest.
  pub chain-Sound :
      (rest : Progress A P → Option (Progress A P))
      → ((p : Progress A P) → Sound p → SoundAnswer (rest p))
      → (o : Option (Progress A P)) → SoundAnswer o
      → SoundAnswer (elim o [ none ↦ none | some p ↦ rest p ])
  chain-Sound rest h none g = tt
  chain-Sound rest h (some p) g = h p g

  pub start_all-Sound :
      (names : List String) (p : Progress A P) → Sound p → SoundAnswer (start_all names p)
  unfolding start_all
  start_all-Sound [] p h = h
  start_all-Sound (name ∷ names) p h =
      chain-Sound (start_all names) (start_all-Sound names) (drive name none p)
        (drive-Sound name none p h)

  stamp_receipt-Sound :
      (ev : CausalEvent) (m : ℕ) (env : Envelope P) (p : Progress A P)
      → Sound p
      → Sound (stamp_receipt ev m env p)
  unfolding stamp_receipt
  stamp_receipt-Sound ev m env p h =
      verify-IsSound R worlds _ _
        (with_pending R worlds p.state (pending_remove m p.state.pending) h)

  replay_receipt-Sound :
      (ev : CausalEvent) (p : Progress A P) → Sound p → SoundAnswer (replay_receipt ev p)
  unfolding replay_receipt
  replay_receipt-Sound ev p h = cases (parse_mid? ev.msg_id)
    where
      at_actor :
          (p' : Progress A P) (msg : P)
          → Sound p'
          → (o : Option (Erased A P))
          → SoundAnswer (elim o [
            | none ↦ some (note ev.id no_actor p')
            | some a ↦ drive ev.actor (some msg) p'
          ])
      at_actor p' msg g none = diverge-IsSound R worlds ev.id no_actor p'.state g
      at_actor p' msg g (some a) = drive-Sound ev.actor (some msg) p' g

      at_message :
          (m : ℕ) (o : Option (Envelope P))
          → SoundAnswer (elim o [
            | none ↦ some (note ev.id no_message p)
            | some env ↦
                let p' = stamp_receipt ev m env p in
                elim (lookup ev.actor p.actors) [
                  | none ↦ some (note ev.id no_actor p')
                  | some a ↦ drive ev.actor (some env.msg) p'
                ]
          ])
      at_message m none = diverge-IsSound R worlds ev.id no_message p.state h
      at_message m (some env) =
          at_actor (stamp_receipt ev m env p) env.msg (stamp_receipt-Sound ev m env p h)
            (lookup ev.actor p.actors)

      cases :
          (o : Option ℕ)
          → SoundAnswer (elim o [
            | none ↦ some (note ev.id no_msg_id p)
            | some m ↦ elim (pending_get m p.state.pending) [
              | none ↦ some (note ev.id no_message p)
              | some env ↦
                  let p' = stamp_receipt ev m env p in
                  elim (lookup ev.actor p.actors) [
                    | none ↦ some (note ev.id no_actor p')
                    | some a ↦ drive ev.actor (some env.msg) p'
                  ]
            ]
          ])
      cases none = diverge-IsSound R worlds ev.id no_msg_id p.state h
      cases (some m) = at_message m (pending_get m p.state.pending)

  branch-Sound :
      (b : Bool) (x y : Option (Progress A P))
      → SoundAnswer x
      → SoundAnswer y
      → SoundAnswer (elim b [ false ↦ x | true ↦ y ])
  branch-Sound false x y g h = g
  branch-Sound true x y g h = h

  pub replay_events-Sound :
      (timeline : List CausalEvent) (p : Progress A P)
      → Sound p
      → SoundAnswer (replay_events timeline p)
  unfolding replay_events
  replay_events-Sound [] p h = h
  replay_events-Sound (ev ∷ timeline) p h =
      branch-Sound (op_eq ev.op recv) (replay_events timeline p) _
        (replay_events-Sound timeline p h)
        (chain-Sound (replay_events timeline) (replay_events-Sound timeline) (replay_receipt ev p)
          (replay_receipt-Sound ev p h))
