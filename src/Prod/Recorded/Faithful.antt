-- ===== src/Prod/Recorded/Faithful.antt =====
-- The log of a run of crates/lichtung-prod/src/system.rs, read by crates/lichtung-replay.
use lichtung.Prelude.{
  Option, ℕ, String, List, ◌++◌, length, [], ◌+◌, ◌≡◌, ◌≤◌, ◌<◌, subst, arith, refl, subst, inl,
  inr,
}
use lichtung.Prelude.Words.{u64_max}
use lichtung.Prelude.Result.{Result, ok, err, err_of}
use lichtung.Poset.{ReplayError}
use lichtung.Log.{CausalEvent}
use lichtung.Log.Lines.{Codec, LogError, read_events}
use lichtung.Log.Lines.RoundTrip.{AllRoundTrip, append_to, read-write_events}
use mathlib.Core.List.{append_assoc}
use lichtung.Core.{Addr}
use lichtung.Core.Event.{emit_event}
use lichtung.Engine.Append.{clash-IsFaithful}
use lichtung.Prod.{next_msg_id, record_event}
use lichtung.Prod.Writer.{WritesText, Agrees-ok, log_writer, all_events, log_writer-write_events}
use lichtung.Engine.{Replayed, replay_log}
use lichtung.Engine.Replay.{IsFaithful, replay_log_iff}
use lichtung.Prod.System.{
  System, Step, new_system, send_external, step_main_at, step_main, task, panics, aborts, main,
  spawns, sends, runs,
}
use lichtung.Prod.System.{checking}
use lichtung.Prod.Run.{Run, begun, next, IsNamed, origins}
use lichtung.Prod.Recorded.Claims.{all_taken, emitted}
use lichtung.Prod.Recorded.Records.{worlds, some_world}
use lichtung.Prod.Recorded.Tasks.{step_task-IsRecorded, panic-IsRecorded, abort-IsRecorded}
use lichtung.Prod.Recorded.Spawn.{spawn-IsRecorded}
use lichtung.Prod.Recorded.Origin.{step_main-IsRecorded, send_external-IsRecorded, moves_on}
use lichtung.Prod.Recorded.Systems.{IsRecorded}

empty-IsFaithful : IsFaithful []
empty-IsFaithful = record {
  well_formed = record {
    distinct_seq = λ i j h. absurd (omega arith);
    emitted_once = λ i j m h. absurd (omega arith);
    matched = λ b h. absurd (omega arith);
  };
  ordered = λ i j e. elim e [
    | inl (h, _, _, _, _) ↦ absurd (omega arith)
    | inr (h, _, _, _, _) ↦ absurd (omega arith)
  ];
}

module _ {A P : Type 0} where
  new_system-IsRecorded : IsRecorded {A = A} {P = P} 0 0 new_system
  unfolding all_taken emitted worlds
  new_system-IsRecorded = record {
    faithful = empty-IsFaithful;
    sound = λ i t e. absurd (cc);
    inner = λ i t e. absurd (cc);
    distinct = λ i j t u e. absurd (cc);
    actors = λ x m. absurd m;
    origin = tt;
    once = λ k b. omega arith;
    unused = λ k b lt. refl;
    numbers = omega arith;
    origins = omega arith;
    few = omega arith;
    world_first = λ x m. absurd m;
  }

  same_origins : {n o : ℕ} {s : System A P} → IsRecorded n o s → IsRecorded n (o + 0) s
  same_origins {n} {o} {s} h = subst (λ o. IsRecorded n o s) (omega arith) h

  Step-IsRecorded :
      (n o : ℕ) (s s' : System A P) (step : Step s s')
      → IsNamed step
      → o ≤ 1
      → n < u64_max
      → IsRecorded n o s
      → IsRecorded (n + 1) (o + origins step) s'
  unfolding step_main
  Step-IsRecorded n o s s' (task i) named one small h =
      same_origins (step_task-IsRecorded n o i s small h)
  Step-IsRecorded n o s s' (panics i) named one small h =
      same_origins (panic-IsRecorded n o i s small h)
  Step-IsRecorded n o s s' (aborts i e) named one small h =
      same_origins (abort-IsRecorded n o i s small h)
  Step-IsRecorded n o s s' main named one small h =
      same_origins (step_main-IsRecorded n o s s.main one small refl h)
  Step-IsRecorded n o s s' (spawns name actor state e) (inner, new_name) one small h =
      same_origins (spawn-IsRecorded n o name actor state s inner new_name h)
  Step-IsRecorded n o s s' (sends to msg e) named one small h =
      send_external-IsRecorded n o to msg s small e h
  Step-IsRecorded n o s s' (runs e) named one small h =
      same_origins
        (moves_on s.shared.in_flight s.shared.permit checking s.lost h tt (λ k. refl) refl)

  pub Run-IsRecorded :
      {n o : ℕ} {s : System A P} → Run n o s → n ≤ u64_max → o ≤ 1 → IsRecorded n o s
  Run-IsRecorded begun small one = new_system-IsRecorded
  Run-IsRecorded (next {n} {o} {s} {s'} r step named) small one =
      Step-IsRecorded n o s s' step named (omega arith) (omega arith)
        (Run-IsRecorded r (omega arith) (omega arith))

  -- Whatever the interleaving of the actors' loops and the main thread, and whichever actors panic,
  -- `replay_log` accepts the log that the run has recorded so far. This holds for a run of fewer than
  -- 2^64 steps in which actors are spawned under different names, none of them "world", and
  -- `send_external` is called at most once.
  pub Run-is_replayed :
      (n o : ℕ) (s : System A P)
      → Run n o s
      → n ≤ u64_max
      → o ≤ 1
      → (r : Replayed) × (replay_log s.shared.events ≡ ok r)
  Run-is_replayed n o s r small one =
      (replay_log_iff s.shared.events).1 (Run-IsRecorded r small one).faithful

  -- What the log task writes of such a run, with a writer that flushes without error and however the
  -- events fall into bursts, is read back as the recorded events, all and in order, and `replay_log`
  -- accepts them; the task returns their number. The codec round-trips the recorded events, each on one
  -- line that is not blank, and `serde_json::to_writer` writes the text of `to_string`.
  pub written_log_is_replayed :
      (codec : Codec) (to_writer : CausalEvent → String → Option String)
      (flush : String → Result LogError String) (n o : ℕ) (s : System A P)
      (bursts : List (CausalEvent × List CausalEvent))
      → WritesText codec append_to to_writer
      → ((w : String) → flush w ≡ ok w)
      → Run n o s
      → n ≤ u64_max
      → o ≤ 1
      → AllRoundTrip codec s.shared.events
      → all_events bursts ≡ s.shared.events
      → (buf : String) × (log_writer to_writer append_to flush bursts ""
          ≡ ok (buf, length s.shared.events))
        × (read_events codec buf ≡ ok s.shared.events)
        × (r : Replayed) × (replay_log s.shared.events ≡ ok r)
  written_log_is_replayed codec to_writer flush n o s bursts text flushes r small one good same =
      let recorded = Run-IsRecorded r small one in
      let (buf, writes, reads) = read-write_events codec s.shared.events good in
      (
        buf,
        Agrees-ok _ _ (
            rw writes at (
              rw same at (
                log_writer-write_events to_writer append_to flush codec text flushes bursts ""
                  (rw same (omega (arith, recorded.few)))))),
        reads,
        (Run-is_replayed n o s r small one).0,
        (Run-is_replayed n o s r small one).1,
      )

  -- A second call of `send_external`, once the first has recorded its emit, records an event with which
  -- `replay_log` fails, whatever is recorded behind it.
  pub second_origin_rejected :
      (n o : ℕ) (s : System A P) (to : Addr) (msg : P) (more : List CausalEvent)
      → Run n o s
      → n ≤ u64_max
      → o ≤ 1
      → 0 < worlds s.shared.events
      → (e : ReplayError) × (replay_log ((step_main (send_external to msg s)).shared.events ++ more)
          ≡ err e)
  unfolding step_main step_main_at send_external next_msg_id record_event emit_event
  second_origin_rejected n o s to msg more run small one first =
      let recorded = Run-IsRecorded run small one in
      let (x, m, w) = some_world s.shared.events first in
      let log = (step_main (send_external to msg s)).shared.events ++ more in
      err_of (replay_log log) λ r h.
        clash-IsFaithful s.shared.events more x _ m w (recorded.world_first x m w)
          (rw append_assoc at ((replay_log_iff log).0 (r, h)))
