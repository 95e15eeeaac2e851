-- ===== src/Examples/Replays.antt =====
-- The replay of the log of four events.
use lichtung.Prelude.{
  Option, zero, suc, ℕ, String, List, [], ◌∷◌, true, ◌≡◌, refl, ◌↔◌, ◌⊎◌, ◌<◌, In, map, str_eq,
  if◌then◌else◌, arith, inl, inr,
}
use lichtung.Prelude.Result.{Result, ok, err, ◌>>=◌}
use lichtung.Clock.{happens_before}
use lichtung.Log.{CausalEvent}
use lichtung.Log.Lines.{Codec, LogError, write_events, read_events, is_blank}
use lichtung.Log.Lines.RoundTrip.{append_to, AllRoundTrip, read-write_events}
use lichtung.Prod.Writer.{
  Agrees, forget, log_writer, write_bursts, drain_queue, write_one, log_writer-write_events,
}
use lichtung.Poset.{Poset, build, event_at, hb_strict}
use lichtung.Poset.Program.{ProgramEdge}
use lichtung.Poset.Messages.{MessageEdge}
use lichtung.Poset.Build.{IsWellFormed, build_iff, build_edges}
use lichtung.Poset.HbStrict.{clock, hb_strict-eq-happens_before}
use lichtung.Extension.{
  linearize, kahn, start, seed, relax, drain, in_degrees, successors, heap_push, compare_key,
}
use lichtung.Extension.Correct.{IsLinearExtension, validated_linearizes, linearize_built, Answers}
use lichtung.Engine.{
  Replayed, replay_log, concurrent_pairs, pairs_from, pairs_with, reaches, reach_from, walk, visit,
  assemble,
}
use lichtung.Engine.Pairs.{concurrent_pairs_iff}
use lichtung.Engine.Reach.{Leads, edge}
use lichtung.Engine.Replay.{
  IsFaithful, replay_log_iff, replay_log-IsLinearExtension, Leads-happens_before,
}
use lichtung.Examples.Logs.{sent, received, alone, log, log_poset, log_built, log_valid}

log_order : linearize log_poset ≡ ok (2 ∷ 1 ∷ 3 ∷ 0 ∷ [])
unfolding linearize kahn start seed relax drain in_degrees successors heap_push compare_key
log_order = refl

pub log_replayed : replay_log log ≡ ok (assemble log_poset (2 ∷ 1 ∷ 3 ∷ 0 ∷ []))
unfolding replay_log
log_replayed = rw (log_built, log_valid, log_order)

parallel : concurrent_pairs log_poset ≡ ("a:2", "b:1") ∷ ("world:1", "b:1") ∷ ("b:1", "a:1") ∷ []
unfolding concurrent_pairs pairs_from pairs_with reaches reach_from walk visit successors
parallel = refl

validated_linearizes_example :
    (order : List ℕ) × (linearize log_poset ≡ ok order) × IsLinearExtension log_poset order
validated_linearizes_example = validated_linearizes log log_poset log_built log_valid

linearize_built_example : Answers log_poset (linearize log_poset)
linearize_built_example = linearize_built log log_poset log_built

replay_log_iff_example : ((r : Replayed) × (replay_log log ≡ ok r)) ↔ IsFaithful log
replay_log_iff_example = replay_log_iff log

abbrev log_edges : List (String × String)
log_edges = ("a:1", "a:2") ∷ ("world:1", "a:1") ∷ []

replay_log-IsLinearExtension_example :
    (p : Poset) × (order : List ℕ) × (build log ≡ ok p)
    × (p.events ≡ log)
    × IsLinearExtension p order
    × (map (event_at log) (2 ∷ 1 ∷ 3 ∷ 0 ∷ []) ≡ map (event_at log) order)
    × ("b:1" ∷ "world:1" ∷ "a:1" ∷ "a:2" ∷ [] ≡ map (λ i. (event_at log i).id) order)
    × (log_edges ≡ map (λ (e : ℕ × ℕ). ((event_at log e.0).id, (event_at log e.1).id)) p.edges)
    × (concurrent_pairs log_poset ≡ concurrent_pairs p)
replay_log-IsLinearExtension_example =
    replay_log-IsLinearExtension log (assemble log_poset (2 ∷ 1 ∷ 3 ∷ 0 ∷ [])) log_replayed

concurrent_pairs_iff_example : In ("world:1", "b:1") (concurrent_pairs log_poset) ↔ (
    (i : ℕ) × (j : ℕ) × (i < j)
    × (j < 4)
    × ("world:1" ≡ (event_at log i).id)
    × ("b:1" ≡ (event_at log j).id)
    × ¬ Leads log_poset.edges i j
    × ¬ Leads log_poset.edges j i)
concurrent_pairs_iff_example = concurrent_pairs_iff log log_poset log_built "world:1" "b:1"

Leads-happens_before_example : hb_strict sent.vclock received.vclock ≡ true
Leads-happens_before_example =
    Leads-happens_before log_poset log_valid {i = 1} {j = 3} (edge (inr (inl refl)))

build_iff_example : ((p : Poset) × (build log ≡ ok p)) ↔ IsWellFormed log
build_iff_example = build_iff log

build_edges_example :
    (log ≡ log)
    × ((i j : ℕ) → In (i, j) log_poset.edges ↔ (ProgramEdge log i j ⊎ MessageEdge log i j))
build_edges_example = build_edges log log_poset log_built

hb_strict-eq-happens_before_example :
    hb_strict sent.vclock alone.vclock ≡ happens_before (clock sent.vclock) (clock alone.vclock)
hb_strict-eq-happens_before_example = hb_strict-eq-happens_before sent.vclock alone.vclock

-- A codec that knows two events.
abbrev codec : Codec
codec = record {
  to_string = λ e. ok (if str_eq e.id "world:1" then "{1}" else "{2}");
  from_str = λ s.
      if str_eq s "{1}" then ok sent else if str_eq s "{2}" then ok alone else err LogError.json;
}

codec_fits : AllRoundTrip codec (sent ∷ alone ∷ [])
unfolding is_blank
codec_fits = (
  ("{1}", refl, (omega arith, (omega arith, (omega arith, tt))), refl, refl),
  (("{2}", refl, (omega arith, (omega arith, (omega arith, tt))), refl, refl), tt),
)

read-write_events_example :
    (buf : String) × (write_events codec append_to (sent ∷ alone ∷ []) "" ≡ ok buf)
    × (read_events codec buf ≡ ok (sent ∷ alone ∷ []))
read-write_events_example = read-write_events codec (sent ∷ alone ∷ []) codec_fits

-- A writer with room for a number of writes.
abbrev write_some : String → ℕ → Result LogError ℕ
write_some s zero = err LogError.io
write_some s (suc room) = ok room

abbrev to_some : CausalEvent → ℕ → Option ℕ
to_some e w = forget (codec.to_string e >>= λ line. write_some line w)

log_writer-write_events_example :
    Agrees
      (log_writer to_some write_some (λ w. ok w) ((sent, alone ∷ []) ∷ (alone, []) ∷ []) 8)
      (write_events codec write_some (sent ∷ alone ∷ alone ∷ []) 8 >>= λ w'. ok (w', 3))
log_writer-write_events_example =
    log_writer-write_events to_some write_some (λ w. ok w) codec (λ e w. refl) (λ w. refl)
      ((sent, alone ∷ []) ∷ (alone, []) ∷ []) 8 (omega arith)

room_for_all :
    log_writer to_some write_some (λ w. ok w) ((sent, alone ∷ []) ∷ (alone, []) ∷ []) 8 ≡ ok (2, 3)
unfolding log_writer write_bursts drain_queue write_one
room_for_all = refl

-- The writer fails at the second event: the task takes it for an error of JSON.
task_error :
    log_writer to_some write_some (λ w. ok w) ((sent, alone ∷ []) ∷ (alone, []) ∷ []) 2
    ≡ err LogError.json
unfolding log_writer write_bursts drain_queue write_one
task_error = refl

events_error : write_events codec write_some (sent ∷ alone ∷ alone ∷ []) 2 ≡ err LogError.io
unfolding write_events
events_error = refl
