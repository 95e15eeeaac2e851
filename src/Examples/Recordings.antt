-- ===== src/Examples/Recordings.antt =====
-- Runs of the production runtime whose logs are read back.
use lichtung.Prelude.{
  Option, String, List, [], ◌∷◌, ◌++◌, str_eq, ◌==◌, if◌then◌else◌, ◌≡◌, ◌≢◌, ◌<◌, refl, arith,
  length,
}
use lichtung.Prelude.Result.{◌>>=◌, ok, err}
use lichtung.Poset.{ReplayError}
use lichtung.Engine.{Replayed, replay_log}
use lichtung.Prod.{
  sub_in_flight, notify_one, deliver, next_msg_id, inc_in_flight, dec_in_flight, record_event,
}
use lichtung.Prod.Run.{Run, begun, next, names}
use lichtung.Prod.Recorded.Faithful.{
  Run-is_replayed, written_log_is_replayed, second_origin_rejected,
}
use lichtung.Prod.Recorded.Records.{worlds}
use lichtung.Prod.Writer.{forget, log_writer, all_events}
use lichtung.Core.Event.{emit_event, recv_event, compute_event}
use lichtung.Log.{CausalEvent}
use lichtung.Log.Lines.{Codec, read_events, is_blank}
use lichtung.Log.Lines.RoundTrip.{AllRoundTrip, append_to}
use lichtung.Poset.{event_at}
use lichtung.Prod.System.{
  task, main, spawns, sends, runs, step_task, step_main, spawn, send_external, step_main_at,
  step_at, finish_send, advance, receive, dispatch_message, begin_send, do_compute,
}
use lichtung.Examples.Runs.{echo, echo_addr, sent_one, drained}

abbrev name : String
name = "echo"

echo_name : name ≢ "world"
echo_name e = cc

sent_one-Run : Run 5 1 sent_one
unfolding names spawn send_external step_main step_main_at deliver next_msg_id inc_in_flight
    record_event
sent_one-Run =
    let r₀ = next begun (spawns "echo" echo 0 refl) (echo_name, λ m. m) in
    let r₁ = next (next r₀ (sends echo_addr 5 refl) tt) main tt in next (next r₁ main tt) main tt

drained-Run : Run 14 1 drained
unfolding names spawn send_external step_main step_main_at deliver next_msg_id inc_in_flight
    record_event step_task step_at finish_send advance receive dispatch_message begin_send
    do_compute dec_in_flight
drained-Run =
    let r₃ = next (next sent_one-Run (runs refl) tt) main tt in
    let r₄ = next (next r₃ (task 0) tt) (task 0) tt in
    let r₅ = next (next r₄ (task 0) tt) (task 0) tt in
    next (next (next r₅ (task 0) tt) (task 0) tt) (task 0) tt

Run-is_replayed_example : (r : Replayed) × (replay_log drained.shared.events ≡ ok r)
Run-is_replayed_example = Run-is_replayed 14 1 drained drained-Run (omega arith) (omega arith)

-- A codec that knows the events of `drained`.
abbrev codec : Codec
codec = record {
  to_string = λ e. ok (if str_eq e.actor "world" then "w" else if e.seq == 1 then "r" else "c");
  from_str = λ line. ok (
      event_at drained.shared.events
        (if str_eq line "w" then 0 else if str_eq line "r" then 1 else 2));
}

codec_fits : AllRoundTrip codec drained.shared.events
unfolding spawn send_external step_main step_main_at deliver next_msg_id inc_in_flight record_event
    step_task step_at finish_send advance receive dispatch_message begin_send do_compute
    sub_in_flight notify_one emit_event recv_event compute_event is_blank
codec_fits = (
  ("w", refl, (omega arith, tt), refl, refl),
  (("r", refl, (omega arith, tt), refl, refl), (("c", refl, (omega arith, tt), refl, refl), tt)),
)

abbrev bursts : List (CausalEvent × List CausalEvent)
bursts =
    let log = drained.shared.events in
    (event_at log 0, event_at log 1 ∷ []) ∷ (event_at log 2, []) ∷ []

bursts_fit : all_events bursts ≡ drained.shared.events
unfolding spawn send_external step_main step_main_at deliver next_msg_id inc_in_flight record_event
    step_task step_at finish_send advance receive dispatch_message begin_send do_compute
    sub_in_flight notify_one
bursts_fit = refl

abbrev to_writer : CausalEvent → String → Option String
to_writer e w = forget (codec.to_string e >>= λ line. append_to line w)

written_log_is_replayed_example :
    (buf : String) × (log_writer to_writer append_to (λ w. ok w) bursts ""
      ≡ ok (buf, length drained.shared.events))
    × (read_events codec buf ≡ ok drained.shared.events)
    × (r : Replayed) × (replay_log drained.shared.events ≡ ok r)
written_log_is_replayed_example =
    written_log_is_replayed codec to_writer (λ w. ok w) 14 1 drained bursts (λ e w. refl)
      (λ w. refl) drained-Run (omega arith) (omega arith) codec_fits bursts_fit

one_origin : 0 < worlds sent_one.shared.events
unfolding worlds spawn send_external step_main step_main_at deliver next_msg_id inc_in_flight
    record_event emit_event
one_origin = omega arith

second_origin_rejected_example :
    (e : ReplayError) × (replay_log
        ((step_main (send_external echo_addr 6 sent_one)).shared.events ++ [])
      ≡ err e)
second_origin_rejected_example =
    second_origin_rejected 5 1 sent_one echo_addr 6 [] sent_one-Run (omega arith) (omega arith)
      one_origin
