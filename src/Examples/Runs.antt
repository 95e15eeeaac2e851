-- ===== src/Examples/Runs.antt =====
-- Runs of the production runtime with one actor, `echo`, that computes once for each message.
use lichtung.Prelude.{
  ℕ, [], ◌∷◌, some, true, false, ◌⊎◌, ◌≡◌, ◌≢◌, ◌<◌, refl, arith, length, get_elem?,
}
use lichtung.Core.{Actor, compute_step, Addr}
use lichtung.Prod.{
  Task, next_msg_id, record_event, inc_in_flight, sub_in_flight, notify_one, deliver,
}
use lichtung.Prelude.Sums.{sum_by}
use lichtung.Prod.Weight.{held}
use lichtung.Prod.System.{
  System, new_system, step_main, step_main_at, step_task, step_at, finish_send, advance, receive,
  dispatch_message, begin_send, do_compute, panic, panic_at, spawn, send_external, task, panics,
  main, spawns, sends, runs, checking, sleeping, quiescent,
}
use lichtung.Prod.Quiescence.{
  Reachable, initial, next, now, then, in_flight_zero, WakesUp, sleeping_wakes,
  lost_never_quiescent,
}

abbrev pub echo : Actor ℕ ℕ
echo = record {
  started = λ a. (a, []);
  accepts = λ a m. true;
  handle = λ a m. (m, compute_step ∷ []);
}

abbrev pub echo_addr : Addr
echo_addr = record { id = "echo"; sink = 0 }

abbrev pub System' : Type 0
System' = System ℕ ℕ

-- The origin's message lies in the mailbox of `echo`.
abbrev pub sent_one : System'
sent_one =
    step_main (step_main (step_main (send_external echo_addr 5 (spawn "echo" echo 0 new_system))))

sent_one-Reachable : Reachable sent_one
unfolding sum_by spawn send_external step_main step_main_at deliver next_msg_id inc_in_flight
    record_event
sent_one-Reachable =
    next
      (next
        (next
          (next (next initial (omega arith) (spawns "echo" echo 0 refl)) (omega arith)
            (sends echo_addr 5 refl))
          (omega arith) main)
        (omega arith) main)
      (omega arith) main

abbrev pub by_echo : System' → System'
by_echo s = step_task s 0

-- The main thread sleeps, and `echo` has handled the message; it has brought the count to 0, and has
-- not notified yet.
abbrev pub watched : System'
watched = step_main (record sent_one { main = checking })

abbrev pub drained : System'
drained = by_echo (by_echo (by_echo (by_echo (by_echo (by_echo (by_echo watched))))))

drained-Reachable : Reachable drained
unfolding sum_by spawn send_external step_main step_main_at deliver next_msg_id inc_in_flight
    record_event step_task step_at finish_send advance receive dispatch_message begin_send
    do_compute sub_in_flight notify_one
drained-Reachable =
    let r₀ = next (next sent_one-Reachable (omega arith) (runs refl)) (omega arith) main in
    let r₁ = next (next r₀ (omega arith) (task 0)) (omega arith) (task 0) in
    let r₂ = next (next r₁ (omega arith) (task 0)) (omega arith) (task 0) in
    next (next (next r₂ (omega arith) (task 0)) (omega arith) (task 0)) (omega arith) (task 0)

drained_count : drained.shared.in_flight ≡ 0
unfolding sum_by spawn send_external step_main step_main_at deliver next_msg_id inc_in_flight
    record_event step_task step_at finish_send advance receive dispatch_message begin_send
    do_compute sub_in_flight notify_one
drained_count = refl

drained_sleeps : drained.main ≡ sleeping
unfolding sum_by spawn send_external step_main step_main_at deliver next_msg_id inc_in_flight
    record_event step_task step_at finish_send advance receive dispatch_message begin_send
    do_compute sub_in_flight notify_one
drained_sleeps = refl

drained_log : length drained.shared.events ≡ 3
unfolding sum_by spawn send_external step_main step_main_at deliver next_msg_id inc_in_flight
    record_event step_task step_at finish_send advance receive dispatch_message begin_send
    do_compute sub_in_flight notify_one
drained_log = refl

echo_after : (t : Task ℕ ℕ) × (get_elem? drained.tasks 0 ≡ some t)
unfolding sum_by spawn send_external step_main step_main_at deliver next_msg_id inc_in_flight
    record_event step_task step_at finish_send advance receive dispatch_message begin_send
    do_compute sub_in_flight notify_one
echo_after = (_, refl)

in_flight_zero_example :
    (echo_after.0.inbox ≡ []) × (held echo_after.0.phase ≡ 0) × (drained.lost ≡ 0)
in_flight_zero_example =
    in_flight_zero drained 0 echo_after.0 drained-Reachable drained_count echo_after.1

not_woken : drained.shared.permit ≡ false
unfolding sum_by spawn send_external step_main step_main_at deliver next_msg_id inc_in_flight
    record_event step_task step_at finish_send advance receive dispatch_message begin_send
    do_compute sub_in_flight notify_one
not_woken = refl

sleeping_wakes_example : WakesUp drained ⊎ ((i : ℕ) × WakesUp (step_task drained i))
sleeping_wakes_example = sleeping_wakes drained drained-Reachable drained_sleeps drained_count

-- `echo` panics in `started`, with the message in its mailbox.
abbrev pub crashed : System'
crashed = panic (by_echo sent_one) 0

crashed-Reachable : Reachable crashed
unfolding sum_by spawn send_external step_main step_main_at deliver next_msg_id inc_in_flight
    record_event step_task step_at finish_send advance
crashed-Reachable = next (next sent_one-Reachable (omega arith) (task 0)) (omega arith) (panics 0)

crashed_lost : 0 < crashed.lost
unfolding sum_by spawn send_external step_main step_main_at deliver next_msg_id inc_in_flight
    record_event step_task step_at finish_send advance panic panic_at
crashed_lost = omega arith

crashed_awake : crashed.main ≢ quiescent
unfolding sum_by spawn send_external step_main step_main_at deliver next_msg_id inc_in_flight
    record_event step_task step_at finish_send advance panic panic_at
crashed_awake e = cc

lost_never_quiescent_example : (step_main crashed).main ≢ quiescent
unfolding sum_by spawn send_external step_main step_main_at deliver next_msg_id inc_in_flight
    record_event step_task step_at finish_send advance panic panic_at
lost_never_quiescent_example =
    lost_never_quiescent crashed (step_main crashed) crashed-Reachable crashed_lost crashed_awake
      (then now (omega arith) main)
