-- ===== src/Examples/Reruns.antt =====
-- The re-execution of a log of three events: the actor `a` computes once for each message.
use lichtung.Prelude.{
  ℕ, List, [], ◌∷◌, some, true, false, ◌≡◌, refl, ◌⊎◌, inl, inr, In, arith, ◌≢◌, str_eq, eq_iff,
  sym, ap, ◌∙◌,
}
use lichtung.Prelude.Result.{ok}
use lichtung.Prelude.Decimal.{show, parse_u64}
use lichtung.Map.{lookup, insert, remove}
use lichtung.Clock.{increment, merge, tick, update, to_string_map, set, set_entry}
use lichtung.Log.{CausalEvent, emit, op_eq, event_eq, option_eq, map_eq, float_eq}
use lichtung.Core.{Actor, compute_step, run_actions, perform, send, compute}
use lichtung.Core.Event.{recv_event, compute_event, emit_event, id_of, mid}
use lichtung.Poset.{
  Poset, build, validate, hb_strict, group_by_actor, program_order, collect_emits, message_order,
  validate_edges, hb_keys, windows_of, check_windows, sort_by_seq, insert_by_seq,
}
use lichtung.Extension.{
  linearize, kahn, start, seed, relax, drain, in_degrees, successors, heap_push, compare_key,
}
use lichtung.Engine.{replay_log}
use lichtung.Reexec.{
  parse_mid, vclock_from, index_log, index_events, index_event, sort_events, sort_values, verify,
  pending_get, pending_remove, pending_insert,
}
use lichtung.Reexec.Numbers.{parse_mid-mid}
use lichtung.Reexec.Index.{DistinctIds}
use lichtung.Reexec.Backend.{
  parse_mid?, seed_origins, seed_origin, check_complete, replay_dispatch, next_msg_id, recorded_mid,
}
use lichtung.Reexec.Run.{
  ReplaySystem, ReplayOutcome, new_system, spawn, origin, replay, is_faithful, execute, start_all,
  replay_events, replay_receipt, stamp_receipt, drive, drive_actor, answer,
}
use lichtung.Reexec.Run.Faithful.{faithful_reproduces, faithful_adds_nothing}
use lichtung.Examples.Logs.{sent, received, computed}

abbrev once : Actor ℕ ℕ
once = record {
  started = λ a. (a, []);
  accepts = λ a m. true;
  handle = λ a m. (m, compute_step ∷ []);
}

abbrev recorded_log : List CausalEvent
recorded_log = sent ∷ received ∷ computed ∷ []

abbrev recorded_poset : Poset
recorded_poset = record { events = recorded_log; edges = (1, 2) ∷ (0, 1) ∷ [] }

abbrev rebuilt : ReplaySystem ℕ ℕ
rebuilt = origin "a" 5 (spawn "a" once 0 new_system)

rerun : (o : ReplayOutcome ℕ) × (replay rebuilt recorded_log ≡ ok o) × (is_faithful o ≡ true)
unfolding replay execute start_all replay_events replay_receipt stamp_receipt drive drive_actor
    answer seed_origins seed_origin check_complete replay_dispatch next_msg_id recorded_mid verify
    pending_get pending_remove pending_insert parse_mid vclock_from index_log index_events
    index_event sort_events sort_values spawn origin lookup insert remove increment merge tick
    update to_string_map set set_entry op_eq event_eq option_eq map_eq float_eq run_actions perform
    send compute recv_event compute_event emit_event id_of mid show parse_u64 replay_log build
    group_by_actor program_order windows_of check_windows sort_by_seq insert_by_seq collect_emits
    message_order validate validate_edges hb_strict hb_keys linearize kahn start seed relax drain
    in_degrees successors heap_push compare_key
rerun = (_, refl, refl)

-- The three ids.
apart : (x y : CausalEvent) → str_eq x.id y.id ≡ false → x.id ≢ y.id
apart x y h e = cc ((eq_iff x.id y.id).1 e, h)

recorded_log-DistinctIds : DistinctIds recorded_log
recorded_log-DistinctIds e f m n i = distinct m n
  where
    same : (x : CausalEvent) → e ≡ x → f ≡ x → e ≡ f
    same x p q = p ∙ sym q

    other : (x y : CausalEvent) → str_eq x.id y.id ≡ false → e ≡ x → f ≡ y → e ≡ f
    other x y h p q = absurd (
        apart x y h (ap (λ (g : CausalEvent). g.id) (sym p) ∙ i ∙ ap (λ (g : CausalEvent). g.id) q))

    distinct : In e recorded_log → In f recorded_log → e ≡ f
    distinct (inl p) (inl q) = same sent p q
    distinct (inl p) (inr (inl q)) = other sent received refl p q
    distinct (inl p) (inr (inr (inl q))) = other sent computed refl p q
    distinct (inr (inl p)) (inl q) = other received sent refl p q
    distinct (inr (inl p)) (inr (inl q)) = same received p q
    distinct (inr (inl p)) (inr (inr (inl q))) = other received computed refl p q
    distinct (inr (inr (inl p))) (inl q) = other computed sent refl p q
    distinct (inr (inr (inl p))) (inr (inl q)) = other computed received refl p q
    distinct (inr (inr (inl p))) (inr (inr (inl q))) = same computed p q
    distinct (inl p) (inr (inr (inr q))) = absurd q
    distinct (inr (inl p)) (inr (inr (inr q))) = absurd q
    distinct (inr (inr (inl p))) (inr (inr (inr q))) = absurd q
    distinct (inr (inr (inr p))) q = absurd p

faithful_reproduces_example :
    ((made : CausalEvent) × In made rerun.0.last.made × (event_eq computed made ≡ true))
    ⊎ ((computed.actor ≡ "world") × (op_eq computed.op emit ≡ true))
faithful_reproduces_example =
    faithful_reproduces rebuilt recorded_log rerun.0 computed rerun.1 rerun.2
      recorded_log-DistinctIds (inr (inr (inl refl)))

made_computed : In computed rerun.0.last.made
unfolding replay execute start_all replay_events replay_receipt stamp_receipt drive drive_actor
    answer seed_origins seed_origin check_complete replay_dispatch next_msg_id recorded_mid verify
    pending_get pending_remove pending_insert parse_mid vclock_from index_log index_events
    index_event sort_events sort_values spawn origin lookup insert remove increment merge tick
    update to_string_map set set_entry op_eq event_eq option_eq map_eq float_eq run_actions perform
    send compute recv_event compute_event emit_event id_of mid show parse_u64 replay_log build
    group_by_actor program_order windows_of check_windows sort_by_seq insert_by_seq collect_emits
    message_order validate validate_edges hb_strict hb_keys linearize kahn start seed relax drain
    in_degrees successors heap_push compare_key rerun
made_computed = inr (inl refl)

faithful_adds_nothing_example : (e : CausalEvent) × In e recorded_log × (event_eq e computed ≡ true)
faithful_adds_nothing_example =
    faithful_adds_nothing rebuilt recorded_log rerun.0 computed rerun.1 rerun.2 made_computed

abbrev number : ℕ
number = 42

parse_mid-mid_example : parse_mid? (mid number) ≡ some number
parse_mid-mid_example = parse_mid-mid number (omega arith)
