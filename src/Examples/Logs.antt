-- ===== src/Examples/Logs.antt =====
-- A log of four events for the tests: `world` sends `m1` to `a`, which receives it and computes; `b`
-- computes by itself.
use lichtung.Prelude.{List, [], ◌∷◌, none, some, ◌≡◌, refl}
use lichtung.Prelude.Result.{ok}
use lichtung.Map.{lookup, insert}
use lichtung.Log.{CausalEvent, emit, recv, compute, op_eq}
use lichtung.Poset.{
  Poset, build, validate, hb_strict, group_by_actor, program_order, collect_emits, message_order,
  validate_edges, hb_keys, windows_of, check_windows, sort_by_seq, insert_by_seq,
}

abbrev pub sent : CausalEvent
sent = record {
  id = "world:1";
  actor = "world";
  seq = 1;
  op = emit;
  vclock = ("world", 1) ∷ [];
  lamport = 1;
  msg_id = some "m1";
  src = some "world";
  dst = some "a";
  value = none;
  payload_hash = none;
}

abbrev pub received : CausalEvent
received = record {
  id = "a:1";
  actor = "a";
  seq = 1;
  op = recv;
  vclock = ("a", 1) ∷ ("world", 1) ∷ [];
  lamport = 2;
  msg_id = some "m1";
  src = some "world";
  dst = some "a";
  value = none;
  payload_hash = none;
}

abbrev pub computed : CausalEvent
computed = record {
  id = "a:2";
  actor = "a";
  seq = 2;
  op = compute;
  vclock = ("a", 2) ∷ ("world", 1) ∷ [];
  lamport = 3;
  msg_id = none;
  src = none;
  dst = none;
  value = none;
  payload_hash = none;
}

abbrev pub alone : CausalEvent
alone = record {
  id = "b:1";
  actor = "b";
  seq = 1;
  op = compute;
  vclock = ("b", 1) ∷ [];
  lamport = 1;
  msg_id = none;
  src = none;
  dst = none;
  value = none;
  payload_hash = none;
}

abbrev pub log : List CausalEvent
log = computed ∷ sent ∷ alone ∷ received ∷ []

abbrev pub log_poset : Poset
log_poset = record { events = log; edges = (3, 0) ∷ (1, 3) ∷ [] }

pub log_built : build log ≡ ok log_poset
unfolding build group_by_actor program_order windows_of check_windows sort_by_seq insert_by_seq
    collect_emits message_order lookup insert op_eq
log_built = refl

pub log_valid : validate log_poset ≡ ok tt
unfolding validate validate_edges hb_strict hb_keys lookup
log_valid = refl
