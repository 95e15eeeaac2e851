-- ===== src/Reexec/Backend.antt =====
-- The backend of crates/lichtung-replay/src/reexec.rs, and what `replay` does to its state before and after
-- it drives the actors.
use Prim.Native.String.{◌++◌ as append_str}
use lichtung.Prelude.{ℕ, suc, String, List, [], ◌∷◌, Option, none, some, ◌+◌, ◌-◌, ◌%◌, get_elem?}
use lichtung.Prelude.Words.{u64_mod, u64_max}
use lichtung.Prelude.Decimal.{show}
use lichtung.Map.{lookup, insert, get_or_zero}
use lichtung.Log.{CausalEvent}
use lichtung.Core.{Dispatch}
use lichtung.Reexec.{
  parse_mid, vclock_from, index_log, or_none, ReplayState, verify, diverge, more_sends,
  malformed_origin, no_origin, not_produced, pending_insert,
}

abbrev pub parse_mid? : Option String → Option ℕ
parse_mid? none = none
parse_mid? (some s) = parse_mid s

module _ {P : Type 0} where
  -- The number of the `j`-th send of `current` in the recording.
  unfoldable pub recorded_mid : String → ℕ → ReplayState P → Option ℕ
  recorded_mid current j state =
      elim (get_elem? (or_none (lookup current state.recorded.emits_by_actor)) (j - 1)) [
        | none ↦ none
        | some e ↦ parse_mid? e.msg_id
      ]

  unfoldable pub next_msg_id : String → ReplayState P → ReplayState P × ℕ
  unfolding recorded_mid
  next_msg_id current state =
      let j = (get_or_zero current state.send_count + 1) % u64_mod in
      let state' = record state { send_count = insert current j state.send_count } in
      elim (recorded_mid current j state) [
        | some m ↦ (state', m)
        | none ↦ (
          diverge (append_str current (append_str ":send" (show j))) more_sends state',
          u64_max - j,
        )
      ]

  -- `impl Dispatch for ReplayDispatch`, with its `current`.
  unfoldable pub replay_dispatch : String → Dispatch (ReplayState P) P
  unfolding next_msg_id
  replay_dispatch current = record {
    next_msg_id = next_msg_id current;
    record_event = verify;
    deliver =
        λ sink env state. record state { pending = pending_insert env.msg_id env state.pending };
  }

  -- One recorded emit of `world`, the one with index `k`.
  unfoldable pub seed_origin : List (String × P) → ℕ → CausalEvent → ReplayState P → ReplayState P
  seed_origin origins k we state = elim (parse_mid? we.msg_id) [
    | none ↦ diverge we.id malformed_origin state
    | some m ↦ elim (get_elem? origins k) [
      | none ↦ diverge we.id no_origin state
      | some (to_id, msg) ↦ record state {
        produced = insert we.id tt state.produced;
        pending =
            pending_insert m
              (record {
                msg = msg;
                vclock = vclock_from we.vclock;
                lamport = record { value = we.lamport };
                msg_id = m;
                src = "world";
                dst = to_id;
              })
              state.pending;
      }
    ]
  ]

  unfoldable pub seed_origins :
      List (String × P) → ℕ → List CausalEvent → ReplayState P → ReplayState P
  unfolding seed_origin
  seed_origins origins k [] state = state
  seed_origins origins k (we ∷ world_emits) state =
      seed_origins origins (suc k) world_emits (seed_origin origins k we state)

  unfoldable pub check_complete : List CausalEvent → ReplayState P → ReplayState P
  check_complete [] state = state
  check_complete (e ∷ log) state = check_complete log (elim (lookup e.id state.produced) [
    | some _ ↦ state
    | none ↦ diverge e.id not_produced state
  ])

  abbrev pub fresh_state : List CausalEvent → ReplayState P
  fresh_state log = record {
    recorded = index_log log;
    pending = [];
    send_count = [];
    divergences = [];
    produced = [];
    made = [];
  }
