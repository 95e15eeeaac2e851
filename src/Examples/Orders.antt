-- ===== src/Examples/Orders.antt =====
-- The replay of the log of four events and of the same events in another order.
use lichtung.Prelude.{List, [], ◌∷◌, ◌≡◌, refl, ◌↔◌, In, inl, inr}
use lichtung.Prelude.Result.{ok}
use lichtung.Map.{lookup, insert}
use lichtung.Log.{CausalEvent, op_eq}
use lichtung.Poset.{
  Poset, build, validate, hb_strict, group_by_actor, program_order, collect_emits, message_order,
  validate_edges, hb_keys, windows_of, check_windows, sort_by_seq, insert_by_seq,
}
use lichtung.Extension.{
  linearize, kahn, start, seed, relax, drain, in_degrees, successors, heap_push, compare_key,
}
use lichtung.Engine.{replay_log, assemble}
use lichtung.Engine.Canonical.Timeline.{IsCanonical, replayed-IsCanonical, timeline_is_independent}
use lichtung.Examples.Logs.{sent, received, computed, alone, log, log_poset}
use lichtung.Examples.Replays.{log_replayed}

abbrev shuffled : List CausalEvent
shuffled = received ∷ alone ∷ sent ∷ computed ∷ []

abbrev shuffled_poset : Poset
shuffled_poset = record { events = shuffled; edges = (0, 3) ∷ (2, 0) ∷ [] }

shuffled_built : build shuffled ≡ ok shuffled_poset
unfolding build group_by_actor program_order windows_of check_windows sort_by_seq insert_by_seq
    collect_emits message_order lookup insert op_eq
shuffled_built = refl

shuffled_valid : validate shuffled_poset ≡ ok tt
unfolding validate validate_edges hb_strict hb_keys lookup
shuffled_valid = refl

shuffled_order : linearize shuffled_poset ≡ ok (1 ∷ 2 ∷ 0 ∷ 3 ∷ [])
unfolding linearize kahn start seed relax drain in_degrees successors heap_push compare_key
shuffled_order = refl

shuffled_replayed : replay_log shuffled ≡ ok (assemble shuffled_poset (1 ∷ 2 ∷ 0 ∷ 3 ∷ []))
unfolding replay_log
shuffled_replayed = rw (shuffled_built, shuffled_valid, shuffled_order)

reversed : (x : CausalEvent) → In x log ↔ In x shuffled
reversed x = (
  λ m. elim m [
    | inl e ↦ inr (inr (inr (inl e)))
    | inr (inl e) ↦ inr (inr (inl e))
    | inr (inr (inl e)) ↦ inr (inl e)
    | inr (inr (inr (inl e))) ↦ inl e
    | inr (inr (inr (inr m))) ↦ elim m [ ]
  ],
  λ m. elim m [
    | inl e ↦ inr (inr (inr (inl e)))
    | inr (inl e) ↦ inr (inr (inl e))
    | inr (inr (inl e)) ↦ inr (inl e)
    | inr (inr (inr (inl e))) ↦ inl e
    | inr (inr (inr (inr m))) ↦ elim m [ ]
  ],
)

replayed-IsCanonical_example : IsCanonical shuffled (alone ∷ sent ∷ received ∷ computed ∷ [])
replayed-IsCanonical_example = replayed-IsCanonical shuffled _ shuffled_replayed

timeline_is_independent_example :
    alone ∷ sent ∷ received ∷ computed ∷ [] ≡ alone ∷ sent ∷ received ∷ computed ∷ []
timeline_is_independent_example =
    timeline_is_independent log shuffled (assemble log_poset (2 ∷ 1 ∷ 3 ∷ 0 ∷ []))
      (assemble shuffled_poset (1 ∷ 2 ∷ 0 ∷ 3 ∷ [])) log_replayed shuffled_replayed reversed
