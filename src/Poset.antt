-- ===== src/Poset.antt =====
-- crates/lichtung-replay/src/poset.rs and error.rs: the happens-before poset of a recorded log.
pub mod HbStrict
mod Sort
mod Groups
mod Windows
mod Entries
pub mod Program
mod Emits
pub mod Messages
pub mod Build
pub mod Rank
use lichtung.Prelude.{
  ℕ, zero, suc, String, List, [], ◌∷◌, ◌++◌, Option, none, some, Bool, true, false, ◌+◌, ltb, leb,
  ◌==◌, get_or, if◌then◌else◌,
}
use lichtung.Prelude.Result.{Result, ok, err, ◌>>=◌}
use lichtung.Map.{Map, lookup, get_or_zero, insert, keys}
use lichtung.Log.{Op, emit, recv, CausalEvent, op_eq}

pub data ReplayError : Type 0 where
  missing_emit : String → String → ReplayError
  duplicate_emit : String → ReplayError
  duplicate_seq : String → ℕ → ReplayError
  inconsistent : String → String → ReplayError
  cycle : ℕ → ReplayError
  io json : ReplayError

-- The loop of `hb_strict`, with its early return.
unfoldable pub hb_keys : Map ℕ → Map ℕ → List String → Bool → Bool
hb_keys a b [] saw_less = saw_less
hb_keys a b (k ∷ ks) saw_less =
    let x = get_or_zero k a in
    let y = get_or_zero k b in
    let rest = hb_keys a b ks (if ltb x y then true else saw_less) in
    if ltb y x then false else rest

unfoldable pub hb_strict : Map ℕ → Map ℕ → Bool
unfolding hb_keys
hb_strict a b = hb_keys a b (keys a ++ keys b) false

abbrev pub Edge : Type 0
Edge = ℕ × ℕ

pub record Poset : Type 0 where
  pub events : List CausalEvent
  pub edges : List Edge

-- `events[i]`; every index that the code reads is in range, so the default is never seen.
abbrev pub no_event : CausalEvent
no_event = record {
  id = "";
  actor = "";
  seq = 0;
  op = Op.drop;
  vclock = [];
  lamport = 0;
  msg_id = none;
  src = none;
  dst = none;
  value = none;
  payload_hash = none;
}

abbrev pub event_at : List CausalEvent → ℕ → CausalEvent
event_at events i = get_or events i no_event

abbrev pub or_empty : Option (List ℕ) → List ℕ
or_empty none = []
or_empty (some l) = l

-- `by_actor`: the indices of each actor's events, in log order. `i` is the index of the first event.
unfoldable pub group_by_actor : List CausalEvent → ℕ → Map (List ℕ) → Map (List ℕ)
group_by_actor [] i m = m
group_by_actor (e ∷ es) i m =
    group_by_actor es (suc i) (insert e.actor (or_empty (lookup e.actor m) ++ i ∷ []) m)

module _ (events : List CausalEvent) where
  abbrev pub seq_at : ℕ → ℕ
  seq_at i = (event_at events i).seq

  -- `sort_by_key(|&i| events[i].seq)`, a stable sort.
  unfoldable pub insert_by_seq : ℕ → List ℕ → List ℕ
  insert_by_seq i [] = i ∷ []
  insert_by_seq i (j ∷ s) = if leb (seq_at i) (seq_at j) then i ∷ j ∷ s else j ∷ insert_by_seq i s

  unfoldable pub sort_by_seq : List ℕ → List ℕ
  sort_by_seq [] = []
  sort_by_seq (i ∷ idxs) = insert_by_seq i (sort_by_seq idxs)

  -- The loop over `s.windows(2)`.
  unfoldable pub check_windows : String → ℕ → List ℕ → List Edge → Result ReplayError (List Edge)
  check_windows actor a [] edges = ok edges
  check_windows actor a (b ∷ s) edges =
      let rest = check_windows actor b s (edges ++ (a, b) ∷ []) in
      if seq_at a == seq_at b then err (duplicate_seq actor (seq_at a)) else rest

  unfoldable pub windows_of : String → List ℕ → List Edge → Result ReplayError (List Edge)
  windows_of actor [] edges = ok edges
  windows_of actor (a ∷ s) edges = check_windows actor a s edges

  -- The loop over `by_actor`.
  unfoldable pub program_order : Map (List ℕ) → List Edge → Result ReplayError (List Edge)
  program_order [] edges = ok edges
  program_order ((actor, idxs) ∷ by_actor) edges = do
    edges' ← windows_of actor (sort_by_seq idxs) edges
    program_order by_actor edges'

-- `emit_of`: the emit of each message.
unfoldable pub collect_emits : List CausalEvent → ℕ → Map ℕ → Result ReplayError (Map ℕ)
collect_emits [] i emit_of = ok emit_of
collect_emits (e ∷ es) i emit_of =
    let skip = collect_emits es (suc i) emit_of in
    if op_eq e.op emit
    then elim e.msg_id [
      | none ↦ skip
      | some m ↦ elim (lookup m emit_of) [
        | some _ ↦ err (duplicate_emit m)
        | none ↦ collect_emits es (suc i) (insert m i emit_of)
      ]
    ]
    else skip

-- `e.msg_id.as_deref().unwrap_or("")`
abbrev pub msg_or_empty : CausalEvent → String
msg_or_empty e = elim e.msg_id [ none ↦ "" | some m ↦ m ]

unfoldable pub message_order :
    List CausalEvent → ℕ → Map ℕ → List Edge → Result ReplayError (List Edge)
message_order [] i emit_of edges = ok edges
message_order (e ∷ es) i emit_of edges =
    let skip = message_order es (suc i) emit_of edges in
    if op_eq e.op recv
    then elim (lookup (msg_or_empty e) emit_of) [
      | none ↦ err (missing_emit e.id (msg_or_empty e))
      | some emit_idx ↦ message_order es (suc i) emit_of (edges ++ (emit_idx, i) ∷ [])
    ]
    else skip

unfoldable pub build : List CausalEvent → Result ReplayError Poset
build events = do
  program ← program_order events (group_by_actor events 0 []) []
  emit_of ← collect_emits events 0 []
  edges ← message_order events 0 emit_of program
  ok (record { events = events; edges = edges })

-- The loop of `validate`.
unfoldable pub validate_edges : List CausalEvent → List Edge → Result ReplayError (Unit {0})
validate_edges events [] = ok tt
validate_edges events ((a, b) ∷ edges) =
    let rest = validate_edges events edges in
    if hb_strict (event_at events a).vclock (event_at events b).vclock
    then rest
    else err (inconsistent (event_at events a).id (event_at events b).id)

unfoldable pub validate : Poset → Result ReplayError (Unit {0})
validate p = validate_edges p.events p.edges
