-- ===== src/Poset/Messages.antt =====
-- Message order in `build` of crates/lichtung-replay/src/poset.rs: the map of the emits, and the edge
-- that each receipt adds.
use lichtung.Prelude.{
  ℕ, zero, suc, String, List, [], ◌∷◌, ◌++◌, none, some, ◌<◌, ◌≡◌, refl, ◌⊎◌, inl, inr, ◌↔◌, arith,
  In, length, Bool-cases, Option-cases,
}
use lichtung.Prelude.Result.{ok}
use lichtung.Map.{Map, lookup}
use lichtung.Log.{emit, recv, CausalEvent, op_eq}
use lichtung.Log.Equality.{op_eq_iff}
use lichtung.Poset.{Edge, collect_emits, message_order, msg_or_empty, event_at}
use lichtung.Poset.Emits.{
  At, IsEmitOf, collect_emits-ok, At-iff, collect_emits_succeeds, IsRecvOf, message_order-ok,
}

-- Every receipt of the list finds its emit.
abbrev AllMatched : Map ℕ → List CausalEvent → Type 0
AllMatched emit_of [] = Unit
AllMatched emit_of (e ∷ es) =
    (e.op ≡ recv → (a : ℕ) × (lookup (msg_or_empty e) emit_of ≡ some a)) × AllMatched emit_of es

message_order-AllMatched :
    (es : List CausalEvent) (i : ℕ) (emit_of : Map ℕ) (edges edges' : List Edge)
    → message_order es i emit_of edges ≡ ok edges'
    → AllMatched emit_of es
unfolding message_order
message_order-AllMatched [] i emit_of edges edges' h = tt
message_order-AllMatched (e ∷ es) i emit_of edges edges' h =
    elim (Option-cases (lookup (msg_or_empty e) emit_of)) [
      | inl missing ↦ (
        λ is. absurd (ground (arith, op_eq_iff e.op recv)),
        message_order-AllMatched es (suc i) emit_of edges edges'
            (ground (arith, op_eq_iff e.op recv)),
      )
      | inr (a, found) ↦ (
        λ is. (a, found),
        elim (Bool-cases (op_eq e.op recv)) [
          | inl is ↦
              message_order-AllMatched es (suc i) emit_of (edges ++ (a, i) ∷ []) edges'
                (rw (is, found) at h)
          | inr other ↦ message_order-AllMatched es (suc i) emit_of edges edges' (rw other at h)
        ],
      )
    ]

AllMatched-message_order :
    (es : List CausalEvent) (i : ℕ) (emit_of : Map ℕ) (edges : List Edge)
    → AllMatched emit_of es
    → (edges' : List Edge) × (message_order es i emit_of edges ≡ ok edges')
unfolding message_order
AllMatched-message_order [] i emit_of edges h = (edges, refl)
AllMatched-message_order (e ∷ es) i emit_of edges h = elim (Bool-cases (op_eq e.op recv)) [
  | inr other ↦ rw other (AllMatched-message_order es (suc i) emit_of edges h.1)
  | inl is ↦
      let (a, found) = h.0 ((op_eq_iff e.op recv).0 is) in
      rw (is, found) (AllMatched-message_order es (suc i) emit_of (edges ++ (a, i) ∷ []) h.1)
]

AllMatched-at :
    (emit_of : Map ℕ) (es : List CausalEvent) (b : ℕ)
    → AllMatched emit_of es
    → b < length es
    → (event_at es b).op ≡ recv
    → (a : ℕ) × (lookup (msg_or_empty (event_at es b)) emit_of ≡ some a)
AllMatched-at emit_of [] b h lt is = absurd (omega arith)
AllMatched-at emit_of (e ∷ es) zero h lt is = h.0 is
AllMatched-at emit_of (e ∷ es) (suc b) h lt is = AllMatched-at emit_of es b h.1 (omega arith) is

at-AllMatched :
    (emit_of : Map ℕ) (es : List CausalEvent)
    → ((b : ℕ)
        → b < length es
        → (event_at es b).op ≡ recv
        → (a : ℕ) × (lookup (msg_or_empty (event_at es b)) emit_of ≡ some a))
    → AllMatched emit_of es
at-AllMatched emit_of [] h = tt
at-AllMatched emit_of (e ∷ es) h =
    (h zero (omega arith), at-AllMatched emit_of es (λ b lt. h (suc b) (omega arith)))

module _ (events : List CausalEvent) where
  -- An emit and a receipt of one message; a receipt with no `msg_id` receives the message "".
  abbrev pub MessageEdge : ℕ → ℕ → Type 0
  MessageEdge a b =
      (a < length events)
      × (b < length events)
      × ((event_at events a).op ≡ emit)
      × ((event_at events b).op ≡ recv)
      × ((event_at events a).msg_id ≡ some (msg_or_empty (event_at events b)))

  -- No message is emitted twice.
  abbrev pub EmittedOnce : Type 0
  EmittedOnce =
      (i j : ℕ) (m : String)
      → i < length events
      → j < length events
      → (event_at events i).op ≡ emit
      → (event_at events j).op ≡ emit
      → (event_at events i).msg_id ≡ some m
      → (event_at events j).msg_id ≡ some m
      → i ≡ j

  -- Every receipt has its emit.
  abbrev pub Matched : Type 0
  Matched = (b : ℕ) → b < length events → (event_at events b).op ≡ recv → (a : ℕ) × MessageEdge a b

  emits_iff :
      (m : Map ℕ)
      → collect_emits events 0 [] ≡ ok m
      → (k : String) (v : ℕ)
      → (lookup k m ≡ some v) ↔ (
          (v < length events)
          × ((event_at events v).op ≡ emit)
          × ((event_at events v).msg_id ≡ some k))
  unfolding lookup
  emits_iff m h k v = (
    λ l. go ((collect_emits-ok events 0 [] m k v h).0 l),
    λ e.
        (collect_emits-ok events 0 [] m k v h).1
          (inr ((At-iff (IsEmitOf k v) events).1 (v, e.0, (refl, e.1, e.2)))),
  )
    where
      go :
          (none ≡ some v) ⊎ At (IsEmitOf k v) events 0
          → (v < length events)
            × ((event_at events v).op ≡ emit)
            × ((event_at events v).msg_id ≡ some k)
      go (inl e) = cc
      go (inr a) =
          let (j, lt, (at, is, id)) = (At-iff (IsEmitOf k v) events).0 a in rw at (lt, is, id)

  pub collect_emits-EmittedOnce : (m : Map ℕ) → collect_emits events 0 [] ≡ ok m → EmittedOnce
  collect_emits-EmittedOnce m h i j k p q is_i is_j id_i id_j =
      cc ((emits_iff m h k i).1 (p, is_i, id_i), (emits_iff m h k j).1 (q, is_j, id_j))

  pub EmittedOnce-collect_emits : EmittedOnce → (m : Map ℕ) × (collect_emits events 0 [] ≡ ok m)
  unfolding lookup
  EmittedOnce-collect_emits once =
      collect_emits_succeeds events 0 [] (λ k v h. refl)
        (λ k v w h l.
          let (i, p, (at_i, is_i, id_i)) = (At-iff (IsEmitOf k v) events).0 h in
          let (j, q, (at_j, is_j, id_j)) = (At-iff (IsEmitOf k w) events).0 l in
          omega (arith, once i j k p q is_i is_j id_i id_j))

  module _ (m : Map ℕ) (h : collect_emits events 0 [] ≡ ok m) where
    pub message_edges :
        (edges edges' : List Edge) (a b : ℕ)
        → message_order events 0 m edges ≡ ok edges'
        → In (a, b) edges' ↔ (In (a, b) edges ⊎ MessageEdge a b)
    message_edges edges edges' a b e = (
      λ l. go ((message_order-ok events 0 m edges edges' a b e).0 l),
      λ l. (message_order-ok events 0 m edges edges' a b e).1 (back l),
    )
      where
        go : In (a, b) edges ⊎ At (IsRecvOf m a b) events 0 → In (a, b) edges ⊎ MessageEdge a b
        go (inl l) = inl l
        go (inr l) =
            let (j, lt, (at, is, found)) = (At-iff (IsRecvOf m a b) events).0 l in
            let (p, emits, id) = (emits_iff m h _ a).0 found in inr (rw at (p, lt, emits, is, id))

        back : In (a, b) edges ⊎ MessageEdge a b → In (a, b) edges ⊎ At (IsRecvOf m a b) events 0
        back (inl l) = inl l
        back (inr (p, lt, emits, is, id)) = inr (
            (At-iff (IsRecvOf m a b) events).1
              (b, lt, (refl, is, (emits_iff m h _ a).1 (p, emits, id))))

    pub message_order-Matched :
        (edges edges' : List Edge) → message_order events 0 m edges ≡ ok edges' → Matched
    message_order-Matched edges edges' e b lt is =
        let (a, found) =
          AllMatched-at m events b (message_order-AllMatched events 0 m edges edges' e) lt is in
        let (p, emits, id) = (emits_iff m h _ a).0 found in (a, (p, lt, emits, is, id))

    pub Matched-message_order :
        (edges : List Edge)
        → Matched
        → (edges' : List Edge) × (message_order events 0 m edges ≡ ok edges')
    Matched-message_order edges matched = AllMatched-message_order events 0 m edges (
        at-AllMatched m events
          λ b lt is. let (a, e) = matched b lt is in (a, (emits_iff m h _ a).1 (e.0, e.2, e.4)))
