-- ===== src/Poset/Emits.antt =====
-- The loops over the emits and over the receipts in `build` of crates/lichtung-replay/src/poset.rs.
use lichtung.Prelude.{
  ℕ, zero, suc, String, List, [], ◌∷◌, ◌++◌, none, some, ◌<◌, ◌≤◌, ◌+◌, ◌≡◌, refl, ◌⊎◌, inl, inr,
  ◌↔◌, arith, In, In-append, length, str_eq, eq_iff, Bool-cases, Option-cases,
}
use lichtung.Prelude.Result.{ok}
use lichtung.Map.{Map, lookup, insert, lookup-insert}
use lichtung.Log.{emit, recv, CausalEvent, op_eq}
use lichtung.Log.Equality.{op_eq_iff}
use lichtung.Poset.{Edge, collect_emits, message_order, msg_or_empty, event_at}

-- `P` holds of an event of the list with its index, counted from `i`.
abbrev pub At : (CausalEvent → ℕ → Type 0) → List CausalEvent → ℕ → Type 0
At P [] i = ⊥
At P (e ∷ es) i = P e i ⊎ At P es (suc i)

-- `v` is the index of an emit of message `k`.
abbrev pub IsEmitOf : String → ℕ → CausalEvent → ℕ → Type 0
IsEmitOf k v e i = (v ≡ i) × (e.op ≡ emit) × (e.msg_id ≡ some k)

pub collect_emits-ok :
    (es : List CausalEvent) (i : ℕ) (m m' : Map ℕ) (k : String) (v : ℕ)
    → collect_emits es i m ≡ ok m'
    → (lookup k m' ≡ some v) ↔ ((lookup k m ≡ some v) ⊎ At (IsEmitOf k v) es i)
unfolding collect_emits
collect_emits-ok [] i m m' k v h = ground arith
collect_emits-ok (e ∷ es) i m m' k v h = elim (Option-cases e.msg_id) [
  | inl absent ↦ ground (arith, collect_emits-ok es (suc i) m m' k v, op_eq_iff e.op emit)
  | inr (x, present) ↦ ground (
    arith,
    collect_emits-ok es (suc i) m m' k v,
    collect_emits-ok es (suc i) (insert x i m) m' k v,
    op_eq_iff e.op emit,
    lookup-insert x k i m,
    eq_iff x k,
  )
]

At-found :
    (P : CausalEvent → ℕ → Type 0) (es : List CausalEvent) (i : ℕ)
    → At P es i
    → (k : ℕ) × (k < length es) × P (event_at es k) (i + k)
At-found P [] i h = elim h [ ]
At-found P (e ∷ es) i (inl h) = (zero, omega arith, rw (plus-zero i) h)
  where
    plus-zero : (n : ℕ) → n + zero ≡ n
    plus-zero n = omega arith
At-found P (e ∷ es) i (inr h) =
    let (k, lt, p) = At-found P es (suc i) h in (suc k, omega arith, rw (shift i k) p)
  where
    shift : (n l : ℕ) → n + suc l ≡ suc n + l
    shift n l = omega arith

found-At :
    (P : CausalEvent → ℕ → Type 0) (es : List CausalEvent) (i k : ℕ)
    → k < length es
    → P (event_at es k) (i + k)
    → At P es i
found-At P [] i k lt p = absurd (omega arith)
found-At P (e ∷ es) i zero lt p = inl (rw (plus-zero i) at p)
  where
    plus-zero : (n : ℕ) → n + zero ≡ n
    plus-zero n = omega arith
found-At P (e ∷ es) i (suc k) lt p =
    inr (found-At P es (suc i) k (omega arith) (rw (shift i k) at p))
  where
    shift : (n l : ℕ) → n + suc l ≡ suc n + l
    shift n l = omega arith

-- At the whole log the index counts from 0.
pub At-iff :
    (P : CausalEvent → ℕ → Type 0) (es : List CausalEvent)
    → At P es 0 ↔ ((k : ℕ) × (k < length es) × P (event_at es k) k)
At-iff P es = (
  λ h. let (k, lt, p) = At-found P es 0 h in (k, lt, rw (zero-plus k) at p),
  λ (k, lt, p). found-At P es 0 k lt (rw (zero-plus k) p),
)
  where
    zero-plus : (n : ℕ) → 0 + n ≡ n
    zero-plus n = omega arith

pub IsEmitOf-le :
    (k : String) (v : ℕ) (es : List CausalEvent) (i : ℕ) → At (IsEmitOf k v) es i → i ≤ v
IsEmitOf-le k v [] i h = elim h [ ]
IsEmitOf-le k v (e ∷ es) i (inl h) = omega (arith, h.0)
IsEmitOf-le k v (e ∷ es) i (inr h) = omega (arith, IsEmitOf-le k v es (suc i) h)

-- The loop succeeds if no message is emitted twice.
pub collect_emits_succeeds :
    (es : List CausalEvent) (i : ℕ) (m : Map ℕ)
    → ((k : String) (v : ℕ) → At (IsEmitOf k v) es i → lookup k m ≡ none)
    → ((k : String) (v w : ℕ) → At (IsEmitOf k v) es i → At (IsEmitOf k w) es i → v ≡ w)
    → (m' : Map ℕ) × (collect_emits es i m ≡ ok m')
unfolding collect_emits
collect_emits_succeeds [] i m fresh once = (m, refl)
collect_emits_succeeds (e ∷ es) i m fresh once = elim (Bool-cases (op_eq e.op emit)) [
  | inr other ↦ rw other (
      collect_emits_succeeds es (suc i) m (λ k v h. fresh k v (inr h))
        (λ k v w h l. once k v w (inr h) (inr l)))
  | inl is ↦ elim (Option-cases e.msg_id) [
    | inl absent ↦
        rw (is, absent)
          (collect_emits_succeeds es (suc i) m (λ k v h. fresh k v (inr h))
            (λ k v w h l. once k v w (inr h) (inr l)))
    | inr (x, present) ↦
        let here : IsEmitOf x i e i = (refl, (op_eq_iff e.op emit).0 is, present) in
        rw (is, present)
          (rw (fresh x i (inl here)) (
            collect_emits_succeeds es (suc i) (insert x i m)
              (λ k v h. elim (Bool-cases (str_eq x k)) [
                | inl same ↦ absurd (
                    omega (
                      arith,
                      IsEmitOf-le k v es (suc i) h,
                      once k v i (inr h) (inl (rw (← (eq_iff x k).0 same) here)),
                    ))
                | inr differ ↦ rw lookup-insert (rw differ (fresh k v (inr h)))
              ])
              (λ k v w h l. once k v w (inr h) (inr l))))
  ]
]

-- The event with index `b` receives the message whose emit has index `a`.
abbrev pub IsRecvOf : Map ℕ → ℕ → ℕ → CausalEvent → ℕ → Type 0
IsRecvOf emit_of a b e i = (b ≡ i) × (e.op ≡ recv) × (lookup (msg_or_empty e) emit_of ≡ some a)

pub message_order-ok :
    (es : List CausalEvent) (i : ℕ) (emit_of : Map ℕ) (edges edges' : List Edge) (a b : ℕ)
    → message_order es i emit_of edges ≡ ok edges'
    → In (a, b) edges' ↔ (In (a, b) edges ⊎ At (IsRecvOf emit_of a b) es i)
unfolding message_order
message_order-ok [] i emit_of edges edges' a b h = ground arith
message_order-ok (e ∷ es) i emit_of edges edges' a b h =
    elim (Option-cases (lookup (msg_or_empty e) emit_of)) [
      | inl missing ↦
          ground (arith, message_order-ok es (suc i) emit_of edges edges' a b, op_eq_iff e.op recv)
      | inr (x, found) ↦ ground (
        arith,
        message_order-ok es (suc i) emit_of edges edges' a b,
        message_order-ok es (suc i) emit_of (edges ++ (x, i) ∷ []) edges' a b,
        In-append {A = Edge} (a, b) edges ((x, i) ∷ []),
        op_eq_iff e.op recv,
      )
    ]
