-- ===== src/Engine/Append/Faithful.antt =====
-- A log that crates/lichtung-replay accepts stays one when a fitting event is appended.
use lichtung.Prelude.{
  ℕ, String, List, [], ◌∷◌, ◌++◌, Option, some, true, ◌<◌, ◌≡◌, ◌⊎◌, inl, inr, arith, ap, ap₂, sym,
  ◌∙◌, length, length-append, dec_lt,
}
use lichtung.Log.{CausalEvent, Op, emit, recv}
use lichtung.Poset.{event_at, hb_strict, msg_or_empty}
use lichtung.Poset.Program.{DistinctSeq, ProgramEdge}
use lichtung.Poset.Messages.{MessageEdge, EmittedOnce, Matched}
use lichtung.Engine.Replay.{IsFaithful}
use lichtung.Engine.Append.{
  Appendable, index_of, In-event_at, event_at-append, event_at-last, actor_of, seq_of,
}

abbrev op_of : CausalEvent → Op
op_of x = x.op

abbrev message_of : CausalEvent → Option String
message_of x = some (msg_or_empty x)

moved :
    {B : Type 0} (g : CausalEvent → B) {p q x y : CausalEvent}
    → p ≡ x
    → q ≡ y
    → g p ≡ g q
    → g x ≡ g y
moved g e f h = sym (ap g e) ∙ h ∙ ap g f

module _ (log : List CausalEvent) (e : CausalEvent) where
  abbrev longer : List CausalEvent
  longer = log ++ e ∷ []

  abbrev Old : ℕ → Type 0
  Old i = (i < length log) × (event_at longer i ≡ event_at log i)

  abbrev IsLast : ℕ → Type 0
  IsLast i = (i ≡ length log) × (event_at longer i ≡ e)

  split : (i : ℕ) → i < length longer → Old i ⊎ IsLast i
  split i h = elim (dec_lt i (length log)) [
    | yes lt ↦ inl (lt, event_at-append log (e ∷ []) i lt)
    | no ge ↦
        let top : i ≡ length log = omega (arith, length-append log (e ∷ [])) in
        inr (top, ap (event_at longer) top ∙ event_at-last log [] e)
  ]

  module _ (f : IsFaithful log) (a : Appendable log e) where
    longer-DistinctSeq : DistinctSeq longer
    longer-DistinctSeq i j hi hj same eq = elim (split i hi) [
      | inl (li, ei) ↦ elim (split j hj) [
        | inl (lj, ej) ↦
            f.well_formed.distinct_seq i j li lj (moved actor_of ei ej same) (moved seq_of ei ej eq)
        | inr (tj, ej) ↦ absurd (
            omega (
              arith,
              moved seq_of ei ej eq,
              a.later (event_at log i) (In-event_at log i li) (moved actor_of ei ej same),
            ))
      ]
      | inr (ti, ei) ↦ elim (split j hj) [
        | inl (lj, ej) ↦ absurd (
            omega (
              arith,
              moved seq_of ei ej eq,
              a.later (event_at log j) (In-event_at log j lj) (sym (moved actor_of ei ej same)),
            ))
        | inr (tj, ej) ↦ omega arith
      ]
    ]

    longer-EmittedOnce : EmittedOnce longer
    longer-EmittedOnce i j m hi hj oi oj mi mj = elim (split i hi) [
      | inl (li, ei) ↦ elim (split j hj) [
        | inl (lj, ej) ↦
            f.well_formed.emitted_once i j m li lj (rw ei at oi) (rw ej at oj) (rw ei at mi)
              (rw ej at mj)
        | inr (tj, ej) ↦ absurd (
            a.fresh (rw ej at oj) (event_at log i) (In-event_at log i li) (rw ei at oi) m
              (rw ei at mi) (rw ej at mj))
      ]
      | inr (ti, ei) ↦ elim (split j hj) [
        | inl (lj, ej) ↦ absurd (
            a.fresh (rw ei at oi) (event_at log j) (In-event_at log j lj) (rw ej at oj) m
              (rw ej at mj) (rw ei at mi))
        | inr (tj, ej) ↦ omega arith
      ]
    ]

    -- An edge, from what stands at its ends.
    edge_between :
        {i j : ℕ} {x y : CausalEvent}
        → i < length longer
        → j < length longer
        → event_at longer i ≡ x
        → event_at longer j ≡ y
        → x.op ≡ emit
        → y.op ≡ recv
        → x.msg_id ≡ some (msg_or_empty y)
        → MessageEdge longer i j
    edge_between hi hj ei ej ox oy m = (
      hi,
      hj,
      ap op_of ei ∙ ox,
      ap op_of ej ∙ oy,
      ap (λ (x : CausalEvent). x.msg_id) ei ∙ m ∙ ap message_of (sym ej),
    )

    longer_lt : {i : ℕ} → i < length log → i < length longer
    longer_lt h = omega (arith, length-append log (e ∷ []))

    longer-Matched : Matched longer
    longer-Matched b hb ob = elim (split b hb) [
      | inl (lb, eb) ↦
          let (i, (li, _, oi, _, mi)) = f.well_formed.matched b lb (sym (ap op_of eb) ∙ ob) in
          (
            i,
            edge_between (longer_lt li) hb (event_at-append log (e ∷ []) i li) eb oi
                (sym (ap op_of eb) ∙ ob) mi,
          )
      | inr (tb, eb) ↦
          let (x, m, ox, mx, _) = a.sent (sym (ap op_of eb) ∙ ob) in
          let (i, li, ei) = index_of log x m in
          (
            i,
            edge_between (longer_lt li) hb (event_at-append log (e ∷ []) i li ∙ ei) eb ox
                (sym (ap op_of eb) ∙ ob) mx,
          )
    ]

    Ordered : ℕ → ℕ → Type 0
    Ordered i j = hb_strict (event_at longer i).vclock (event_at longer j).vclock ≡ true

    Ordered-between :
        (i j : ℕ) {x y : CausalEvent}
        → event_at longer i ≡ x
        → event_at longer j ≡ y
        → hb_strict x.vclock y.vclock ≡ true
        → Ordered i j
    unfolding Ordered
    Ordered-between i j ei ej h = ap₂ (λ (x y : CausalEvent). hb_strict x.vclock y.vclock) ei ej ∙ h

    program-Ordered : (i j : ℕ) → ProgramEdge longer i j → Ordered i j
    program-Ordered i j (hi, hj, same, lt, between) = elim (split i hi) [
      | inl (li, ei) ↦ elim (split j hj) [
        | inl (lj, ej) ↦ Ordered-between i j ei ej (
            f.ordered i j (
              inl (
                li,
                lj,
                moved actor_of ei ej same,
                omega (arith, ap seq_of ei, ap seq_of ej),
                λ k hk ak (p, q).
                    let ek = event_at-append log (e ∷ []) k hk in
                    between k (longer_lt hk) (ap actor_of ek ∙ ak ∙ sym (ap actor_of ei)) (
                      omega (arith, ap seq_of ei, ap seq_of ek),
                      omega (arith, ap seq_of ej, ap seq_of ek),
                    ),
              )))
        | inr (tj, ej) ↦
            Ordered-between i j ei ej
              (a.later (event_at log i) (In-event_at log i li) (moved actor_of ei ej same)).1
      ]
      | inr (ti, ei) ↦ elim (split j hj) [
        | inl (lj, ej) ↦ absurd (
            omega (
              arith,
              ap seq_of ei,
              ap seq_of ej,
              a.later (event_at log j) (In-event_at log j lj) (sym (moved actor_of ei ej same)),
            ))
        | inr (tj, ej) ↦ absurd (omega (arith, ap seq_of ei, ap seq_of ej))
      ]
    ]

    message-Ordered : (i j : ℕ) → MessageEdge longer i j → Ordered i j
    message-Ordered i j (hi, hj, oi, oj, m) = elim (split j hj) [
      | inl (lj, ej) ↦
          let recvs = sym (ap op_of ej) ∙ oj in
          let (k, (lk, lj', ok_, oj', mk)) = f.well_formed.matched j lj recvs in
          elim (split i hi) [
            | inl (li, ei) ↦ Ordered-between i j ei ej (
                f.ordered i j (
                  inr (
                    li,
                    lj,
                    sym (ap op_of ei) ∙ oi,
                    recvs,
                    sym (ap (λ (x : CausalEvent). x.msg_id) ei) ∙ m ∙ ap message_of ej,
                  )))
            | inr (ti, ei) ↦ absurd (
                a.fresh (sym (ap op_of ei) ∙ oi) (event_at log k) (In-event_at log k lk) ok_ _ mk
                  (sym (ap (λ (x : CausalEvent). x.msg_id) ei) ∙ m ∙ ap message_of ej))
          ]
      | inr (tj, ej) ↦
          let (x, mx, ox, nx, h) = a.sent (sym (ap op_of ej) ∙ oj) in
          let (k, lk, ek) = index_of log x mx in
          let named = m ∙ ap message_of ej in
          let same : i ≡ k =
            longer-EmittedOnce i k _ hi (longer_lt lk) oi
              (ap op_of (event_at-append log (e ∷ []) k lk ∙ ek) ∙ ox) named
              (ap (λ (y : CausalEvent). y.msg_id) (event_at-append log (e ∷ []) k lk ∙ ek) ∙ nx) in
          Ordered-between i j (ap (event_at longer) same ∙ event_at-append log (e ∷ []) k lk ∙ ek)
            ej h
    ]

    -- A log that is replayed is still replayed with such an event behind it.
    pub append-IsFaithful : IsFaithful longer
    unfolding Ordered
    append-IsFaithful = record {
      well_formed = record {
        distinct_seq = longer-DistinctSeq;
        emitted_once = longer-EmittedOnce;
        matched = longer-Matched;
      };
      ordered = λ i j edge. elim edge [
        | inl program ↦ program-Ordered i j program
        | inr message ↦ message-Ordered i j message
      ];
    }
