-- ===== src/Engine/Append.antt =====
-- One more event at the end of a log that crates/lichtung-replay accepts.
pub mod Faithful
use lichtung.Prelude.{
  ℕ, zero, suc, String, List, [], ◌∷◌, ◌++◌, Option, some, true, ◌<◌, ◌≡◌, ◌≢◌, refl, ◌⊎◌, inl, inr,
  arith, In, ap, ap₂, sym, ◌∙◌, length, length-append, dec_lt,
}
use lichtung.Log.{CausalEvent, Op, emit, recv}
use lichtung.Poset.{event_at, hb_strict, msg_or_empty}
use lichtung.Poset.Program.{DistinctSeq, ProgramEdge}
use lichtung.Poset.Messages.{MessageEdge, EmittedOnce, Matched}
use lichtung.Engine.Replay.{IsFaithful}

-- An emit has a message id that no emit of the log has.
abbrev pub Fresh : List CausalEvent → CausalEvent → Type 0
Fresh log e =
    e.op ≡ emit
    → (x : CausalEvent) → In x log
    → x.op ≡ emit
    → (m : String) → x.msg_id ≡ some m
    → e.msg_id ≢ some m

-- The emit of a receipt stands in the log, with a clock before the receipt's.
abbrev pub Sent : List CausalEvent → CausalEvent → Type 0
Sent log e =
    e.op ≡ recv
    → (x : CausalEvent) × In x log
      × (x.op ≡ emit)
      × (x.msg_id ≡ some (msg_or_empty e))
      × (hb_strict x.vclock e.vclock ≡ true)

-- The event is later than its actor's events, emits a message that is not in the log, and receives one
-- whose emit is.
pub record Appendable (log : List CausalEvent) (e : CausalEvent) : Type 0 where
  pub later :
      (x : CausalEvent)
      → In x log
      → x.actor ≡ e.actor
      → (x.seq < e.seq) × (hb_strict x.vclock e.vclock ≡ true)
  pub fresh : Fresh log e
  pub sent : Sent log e

pub In-event_at : (log : List CausalEvent) (i : ℕ) → i < length log → In (event_at log i) log
In-event_at [] i h = absurd (omega arith)
In-event_at (x ∷ log) zero h = inl refl
In-event_at (x ∷ log) (suc i) h = inr (In-event_at log i (omega arith))

pub index_of :
    (log : List CausalEvent) (x : CausalEvent)
    → In x log
    → (i : ℕ) × (i < length log) × (event_at log i ≡ x)
index_of [] x m = absurd m
index_of (y ∷ log) x (inl e) = (zero, omega arith, sym e)
index_of (y ∷ log) x (inr m) = let (i, h, e) = index_of log x m in (suc i, omega arith, e)

event_at-append :
    (log more : List CausalEvent) (i : ℕ)
    → i < length log
    → event_at (log ++ more) i ≡ event_at log i
event_at-append [] more i h = absurd (omega arith)
event_at-append (x ∷ log) more zero h = refl
event_at-append (x ∷ log) more (suc i) h = event_at-append log more i (omega arith)

event_at-last :
    (log more : List CausalEvent) (e : CausalEvent) → event_at (log ++ e ∷ more) (length log) ≡ e
event_at-last [] more e = refl
event_at-last (x ∷ log) more e = event_at-last log more e

abbrev pub actor_of : CausalEvent → String
actor_of x = x.actor

abbrev pub seq_of : CausalEvent → ℕ
seq_of x = x.seq

-- A log is not accepted in which an event has the actor and the `seq` of an event before it.
pub clash-IsFaithful :
    (log more : List CausalEvent) (x e : CausalEvent)
    → In x log
    → x.actor ≡ e.actor
    → x.seq ≡ e.seq
    → ¬ IsFaithful (log ++ e ∷ more)
clash-IsFaithful log more x e m a q f =
    let (i, h, at) = index_of log x m in
    let at_i = event_at-append log (e ∷ more) i h ∙ at in
    let at_e = event_at-last log more e in
    let size = length-append log (e ∷ more) in
    absurd (
      omega (
        arith,
        f.well_formed.distinct_seq i (length log) (omega arith) (omega arith)
            (ap actor_of at_i ∙ a ∙ sym (ap actor_of at_e))
            (ap seq_of at_i ∙ q ∙ sym (ap seq_of at_e)),
      ))
