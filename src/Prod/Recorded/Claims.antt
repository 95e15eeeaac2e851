-- ===== src/Prod/Recorded/Claims.antt =====
-- The message numbers of crates/lichtung-prod/src/shared.rs: each is taken by one sender, which
-- records one emit with it.
use lichtung.Prelude.{
  ℕ, zero, suc, List, [], ◌∷◌, ◌++◌, some, Bool, true, ◌+◌, ◌==◌, ◌≡◌, ◌≢◌, ◌≤◌, refl, arith, In,
  inl, inr, sym, ◌∙◌, ap, str_eq, get_elem?, set, ◌&&◌, String, ==_iff, Bool-cases,
}
use lichtung.Prelude.Words.{u64_max}
use lichtung.Prelude.Counts.{one_if}
use lichtung.Clock.{VectorClock}
use lichtung.Core.Event.{Envelope, mid, emit_event, recv_event, compute_event}
use lichtung.Core.Names.{mid_inj}
use lichtung.Log.{CausalEvent, emit, op_eq, option_eq}
use lichtung.Log.Equality.{texts_eq_iff}
use lichtung.Prod.{Phase, Task, numbered}
use lichtung.Prod.System.{Main, origin_numbered}

-- Whether the event is the emit of message `k`.
abbrev emits : ℕ → CausalEvent → Bool
emits k x = op_eq x.op emit && option_eq str_eq x.msg_id (mid k)

unfoldable pub emitted : ℕ → List CausalEvent → ℕ
emitted k [] = 0
emitted k (x ∷ log) = one_if (emits k x) + emitted k log

pub emitted-append :
    (k : ℕ) (log : List CausalEvent) (e : CausalEvent)
    → emitted k (log ++ e ∷ []) ≡ emitted k log + emitted k (e ∷ [])
unfolding emitted
emitted-append k [] e = omega arith
emitted-append k (x ∷ log) e = omega (arith, emitted-append k log e)

emits-emit : (k : ℕ) (x : CausalEvent) → x.op ≡ emit → x.msg_id ≡ mid k → emits k x ≡ true
unfolding op_eq
emits-emit k x o m = rw (o, m) ((texts_eq_iff (mid k) (mid k)).1 refl)

pub emitted_none :
    (k : ℕ) (log : List CausalEvent)
    → emitted k log ≡ 0
    → (x : CausalEvent) → In x log
    → x.op ≡ emit
    → x.msg_id ≢ mid k
unfolding emitted
emitted_none k (y ∷ log) h x (inl e) o m = absurd (
    omega (
      arith,
      ap one_if (
          emits-emit k y (sym (ap (λ (x : CausalEvent). x.op) e) ∙ o)
            (sym (ap (λ (x : CausalEvent). x.msg_id) e) ∙ m)),
    ))
emitted_none k (y ∷ log) h x (inr i) o m = emitted_none k log (omega arith) x i o m
emitted_none k [] h x i o m = elim i [ ]

pub emitted-emit :
    {P : Type 0} (k : ℕ) (actor : String) (seq : ℕ) (env : Envelope P)
    → k ≤ u64_max
    → env.msg_id ≤ u64_max
    → emitted k (emit_event actor seq env ∷ []) ≡ one_if (env.msg_id == k)
unfolding emitted op_eq emit_event
emitted-emit k actor seq env h g = elim (Bool-cases (env.msg_id == k)) [
  | inl same ↦
      ground (arith, texts_eq_iff (mid env.msg_id) (mid k), ap mid ((==_iff env.msg_id k).0 same))
  | inr other ↦ ground (arith, texts_eq_iff (mid env.msg_id) (mid k), mid_inj env.msg_id k g h)
]

pub emitted-recv :
    {P : Type 0} (k : ℕ) (actor : String) (seq : ℕ) (clock : VectorClock) (lamport : ℕ)
    (env : Envelope P)
    → emitted k (recv_event actor seq clock lamport env ∷ []) ≡ 0
unfolding emitted op_eq recv_event
emitted-recv k actor seq clock lamport env = refl

pub emitted-compute :
    (k : ℕ) (actor : String) (seq : ℕ) (clock : VectorClock) (lamport : ℕ)
    → emitted k (compute_event actor seq clock lamport ∷ []) ≡ 0
unfolding emitted op_eq compute_event
emitted-compute k actor seq clock lamport = refl

module _ {P : Type 0} where
  -- A number that is taken and whose emit is not recorded yet.
  abbrev pub taken : ℕ → Phase P → ℕ
  taken k (numbered sink env busy rest) = one_if (env.msg_id == k)
  taken k _ = 0

  abbrev pub taken_by_main : ℕ → Main P → ℕ
  taken_by_main k (origin_numbered sink env) = one_if (env.msg_id == k)
  taken_by_main k _ = 0

module _ {A P : Type 0} where
  unfoldable pub all_taken : ℕ → List (Task A P) → ℕ
  all_taken k [] = 0
  all_taken k (t ∷ tasks) = taken k t.phase + all_taken k tasks

  pub all_taken-append :
      (k : ℕ) (xs ys : List (Task A P)) → all_taken k (xs ++ ys) ≡ all_taken k xs + all_taken k ys
  unfolding all_taken
  all_taken-append k [] ys = omega arith
  all_taken-append k (x ∷ xs) ys = omega (arith, all_taken-append k xs ys)

  some_inj : (x y : Task A P) → some x ≡ some y → x ≡ y
  some_inj x y h = cc

  pub all_taken-set :
      (k : ℕ) (tasks : List (Task A P)) (i : ℕ) (t t' : Task A P)
      → get_elem? tasks i ≡ some t
      → all_taken k (set tasks i t') + taken k t.phase ≡ all_taken k tasks + taken k t'.phase
  unfolding all_taken
  all_taken-set k [] i t t' h = absurd (cc)
  all_taken-set k (x ∷ tasks) zero t t' h = rw (some_inj x t h) (omega arith)
  all_taken-set k (x ∷ tasks) (suc i) t t' h = omega (arith, all_taken-set k tasks i t t' h)

  pub taken_le_all :
      (k : ℕ) (tasks : List (Task A P)) (i : ℕ) (t : Task A P)
      → get_elem? tasks i ≡ some t
      → taken k t.phase ≤ all_taken k tasks
  unfolding all_taken
  taken_le_all k [] i t h = absurd (cc)
  taken_le_all k (x ∷ tasks) zero t h = rw (some_inj x t h) (omega arith)
  taken_le_all k (x ∷ tasks) (suc i) t h = omega (arith, taken_le_all k tasks i t h)
