-- ===== src/Desk/Readback.antt =====
-- What `readback` of crates/lichtung-replay/examples/risk_desk.rs counts in the log of a run.
use lichtung.Prelude.{
  ℕ, String, List, [], ◌∷◌, Option, none, some, Bool, true, false, ◌+◌, ◌≡◌, ◌≤◌, ◌↔◌, ◌&&◌, not,
  leb, str_eq, eq_iff, arith, refl, inl, inr, Bool-cases, Ordering, if◌then◌else◌,
}
use lichtung.Map.{Map, lookup, get_or_zero, IsSorted, lookup_before}
use lichtung.Clock.{VectorClock, partial_cmp, concurrent as concurrent_clocks}
use lichtung.Clock.Order.{Compares, Exceeded, partial_cmp-Compares}
use lichtung.Poset.HbStrict.{clock}
use lichtung.Log.{CausalEvent, emit, op_eq, option_eq}

unfoldable pub leq : Map ℕ → Map ℕ → Bool
leq [] b = true
leq ((k, va) ∷ a) b = leb va (get_or_zero k b) && leq a b

unfoldable pub concurrent : CausalEvent → CausalEvent → Bool
unfolding leq
concurrent a b = not (leq a.vclock b.vclock) && not (leq b.vclock a.vclock)

-- The quotes of a pricer: its emits to the book.
unfoldable pub quotes_of : String → List CausalEvent → List CausalEvent
quotes_of name [] = []
quotes_of name (e ∷ events) =
    let rest = quotes_of name events in
    if op_eq e.op emit && str_eq e.actor name && option_eq str_eq e.dst (some "book")
    then e ∷ rest
    else rest

-- The inner loop of the count, and the outer one.
unfoldable pub concurrent_with : CausalEvent → List CausalEvent → ℕ → ℕ
unfolding concurrent
concurrent_with f [] conc = conc
concurrent_with f (s ∷ slows) conc =
    concurrent_with f slows (if concurrent f s then conc + 1 else conc)

unfoldable pub concurrent_quotes : List CausalEvent → List CausalEvent → ℕ → ℕ
unfolding concurrent_with
concurrent_quotes [] slows conc = conc
concurrent_quotes (f ∷ fasts) slows conc =
    concurrent_quotes fasts slows (concurrent_with f slows conc)

leq-head : (k : String) (v : ℕ) (a : Map ℕ) → get_or_zero k ((k, v) ∷ a) ≡ v
unfolding lookup
leq-head k v a = ground (arith, eq_iff k k)

get_or_zero-tail :
    (k j : String) (v : ℕ) (a : Map ℕ)
    → IsSorted ((k, v) ∷ a)
    → get_or_zero j a ≤ get_or_zero j ((k, v) ∷ a)
unfolding lookup
get_or_zero-tail k j v a s = ground (arith, eq_iff k j, lookup_before k a s.0)

leq_iff :
    (a b : Map ℕ)
    → IsSorted a
    → (leq a b ≡ true) ↔ ((k : String) → get_or_zero k a ≤ get_or_zero k b)
unfolding leq lookup
leq_iff [] b s = (λ h k. omega arith, λ h. refl)
leq_iff ((j, v) ∷ a) b s = (
  λ h k.
      let rest : leq a b ≡ true = ground (arith, h) in
      ground (arith, eq_iff j k, (leq_iff a b s.1).0 rest k),
  λ h.
      let rest = (leq_iff a b s.1).1 (λ k. omega (arith, h k, get_or_zero-tail j k v a s)) in
      ground (arith, rest, h j, leq-head j v a),
)

not_leq : (a b : Map ℕ) → IsSorted a → Exceeded (clock b) (clock a) → leq a b ≡ false
not_leq a b s (k, more) = elim (Bool-cases (leq a b)) [
  | inl h ↦ absurd (omega (arith, (leq_iff a b s).0 h k))
  | inr h ↦ h
]

-- `concurrent` of the desk, which reads the recorded clocks, is `concurrent` of the vector clocks that
-- they record: each of the events knows of something that the other one does not. The recorded clocks
-- are maps sorted by key.
pub concurrent-eq-concurrent_clocks :
    (a b : CausalEvent)
    → IsSorted a.vclock
    → IsSorted b.vclock
    → concurrent a b ≡ concurrent_clocks (clock a.vclock) (clock b.vclock)
unfolding concurrent concurrent_clocks partial_cmp
concurrent-eq-concurrent_clocks a b s t = cases (partial_cmp c d) refl (partial_cmp-Compares c d)
  where
    c : VectorClock
    c = clock a.vclock

    d : VectorClock
    d = clock b.vclock

    cases :
        (r : Option Ordering)
        → partial_cmp c d ≡ r
        → Compares c d r
        → (not (leq a.vclock b.vclock) && not (leq b.vclock a.vclock)) ≡ concurrent_clocks c d
    cases (some Ordering.lt) e h = rw (e, (leq_iff a.vclock b.vclock s).1 h.0) refl
    cases (some Ordering.eq) e h = rw (e, (leq_iff a.vclock b.vclock s).1 h.0) refl
    cases (some Ordering.gt) e h = rw (e, (leq_iff b.vclock a.vclock t).1 h.0) (ground arith)
    cases none e h = rw (e, not_leq a.vclock b.vclock s h.1, not_leq b.vclock a.vclock t h.0) refl
