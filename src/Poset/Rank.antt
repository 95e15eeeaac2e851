-- ===== src/Poset/Rank.antt =====
-- A rank for the events of a log that grows along `hb_strict`: the sum of the recorded counters over
-- the keys of all the clocks.
use lichtung.Prelude.{
  ℕ, zero, suc, String, List, [], ◌∷◌, ◌++◌, true, ◌+◌, ◌<◌, ◌≤◌, ◌≡◌, inl, inr, arith, In,
  In-append, length,
}
use lichtung.Map.{Map, get_or_zero, keys}
use lichtung.Clock.{happens_before}
use lichtung.Clock.Order.{Leq, happens_before_iff, counter-In}
use lichtung.Log.{CausalEvent}
use lichtung.Poset.{hb_strict, event_at}
use lichtung.Poset.HbStrict.{clock, hb_strict-eq-happens_before}

weight : List String → Map ℕ → ℕ
weight [] m = 0
weight (k ∷ ks) m = get_or_zero k m + weight ks m

weight-le : (ks : List String) (a b : Map ℕ) → Leq (clock a) (clock b) → weight ks a ≤ weight ks b
unfolding weight
weight-le [] a b h = omega arith
weight-le (k ∷ ks) a b h = omega (arith, h k, weight-le ks a b h)

weight-lt :
    (ks : List String) (a b : Map ℕ) (k : String)
    → Leq (clock a) (clock b)
    → get_or_zero k a < get_or_zero k b
    → In k ks
    → weight ks a < weight ks b
unfolding weight
weight-lt [] a b k h lt m = elim m [ ]
weight-lt (j ∷ ks) a b k h lt (inl e) =
    let here : get_or_zero j a < get_or_zero j b = rw e at lt in
    omega (arith, here, weight-le ks a b h)
weight-lt (j ∷ ks) a b k h lt (inr m) = omega (arith, h j, weight-lt ks a b k h lt m)

-- The keys of every clock of the log.
log_keys : List CausalEvent → List String
log_keys [] = []
log_keys (e ∷ es) = keys e.vclock ++ log_keys es

log_keys-In :
    (es : List CausalEvent) (i : ℕ) (k : String)
    → i < length es
    → In k (keys (event_at es i).vclock)
    → In k (log_keys es)
unfolding log_keys
log_keys-In [] i k lt m = absurd (omega arith)
log_keys-In (e ∷ es) zero k lt m = (In-append k (keys e.vclock) (log_keys es)).1 (inl m)
log_keys-In (e ∷ es) (suc i) k lt m =
    (In-append k (keys e.vclock) (log_keys es)).1 (inr (log_keys-In es i k (omega arith) m))

pub rank : List CausalEvent → ℕ → ℕ
rank events i = weight (log_keys events) (event_at events i).vclock

pub rank-lt :
    (events : List CausalEvent) (i j : ℕ)
    → j < length events
    → hb_strict (event_at events i).vclock (event_at events j).vclock ≡ true
    → rank events i < rank events j
unfolding rank
rank-lt events i j lt h =
    let a = (event_at events i).vclock in
    let b = (event_at events j).vclock in
    let hb : happens_before (clock a) (clock b) ≡ true = rw hb_strict-eq-happens_before at h in
    let (leq, (k, less)) = (happens_before_iff (clock a) (clock b)).0 hb in
    weight-lt (log_keys events) a b k leq less
      (log_keys-In events j k lt (counter-In (clock b) k (omega (arith, less))))
