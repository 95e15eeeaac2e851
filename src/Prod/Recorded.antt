-- ===== src/Prod/Recorded.antt =====
-- What the loops of crates/lichtung-prod/src/system.rs owe to the log: how the clock, the sequence
-- number and the messages of a loop stand to the events that are recorded.
pub mod Claims
pub mod Deliver
pub mod Records
pub mod Loops
pub mod Receive
pub mod Advance
pub mod Systems
pub mod Steps
pub mod Tasks
pub mod Origin
pub mod Spawn
pub mod Faithful
use lichtung.Prelude.{
  ℕ, String, List, [], ◌∷◌, ◌++◌, Bool, true, false, ◌+◌, ◌%◌, ◌≤◌, ◌<◌, ◌≡◌, ◌≢◌, ◌⊎◌, inl, inr,
  refl, arith, In, In-append, sym, ◌∙◌, ap,
}
use lichtung.Prelude.Words.{u64_mod, u64_max}
use lichtung.Map.{lookup, IsSorted, insert-IsSorted}
use lichtung.Clock.{VectorClock, get, happens_before, increment, merge, new}
use lichtung.Clock.Canonical.{merge_entries-IsSorted, to_string_map-entries}
use lichtung.Clock.Order.{Leq, happens_before_iff}
use lichtung.Core.Event.{Envelope, mid, emit_event}
use lichtung.Log.{CausalEvent, emit}
use lichtung.Clock.Merge.{get-merge, get-increment}
use lichtung.Engine.Append.{Appendable, Fresh, Sent}
use lichtung.Poset.HbStrict.{clock, hb_strict-eq-happens_before}

-- A clock of a run that has made `n` steps.
pub record IsBounded (n : ℕ) (c : VectorClock) : Type 0 where
  pub sorted : IsSorted c.entries
  pub small : (k : String) → get c k ≤ n

-- An envelope whose emit is recorded.
pub record IsKnown {P : Type 0} (n : ℕ) (log : List CausalEvent) (env : Envelope P) : Type 0 where
  pub bounded : IsBounded n env.vclock
  pub emitted :
      (x : CausalEvent) × In x log
      × (x.op ≡ emit)
      × (x.msg_id ≡ mid env.msg_id)
      × (x.vclock ≡ env.vclock.entries)

-- The event is not ahead of a loop with this clock and number; or it is strictly behind it.
abbrev pub UpTo : VectorClock → ℕ → CausalEvent → Type 0
UpTo c seq x = (x.seq ≤ seq) × Leq (clock x.vclock) c

abbrev pub Behind : VectorClock → ℕ → CausalEvent → Type 0
Behind c seq x = (x.seq < seq) × (happens_before (clock x.vclock) c ≡ true)

-- The part of a loop's state that does not depend on its phase.
pub record IsStamped {P : Type 0} (n : ℕ) (log : List CausalEvent) (id : String) (c : VectorClock)
    (seq : ℕ) (inbox : List (Envelope P)) : Type 0 where
  pub bounded : IsBounded n c
  pub numbered : seq ≤ n
  pub known : (env : Envelope P) → In env inbox → IsKnown n log env
  pub up_to : (x : CausalEvent) → In x log → x.actor ≡ id → UpTo c seq x

abbrev pub AllBehind : List CausalEvent → String → VectorClock → ℕ → Type 0
AllBehind log id c seq = (x : CausalEvent) → In x log → x.actor ≡ id → Behind c seq x

abbrev pub Includes : List CausalEvent → List CausalEvent → Type 0
Includes log log' = (x : CausalEvent) → In x log → In x log'

pub IsBounded-le : {n m : ℕ} {c : VectorClock} → n ≤ m → IsBounded n c → IsBounded m c
IsBounded-le h b = record { sorted = b.sorted; small = λ k. omega (arith, b.small k) }

pub new-IsBounded : (n : ℕ) → IsBounded n new
unfolding lookup
new-IsBounded n = record { sorted = tt; small = λ k. omega arith }

pub increment-IsBounded :
    {n : ℕ} (c : VectorClock) (id : String)
    → n < u64_max
    → IsBounded n c
    → IsBounded (n + 1) (increment c id)
unfolding increment
increment-IsBounded c id h b = record {
  sorted = insert-IsSorted id ((get c id + 1) % u64_mod) c.entries b.sorted;
  small = λ k. ground (arith, get-increment c id k, b.small k, b.small id);
}

pub merge-IsBounded :
    {n : ℕ} (c other : VectorClock)
    → IsBounded n c
    → IsBounded n other
    → IsBounded n (merge c other)
unfolding merge
merge-IsBounded c other b d = record {
  sorted = merge_entries-IsSorted c.entries other.entries b.sorted;
  small = λ k. omega (arith, get-merge c other k d.sorted, b.small k, d.small k);
}

module _ {P : Type 0} where
  pub IsKnown-le :
      {n m : ℕ} {log log' : List CausalEvent} {env : Envelope P}
      → n ≤ m
      → Includes log log'
      → IsKnown n log env
      → IsKnown m log' env
  IsKnown-le h sub k =
      let (x, m, op, name, same) = k.emitted in
      record { bounded = IsBounded-le h k.bounded; emitted = (x, sub x m, op, name, same) }

  -- Events of other actors may be recorded.
  pub IsStamped-le :
      {n m : ℕ} {log log' : List CausalEvent} {id : String} {c : VectorClock} {seq : ℕ}
      {inbox : List (Envelope P)}
      → n ≤ m
      → Includes log log'
      → ((x : CausalEvent) → In x log' → x.actor ≡ id → In x log)
      → IsStamped n log id c seq inbox
      → IsStamped m log' id c seq inbox
  IsStamped-le h sub others s = record {
    bounded = IsBounded-le h s.bounded;
    numbered = omega (arith, s.numbered);
    known = λ env i. IsKnown-le h sub (s.known env i);
    up_to = λ x i a. s.up_to x (others x i a) a;
  }

-- A step of the clock and of the number.
pub advanced-AllBehind :
    (log : List CausalEvent) (id : String) (c c' : VectorClock) (seq seq' : ℕ)
    → ((x : CausalEvent) → In x log → x.actor ≡ id → UpTo c seq x)
    → happens_before c c' ≡ true
    → seq < seq'
    → AllBehind log id c' seq'
advanced-AllBehind log id c c' seq seq' up h lt x i a =
    let (le, leq) = up x i a in
    let (p, (k, less)) = (happens_before_iff c c').0 h in
    (
      omega arith,
      (happens_before_iff (clock x.vclock) c').1
          (λ j. omega (arith, leq j, p j), (k, omega (arith, leq k))),
    )

Behind-UpTo : (c : VectorClock) (seq : ℕ) (x : CausalEvent) → Behind c seq x → UpTo c seq x
Behind-UpTo c seq x (lt, h) = (omega arith, ((happens_before_iff (clock x.vclock) c).0 h).0)

module _ {P : Type 0} where
  -- The stamps of a local event.
  pub advance-IsStamped :
      {n : ℕ} {log : List CausalEvent} {id : String} {c c' : VectorClock} {seq seq' : ℕ}
      {inbox inbox' : List (Envelope P)}
      → IsStamped n log id c seq inbox
      → happens_before c c' ≡ true
      → seq' ≡ seq + 1
      → IsBounded (n + 1) c'
      → ((env : Envelope P) → In env inbox' → In env inbox)
      → IsStamped (n + 1) log id c' seq' inbox'
  advance-IsStamped {log = log} {id = id} {c = c} {c' = c'} {seq = seq} {seq' = seq'} s h e b sub =
      record {
        bounded = b;
        numbered = omega (arith, s.numbered);
        known = λ env i. IsKnown-le (omega arith) (λ x m. m) (s.known env (sub env i));
        up_to = λ x i a.
            Behind-UpTo c' seq' x
              (advanced-AllBehind log id c c' seq seq' s.up_to h (omega arith) x i a);
      }

  -- An event of the actor itself that carries its stamps.
  pub record_own-IsStamped :
      {n : ℕ} {log : List CausalEvent} {id : String} {c : VectorClock} {seq : ℕ}
      {inbox : List (Envelope P)} (e : CausalEvent)
      → IsStamped n log id c seq inbox
      → e.seq ≡ seq
      → e.vclock ≡ c.entries
      → IsStamped n (log ++ e ∷ []) id c seq inbox
  record_own-IsStamped {log = log} {c = c} {seq = seq} e s es ec = record {
    bounded = s.bounded;
    numbered = s.numbered;
    known = λ env i.
        IsKnown-le (omega arith) (λ x m. (In-append x log (e ∷ [])).1 (inl m)) (s.known env i);
    up_to = λ x i a. elim ((In-append x log (e ∷ [])).0 i) [
      | inl old ↦ s.up_to x old a
      | inr (inl new) ↦ rw (new, es, ec) (omega arith, λ k. omega arith)
      | inr (inr none_) ↦ absurd none_
    ];
  }

-- The emit of an envelope makes it known.
pub emit-IsKnown :
    {P : Type 0} {n : ℕ} (log : List CausalEvent) (actor : String) (seq : ℕ) (env : Envelope P)
    → IsBounded n env.vclock
    → IsKnown n (log ++ emit_event actor seq env ∷ []) env
unfolding emit_event
emit-IsKnown log actor seq env b = record {
  bounded = b;
  emitted = (
    _,
    (In-append _ log _).1 (inr (inl refl)),
    refl,
    refl,
    to_string_map-entries env.vclock b.sorted,
  );
}

-- Such an event fits behind the log, with what its kind asks for.
pub own-Appendable :
    (log : List CausalEvent) (id : String) (c : VectorClock) (seq : ℕ) (e : CausalEvent)
    → AllBehind log id c seq
    → e.actor ≡ id
    → e.seq ≡ seq
    → e.vclock ≡ c.entries
    → Fresh log e
    → Sent log e
    → Appendable log e
own-Appendable log id c seq e b ea es ec fresh sent = record {
  later = λ x i a.
      let (lt, h) = b x i (a ∙ ea) in
      (omega arith, rw (ec, hb_strict-eq-happens_before x.vclock c.entries) h);
  fresh = fresh;
  sent = sent;
}
