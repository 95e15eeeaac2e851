-- ===== src/Prod/Recorded/Loops.antt =====
-- `actor_loop` of crates/lichtung-prod/src/system.rs against the log, one operation at a time.
use lichtung.Prelude.{
  ℕ, String, List, Bool, true, false, ◌+◌, ◌≡◌, ◌≤◌, inl, arith, In, ltb, leb, ◌&&◌, ap,
}
use lichtung.Prelude.Words.{u64_max}
use lichtung.Prelude.Counts.{one_if}
use lichtung.Clock.{VectorClock, happens_before}
use lichtung.Core.Event.{Envelope}
use lichtung.Log.{CausalEvent}
use lichtung.Prod.{
  SharedRuntime, Phase, Task, created, waiting, finished, ended, received, running, numbered,
  logged, counted, refused, finished_last, refused_last,
}
use lichtung.Prod.Recorded.{IsKnown, IsStamped, AllBehind, Includes, IsKnown-le, IsStamped-le}
use lichtung.Prod.Recorded.Records.{Records}
use lichtung.Prod.Recorded.Claims.{taken, emitted}

module _ {P : Type 0} where
  -- Whether the loop has stamped an event that it has not recorded.
  abbrev pub is_pending : Phase P → Bool
  is_pending (received env) = true
  is_pending (numbered sink env busy rest) = true
  is_pending _ = false

  -- What a phase says of the envelope that it holds.
  abbrev pub Stage : ℕ → List CausalEvent → VectorClock → Phase P → Type 0
  Stage n log c (received env) = IsKnown n log env × (happens_before env.vclock c ≡ true)
  Stage n log c (numbered sink env busy rest) = (env.vclock ≡ c) × (env.msg_id ≤ n)
  Stage n log c (logged sink env busy rest) = IsKnown n log env
  Stage n log c (counted sink env busy rest) = IsKnown n log env
  Stage n log c _ = Unit

  pub Stage-le :
      {n m : ℕ} (log log' : List CausalEvent) (c : VectorClock) (p : Phase P)
      → n ≤ m
      → Includes log log'
      → Stage n log c p
      → Stage m log' c p
  Stage-le log log' c (received env) h sub (k, b) = (IsKnown-le h sub k, b)
  Stage-le log log' c (numbered sink env busy rest) h sub (e, b) = (e, omega arith)
  Stage-le log log' c (logged sink env busy rest) h sub k = IsKnown-le h sub k
  Stage-le log log' c (counted sink env busy rest) h sub k = IsKnown-le h sub k
  Stage-le log log' c created h sub k = tt
  Stage-le log log' c waiting h sub k = tt
  Stage-le log log' c finished h sub k = tt
  Stage-le log log' c finished_last h sub k = tt
  Stage-le log log' c ended h sub k = tt
  Stage-le log log' c (running busy rest) h sub k = tt
  Stage-le log log' c (refused busy rest) h sub k = tt
  Stage-le log log' c (refused_last busy rest) h sub k = tt

  -- The state of a loop after `n` steps of a run that has recorded the log.
  pub record IsSound (n : ℕ) (log : List CausalEvent) (id : String) (c : VectorClock) (seq : ℕ)
      (inbox : List (Envelope P)) (p : Phase P) : Type 0 where
    pub stamped : IsStamped n log id c seq inbox
    pub behind : is_pending p ≡ true → AllBehind log id c seq
    pub stage : Stage n log c p

  pub IsSound-le :
      {n m : ℕ} {log log' : List CausalEvent} {id : String} {c : VectorClock} {seq : ℕ}
      {inbox : List (Envelope P)} {p : Phase P}
      → n ≤ m
      → Includes log log'
      → ((x : CausalEvent) → In x log' → x.actor ≡ id → In x log)
      → IsSound n log id c seq inbox p
      → IsSound m log' id c seq inbox p
  IsSound-le {log = log} {log' = log'} {c = c} {p = p} h sub others s = record {
    stamped = IsStamped-le h sub others s.stamped;
    behind = λ e x i a. s.behind e x (others x i a) a;
    stage = Stage-le log log' c p h sub s.stage;
  }

  -- A phase without a stamped event.
  pub at_rest :
      {n : ℕ} {log : List CausalEvent} {id : String} {c : VectorClock} {seq : ℕ}
      {inbox : List (Envelope P)} (p : Phase P)
      → is_pending p ≡ false
      → IsStamped n log id c seq inbox
      → Stage n log c p
      → IsSound n log id c seq inbox p
  at_rest p e s stage = record { stamped = s; behind = λ f. absurd (cc); stage = stage }

-- The number that the operation takes, if it takes one.
abbrev pub takes : ℕ → SharedRuntime → SharedRuntime → ℕ
takes k s s' = one_if (ltb s.msg_id k && leb k s'.msg_id)

module _ {A P : Type 0} where
  abbrev pub SoundTask : ℕ → List CausalEvent → Task A P → Type 0
  SoundTask n log t = IsSound n log t.id t.clock t.seq t.inbox t.phase

  -- An operation of a loop at the phase, as a step of the shared runtime.
  pub record Advanced (n : ℕ) (p : Phase P) (t : Task A P) (s : SharedRuntime) (t' : Task A P)
      (s' : SharedRuntime) : Type 0 where
    pub same_id : t'.id ≡ t.id
    pub sound : SoundTask (n + 1) s'.events t'
    pub records : Records t.id s.events s'.events
    pub numbers : (s.msg_id ≤ s'.msg_id) × (s'.msg_id ≤ s.msg_id + 1)
    pub claims :
        (k : ℕ)
        → k ≤ u64_max
        → taken k t'.phase + emitted k s'.events ≤ taken k p + emitted k s.events + takes k s s'

  module _ (n : ℕ) (p : Phase P) (t : Task A P) (s : SharedRuntime) where
    abbrev Sound : Type 0
    Sound = IsSound n s.events t.id t.clock t.seq t.inbox p

    -- An operation that records nothing and takes no number.
    pub quiet :
        (t' : Task A P) (s' : SharedRuntime)
        → t'.id ≡ t.id
        → s'.msg_id ≡ s.msg_id
        → s'.events ≡ s.events
        → ((k : ℕ) → taken k t'.phase ≡ 0)
        → SoundTask (n + 1) s'.events t'
        → Advanced n p t s t' s'
    quiet t' s' i m e z h = record {
      same_id = i;
      sound = h;
      records = inl e;
      numbers = omega arith;
      claims = λ k b. omega (arith, z k, ap (emitted k) e);
    }

    -- Only the phase changes, to one that has no envelope.
    pub rests :
        (p' : Phase P)
        → is_pending p' ≡ false
        → Stage (n + 1) s.events t.clock p'
        → Sound
        → IsSound (n + 1) s.events t.id t.clock t.seq t.inbox p'
    rests p' e stage h =
        at_rest p' e (IsStamped-le (omega arith) (λ x m. m) (λ x m a. m) h.stamped) stage
