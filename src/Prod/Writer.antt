-- ===== src/Prod/Writer.antt =====
-- crates/lichtung-prod/src/logwriter.rs: the task that writes the log. The channel is given as the bursts
-- in which the task finds it: a burst is the event that `recv` waits for and those queued behind it.
use lichtung.Prelude.{
  ℕ, String, List, [], ◌∷◌, ◌++◌, ◌+◌, ◌%◌, ◌≡◌, refl, sym, arith, length, ap, ◌∙◌, ◌≤◌, Option,
  none, some, ◌⊎◌, inl, inr,
}
use lichtung.Prelude.Words.{u64_mod, u64_max}
use lichtung.Prelude.Result.{Result, ok, err, ◌>>=◌, >>=-assoc, >>=-congr}
use lichtung.Log.{CausalEvent}
use lichtung.Log.Lines.{Codec, LogError, write_events}

-- `From<serde_json::Error>`: a failure of `serde_json::to_writer` is an error of JSON, also where it is
-- the writer that fails.
abbrev pub from_json : {W : Type 0} → Option W → Result LogError W
from_json none = err LogError.json
from_json (some w) = ok w

module _ {W : Type 0} (to_writer : CausalEvent → W → Option W)
    (write_all : String → W → Result LogError W) (flush : W → Result LogError W) where
  unfoldable pub write_one : CausalEvent → W → Result LogError W
  write_one ev bw = do bw' ← from_json (to_writer ev bw); write_all "\n" bw'

  -- The loop over `try_recv`.
  unfoldable pub drain_queue : List CausalEvent → W × ℕ → Result LogError (W × ℕ)
  unfolding write_one
  drain_queue [] (bw, written) = ok (bw, written)
  drain_queue (ev ∷ queue) (bw, written) = do
    bw' ← write_one ev bw
    drain_queue queue (bw', (written + 1) % u64_mod)

  -- The loop over `recv`, until the channel is closed; it returns the writer and the count.
  unfoldable pub write_bursts :
      List (CausalEvent × List CausalEvent) → W × ℕ → Result LogError (W × ℕ)
  unfolding write_one drain_queue
  write_bursts [] (bw, written) = do bw' ← flush bw; ok (bw', written)
  write_bursts ((ev, queue) ∷ bursts) (bw, written) = do
    bw' ← write_one ev bw
    (bw'', written') ← drain_queue queue (bw', (written + 1) % u64_mod)
    bw''' ← flush bw''
    write_bursts bursts (bw''', written')

  -- The task of `spawn_log_writer`.
  unfoldable pub log_writer : List (CausalEvent × List CausalEvent) → W → Result LogError (W × ℕ)
  unfolding write_bursts
  log_writer bursts w = write_bursts bursts (w, 0)

-- The events of the channel in order.
abbrev pub all_events : List (CausalEvent × List CausalEvent) → List CausalEvent
all_events [] = []
all_events ((ev, queue) ∷ bursts) = ev ∷ queue ++ all_events bursts

-- What an answer of the task says beside one of `write_events`: both succeed alike, or both fail, the
-- task with the same error or with that of JSON.
unfoldable pub Agrees : {B : Type 0} → Result LogError B → Result LogError B → Type 0
Agrees (ok x) (ok y) = x ≡ y
Agrees (err e) (err f) = (e ≡ f) ⊎ (e ≡ LogError.json)
Agrees _ _ = ⊥

pub Agrees-ok : {B : Type 0} (r : Result LogError B) (y : B) → Agrees r (ok y) → r ≡ ok y
unfolding Agrees
Agrees-ok (ok x) y h = ap ok h
Agrees-ok (err e) y h = absurd h

abbrev pub forget : {B : Type 0} → Result LogError B → Option B
forget (ok x) = some x
forget (err e) = none

-- `serde_json::to_writer` writes the text that `to_string` gives, and fails where one of these fails.
abbrev pub WritesText :
    (codec : Codec) {W : Type 0} (write_all : String → W → Result LogError W)
    → (CausalEvent → W → Option W)
    → Type 0
WritesText codec {W} write_all to_writer =
    (ev : CausalEvent) (w : W)
    → to_writer ev w ≡ forget (codec.to_string ev >>= λ line. write_all line w)

module _ {W : Type 0} (to_writer : CausalEvent → W → Option W)
    (write_all : String → W → Result LogError W) (flush : W → Result LogError W) where
  -- The task without its bursts.
  write_each : List CausalEvent → W → Result LogError W
  write_each [] bw = ok bw
  write_each (ev ∷ events) bw =
      write_one to_writer write_all flush ev bw >>= λ bw'. write_each events bw'

  -- What is written, and then the count of it.
  abbrev Writes : ℕ → List CausalEvent → W → Result LogError (W × ℕ)
  Writes written events bw = do bw' ← write_each events bw; ok (bw', written + length events)

  answer : W → ℕ → Result LogError (W × ℕ)
  answer bw n = ok (bw, n)

  -- An event in front.
  Writes-cons :
      (ev : CausalEvent) (events : List CausalEvent) (bw : W) (written : ℕ)
      → (write_one to_writer write_all flush ev bw >>= λ bw'. Writes (written + 1) events bw')
        ≡ Writes written (ev ∷ events) bw
  unfolding write_each answer
  Writes-cons ev events bw written =
      >>=-congr (write_one to_writer write_all flush ev bw)
        (λ bw'. >>=-congr (write_each events bw') (λ b. ap (answer b) (omega arith)))
      ∙ sym (
          >>=-assoc (write_one to_writer write_all flush ev bw) (write_each events)
            (λ b. answer b (written + length (ev ∷ events))))

  module _ (flushes : (w : W) → flush w ≡ ok w) where
    -- A burst in front of the others.
    burst_lem :
        (bursts : List (CausalEvent × List CausalEvent))
        → ((bw : W) (written : ℕ)
            → written + length (all_events bursts) ≤ u64_max
            → write_bursts to_writer write_all flush bursts (bw, written)
              ≡ Writes written (all_events bursts) bw)
        → (queue : List CausalEvent) (bw : W) (written : ℕ)
        → written + length (queue ++ all_events bursts) ≤ u64_max
        → (drain_queue to_writer write_all flush queue (bw, written) >>= λ x.
            flush x.0 >>= λ b. write_bursts to_writer write_all flush bursts (b, x.1))
          ≡ Writes written (queue ++ all_events bursts) bw
    unfolding drain_queue
    burst_lem bursts rest [] bw written b = rw (flushes bw) (rest bw written b)
    burst_lem bursts rest (ev ∷ queue) bw written b =
        let count_eq : (written + 1) % u64_mod ≡ written + 1 = omega arith in
        >>=-assoc (write_one to_writer write_all flush ev bw) _ _
        ∙ >>=-congr (write_one to_writer write_all flush ev bw)
            (λ bw'. rw count_eq (burst_lem bursts rest queue bw' (written + 1) (omega arith)))
        ∙ Writes-cons ev (queue ++ all_events bursts) bw written

    write_bursts_lem :
        (bursts : List (CausalEvent × List CausalEvent)) (bw : W) (written : ℕ)
        → written + length (all_events bursts) ≤ u64_max
        → write_bursts to_writer write_all flush bursts (bw, written)
          ≡ Writes written (all_events bursts) bw
    unfolding write_bursts write_each answer
    write_bursts_lem [] bw written b = rw (flushes bw) (ap (answer bw) (omega arith))
    write_bursts_lem ((ev, queue) ∷ bursts) bw written b =
        let count_eq : (written + 1) % u64_mod ≡ written + 1 = omega arith in
        >>=-congr (write_one to_writer write_all flush ev bw) (λ bw'.
          rw count_eq
            (burst_lem bursts (write_bursts_lem bursts) queue bw' (written + 1) (omega arith)))
        ∙ Writes-cons ev (queue ++ all_events bursts) bw written

    log_writer-write_each :
        (bursts : List (CausalEvent × List CausalEvent)) (w : W)
        → length (all_events bursts) ≤ u64_max
        → log_writer to_writer write_all flush bursts w
          ≡ (write_each (all_events bursts) w >>= λ w'. ok (w', length (all_events bursts)))
    unfolding log_writer
    log_writer-write_each bursts w b =
        let n : 0 + length (all_events bursts) ≡ length (all_events bursts) = omega arith in
        rw n at (write_bursts_lem bursts w 0 (omega arith))

  module _ (codec : Codec) (text : WritesText codec write_all to_writer) where
    each-Agrees :
        (events : List CausalEvent) (bw : W) (n : ℕ)
        → Agrees
            (write_each events bw >>= λ b. answer b n)
            (write_events codec write_all events bw >>= λ b. answer b n)
    unfolding Agrees write_each write_events write_one answer
    each-Agrees [] bw n = refl
    each-Agrees (ev ∷ events) bw n =
        rw text (split (λ b. each-Agrees events b n) (codec.to_string ev))
      where
        reference : Result LogError String → Result LogError W
        reference r = r >>= λ line. write_all line bw >>= λ b.
            write_all "\n" b >>= λ b'. write_events codec write_all events b'

        Rest : Type 0
        Rest =
            (b : W)
            → Agrees (write_each events b >>= λ b. answer b n)
                (write_events codec write_all events b >>= λ b. answer b n)

        after_feed :
            Rest
            → (r : Result LogError W)
            → Agrees
                ((r >>= λ b'. write_each events b') >>= λ b. answer b n)
                ((r >>= λ b'. write_events codec write_all events b') >>= λ b. answer b n)
        after_feed ih (err e) = inl refl
        after_feed ih (ok b) = ih b

        after_line :
            Rest
            → (r : Result LogError W)
            → Agrees
                (((from_json (forget r) >>= λ b. write_all "\n" b) >>= λ b'. write_each events b')
                  >>= λ b. answer b n)
                ((r >>= λ b. write_all "\n" b >>= λ b'. write_events codec write_all events b')
                  >>= λ b. answer b n)
        after_line ih (err e) = inr refl
        after_line ih (ok b) = after_feed ih (write_all "\n" b)

        split :
            Rest
            → (r : Result LogError String)
            → Agrees
                (((from_json (forget (r >>= λ line. write_all line bw)) >>= λ b. write_all "\n" b)
                    >>= λ b'. write_each events b')
                  >>= λ b. answer b n)
                (reference r >>= λ b. answer b n)
        split ih (err e) = inr refl
        split ih (ok line) = after_line ih (write_all line bw)

    -- With a writer that flushes without error, the log task succeeds exactly where `write_events` does for
    -- the events in the order of the channel, however they fall into bursts, writes the same, and returns
    -- their number, up to 2^64 - 1. Where they fail, the task has the error of `write_events` or `Json`,
    -- which is also that of a writer that fails under `serde_json::to_writer`.
    pub log_writer-write_events :
        ((w : W) → flush w ≡ ok w)
        → (bursts : List (CausalEvent × List CausalEvent)) (w : W)
        → length (all_events bursts) ≤ u64_max
        → Agrees (log_writer to_writer write_all flush bursts w) (
            write_events codec write_all (all_events bursts) w >>= λ w'.
            ok (w', length (all_events bursts)))
    unfolding answer
    log_writer-write_events flushes bursts w b =
        rw (log_writer-write_each flushes bursts w b)
          (each-Agrees (all_events bursts) w (length (all_events bursts)))
