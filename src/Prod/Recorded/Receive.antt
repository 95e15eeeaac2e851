-- ===== src/Prod/Recorded/Receive.antt =====
-- The receipt of a message by `actor_loop` of crates/lichtung-prod/src/system.rs keeps the loop sound.
use lichtung.Prelude.{ℕ, List, [], ◌∷◌, ◌+◌, ◌%◌, ◌≡◌, ◌<◌, inl, inr, refl, arith, ap}
use lichtung.Prelude.Words.{u64_mod, u64_max}
use lichtung.Clock.{increment, merge, update}
use lichtung.Clock.Merge.{receive_happens_after}
use lichtung.Core.Event.{Envelope}
use lichtung.Prod.{SharedRuntime, Phase, Task, waiting, received}
use lichtung.Prod.System.{receive}
use lichtung.Prod.Recorded.{
  IsKnown-le, increment-IsBounded, merge-IsBounded, advance-IsStamped, advanced-AllBehind,
}
use lichtung.Prod.Recorded.Claims.{taken}
use lichtung.Prod.Recorded.Loops.{IsSound, Advanced, is_pending, quiet, rests}

module _ {A P : Type 0} where
  module _ (n : ℕ) (t : Task A P) (s : SharedRuntime) (small : n < u64_max) where
    abbrev At : Phase P → Type 0
    At p = IsSound n s.events t.id t.clock t.seq t.inbox p

    got :
        (env : Envelope P) (rest : List (Envelope P))
        → t.inbox ≡ env ∷ rest
        → At waiting
        → IsSound
            (n + 1)
            s.events
            t.id
            (increment (merge t.clock env.vclock) t.id)
            ((t.seq + 1) % u64_mod)
            rest
            (received env)
    got env rest some_ h =
        let k = h.stamped.known env (rw some_ (inl refl)) in
        let b = h.stamped.bounded in
        let after =
          receive_happens_after t.clock env.vclock t.id k.bounded.sorted
            (omega (arith, b.small t.id)) (omega (arith, k.bounded.small t.id)) in
        let next : (t.seq + 1) % u64_mod ≡ t.seq + 1 = omega (arith, h.stamped.numbered) in
        record {
          stamped =
              advance-IsStamped h.stamped after.0 next
                (increment-IsBounded _ t.id small (merge-IsBounded t.clock env.vclock b k.bounded))
                λ x m. rw some_ (inr m);
          behind = λ e.
              advanced-AllBehind s.events t.id t.clock _ t.seq _ h.stamped.up_to after.0
                (omega arith);
          stage = (IsKnown-le (omega arith) (λ x m. m) k, after.1);
        }

    pub receive-Advanced : t.phase ≡ waiting → At waiting → Advanced n waiting t s (receive t) s
    unfolding receive update
    receive-Advanced e h = cases t.inbox refl
      where
        cases :
            (l : List (Envelope P))
            → t.inbox ≡ l
            → Advanced n waiting t s
                (elim l [
                  | [] ↦ t
                  | env ∷ rest ↦
                      let (lamport, lam) = update t.lamport env.lamport in
                      record t {
                        inbox = rest;
                        clock = increment (merge t.clock env.vclock) t.id;
                        lamport = lamport;
                        seq = (t.seq + 1) % u64_mod;
                        phase = received env;
                      }
                ])
                s
        cases [] none_ =
            quiet n waiting t s t s refl refl refl (λ k. ap (taken k) e)
              (rests n waiting t s t.phase (ap is_pending e) (rw e tt) h)
        cases (env ∷ rest) some_ =
            quiet n waiting t s _ s refl refl refl (λ k. refl) (got env rest some_ h)
