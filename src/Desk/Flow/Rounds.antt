-- ===== src/Desk/Flow/Rounds.antt =====
-- The rounds of the feed of crates/lichtung-replay/examples/risk_desk.rs, one after the other.
use lichtung.Prelude.{
  ℕ, zero, suc, List, [], ◌∷◌, ◌++◌, ◌+◌, ◌*◌, ◌-◌, ◌==◌, ◌&&◌, ◌≡◌, ◌<◌, ◌∙◌, refl, arith, ap, max,
  ltb, leb, if◌then◌else◌,
}
use lichtung.Prelude.Counts.{one_if}
use lichtung.Core.{Addr, Action}
use lichtung.Prod.System.{spawn, send_external}
use lichtung.Prod.{Task, next_msg_id}
use lichtung.Desk.{Floats, Kind, fast, slow, Quote, SymSeries}
use lichtung.Desk.Actors.{
  Payload, DeskState, feed, feed_ticks, feed_symbols, fast_pricer, fast_calls, slow_pricer,
  slow_calls, market_tick,
}
use lichtung.Desk.Run.{addr, run_desk, all_spawned}
use lichtung.Desk.Folds.{quotes_for, latest_tick}
use lichtung.Desk.Flow.{
  to_book, computes, quoted, to_book-append, computes-append, answer_at, answers, answers-append,
  origin_answer, pricing,
}

module _ {F : Type 0} (fl : Floats F) (s₀ s₁ s₂ : SymSeries F) (ticks steps session_id : ℕ) where
  abbrev pub series : List (SymSeries F)
  series = s₀ ∷ s₁ ∷ s₂ ∷ []

  abbrev fasts : List Addr
  fasts = addr "fast-btc" 2 ∷ addr "fast-eth" 4 ∷ addr "fast-sol" 6 ∷ []

  abbrev slows : List Addr
  slows = addr "slow-btc" 3 ∷ addr "slow-eth" 5 ∷ addr "slow-sol" 7 ∷ []

  abbrev desk : List (Task (DeskState F) (Payload F))
  desk = (all_spawned fl series ticks steps session_id).tasks

  -- A round of the feed.
  unfoldable pub round : ℕ → List (Action (Payload F))
  round tick = answers desk (feed_symbols fl series fasts slows 0 tick)

  computes-round : (tick : ℕ) → computes (round tick) ≡ 15
  unfolding round computes answers feed_symbols spawn fast_pricer slow_pricer fast_calls slow_calls
  computes-round tick = refl

  quoted-round :
      (kind : Kind) (sym k tick : ℕ) (qs : List (Quote F))
      → sym < 3
      → quoted kind sym k (to_book (round tick) ++ qs) ≡ one_if (tick == k) + quoted kind sym k qs
  unfolding round quoted to_book answers feed_symbols market_tick spawn fast_pricer slow_pricer
      fast_calls slow_calls
  quoted-round fast sym k tick qs h = ground arith
  quoted-round slow sym k tick qs h = ground arith

  quotes_for-round :
      (sym tick : ℕ) (qs : List (Quote F))
      → sym < 3
      → quotes_for sym (to_book (round tick) ++ qs) ≡ 2 + quotes_for sym qs
  unfolding round quotes_for to_book answers feed_symbols market_tick spawn fast_pricer slow_pricer
      fast_calls slow_calls
  quotes_for-round sym tick qs h = ground arith

  latest_tick-round :
      (sym tick : ℕ) (qs : List (Quote F))
      → sym < 3
      → latest_tick sym (to_book (round tick) ++ qs) ≡ max tick (latest_tick sym qs)
  unfolding round latest_tick to_book answers feed_symbols market_tick spawn fast_pricer slow_pricer
      fast_calls slow_calls
  latest_tick-round sym tick qs h = ground arith

  -- The answers to the rounds of the feed from a tick on.
  unfoldable pub rounds : ℕ → ℕ → List (Action (Payload F))
  rounds left tick = answers desk (feed_ticks fl series fasts slows left tick)

  pub rounds-suc : (left tick : ℕ) → rounds (suc left) tick ≡ round tick ++ rounds left (suc tick)
  unfolding rounds round feed_ticks
  rounds-suc left tick = answers-append desk (feed_symbols fl series fasts slows 0 tick) _

  pub to_book-rounds :
      (left tick : ℕ)
      → to_book (rounds (suc left) tick) ≡ to_book (round tick) ++ to_book (rounds left (suc tick))
  to_book-rounds left tick = ap to_book (rounds-suc left tick) ∙ to_book-append (round tick) _

  pub computes-rounds : (left tick : ℕ) → computes (rounds left tick) ≡ 15 * left
  computes-rounds zero tick = unfold rounds feed_ticks answers computes in refl
  computes-rounds (suc left) tick =
      ap computes (rounds-suc left tick)
      ∙ computes-append (round tick) (rounds left (suc tick))
      ∙ omega (arith, computes-round tick, computes-rounds left (suc tick))

  pub quoted-rounds :
      (kind : Kind) (sym k left tick : ℕ)
      → sym < 3
      → quoted kind sym k (to_book (rounds left tick)) ≡ one_if (leb tick k && ltb k (tick + left))
  quoted-rounds kind sym k zero tick h =
      unfold rounds feed_ticks answers to_book quoted in ground arith
  quoted-rounds kind sym k (suc left) tick h =
      ap (quoted kind sym k) (to_book-rounds left tick)
      ∙ quoted-round kind sym k tick (to_book (rounds left (suc tick))) h
      ∙ ground (arith, quoted-rounds kind sym k left (suc tick) h)

  pub quotes_for-rounds :
      (sym left tick : ℕ) → sym < 3 → quotes_for sym (to_book (rounds left tick)) ≡ 2 * left
  quotes_for-rounds sym zero tick h = unfold rounds feed_ticks answers to_book quotes_for in refl
  quotes_for-rounds sym (suc left) tick h =
      ap (quotes_for sym) (to_book-rounds left tick)
      ∙ quotes_for-round sym tick (to_book (rounds left (suc tick))) h
      ∙ omega (arith, quotes_for-rounds sym left (suc tick) h)

  pub latest_tick-rounds :
      (sym left tick : ℕ)
      → sym < 3
      → latest_tick sym (to_book (rounds left tick)) ≡ (if left == 0 then 0 else tick + left - 1)
  latest_tick-rounds sym zero tick h = unfold rounds feed_ticks answers to_book latest_tick in refl
  latest_tick-rounds sym (suc left) tick h =
      ap (latest_tick sym) (to_book-rounds left tick)
      ∙ latest_tick-round sym tick (to_book (rounds left (suc tick))) h
      ∙ ground (arith, latest_tick-rounds sym left (suc tick) h)

  pub pricing-rounds : pricing fl series ticks steps session_id ≡ rounds ticks 0
  unfolding rounds answers origin_answer answer_at spawn feed run_desk send_external next_msg_id
  pricing-rounds = refl
