-- ===== src/Desk/Flow/Priced.antt =====
-- The prices of the risk desk of crates/lichtung-replay/examples/risk_desk.rs: which quotes reach the
-- book.
use lichtung.Prelude.{
  ℕ, zero, suc, List, [], ◌∷◌, ◌++◌, ◌*◌, ◌/◌, ◌%◌, ◌≡◌, ◌<◌, ◌∙◌, refl, arith, sym, subst, max,
  ltb, get_or,
}
use lichtung.Prelude.Words.{u64_mod}
use lichtung.Prelude.Counts.{one_if}
use lichtung.Prod.System.{spawn}
use lichtung.Desk.{Floats, Kind, fast, slow, Quote, SymSeries}
use lichtung.Core.{Action}
use lichtung.Desk.Actors.{
  Payload, feed_ticks, feed_symbols, fast_pricer, fast_calls, slow_pricer, slow_calls, market_tick,
  no_price,
}
use lichtung.Desk.Pricing.{bs_call, crr_call}
use lichtung.Desk.Flow.{to_book, computes, quoted, answers, pricing}
use lichtung.Desk.Flow.Rounds.{
  round, rounds, to_book-rounds, computes-rounds, quoted-rounds, pricing-rounds,
}

module _ {F : Type 0} (fl : Floats F) (s₀ s₁ s₂ : SymSeries F) (ticks steps session_id : ℕ) where
  abbrev spot : ℕ → ℕ → F
  spot symbol tick =
      let none_ : SymSeries F = record { closes = []; vols = [] } in
      get_or (get_or (s₀ ∷ s₁ ∷ s₂ ∷ []) symbol none_).closes tick (no_price fl)

  abbrev vol : ℕ → ℕ → F
  vol symbol tick =
      let none_ : SymSeries F = record { closes = []; vols = [] } in
      get_or (get_or (s₀ ∷ s₁ ∷ s₂ ∷ []) symbol none_).vols tick (no_price fl)

  -- The price of a call on the close of the symbol at the tick, 2% out of the money and with 30 days to
  -- go: the closed form, or the tree with `steps` levels, at least 2.
  abbrev pub quote_price : Kind → ℕ → ℕ → F
  quote_price fast symbol tick =
      bs_call fl (spot symbol tick) (fl.mul (spot symbol tick) (fl.lit "1.02"))
        (fl.div (fl.lit "30.0") (fl.lit "365.0")) (vol symbol tick)
  quote_price slow symbol tick =
      crr_call fl (spot symbol tick) (fl.mul (spot symbol tick) (fl.lit "1.02"))
        (fl.div (fl.lit "30.0") (fl.lit "365.0")) (vol symbol tick)
        (max (steps * 4 % u64_mod / 4) 2)

  unfoldable pub AllPriced : List (Quote F) → Type 0
  AllPriced [] = Unit
  AllPriced (q ∷ qs) = (q.price ≡ quote_price q.kind q.sym q.tick) × AllPriced qs

  round-AllPriced :
      (tick : ℕ) (qs : List (Quote F))
      → AllPriced qs
      → AllPriced (to_book (round fl s₀ s₁ s₂ ticks steps session_id tick) ++ qs)
  unfolding AllPriced round to_book answers feed_symbols market_tick spawn fast_pricer slow_pricer
      fast_calls slow_calls
  round-AllPriced tick qs h = (refl, (refl, (refl, (refl, (refl, (refl, h))))))

  rounds-AllPriced :
      (left tick : ℕ) → AllPriced (to_book (rounds fl s₀ s₁ s₂ ticks steps session_id left tick))
  rounds-AllPriced zero tick = unfold rounds feed_ticks answers to_book AllPriced in tt
  rounds-AllPriced (suc left) tick =
      subst AllPriced (sym (to_book-rounds fl s₀ s₁ s₂ ticks steps session_id left tick))
        (round-AllPriced tick _ (rounds-AllPriced left (suc tick)))

  abbrev pub calls : List (Action (Payload F))
  calls = pricing fl (s₀ ∷ s₁ ∷ s₂ ∷ []) ticks steps session_id

  -- For every tick of the feed the book is sent one quote of each kind for each symbol, and none for
  -- another tick, priced from that symbol's series at that tick; and the pricers compute 15 times a tick.
  pub each_tick_is_priced :
      (kind : Kind) (symbol k : ℕ)
      → symbol < 3
      → (quoted kind symbol k (to_book calls) ≡ one_if (ltb k ticks))
        × AllPriced (to_book calls)
        × (computes calls ≡ 15 * ticks)
  each_tick_is_priced kind symbol k h = rw (pricing-rounds fl s₀ s₁ s₂ ticks steps session_id) (
    quoted-rounds fl s₀ s₁ s₂ ticks steps session_id kind symbol k ticks 0 h ∙ ground arith,
    rounds-AllPriced ticks 0,
    computes-rounds fl s₀ s₁ s₂ ticks steps session_id ticks 0,
  )
