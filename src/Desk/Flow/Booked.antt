-- ===== src/Desk/Flow/Booked.antt =====
-- The book of crates/lichtung-replay/examples/risk_desk.rs after all quotes of a run, in whatever order
-- they arrive.
use lichtung.Prelude.{
  ℕ, zero, suc, List, [], ◌∷◌, ◌*◌, ◌-◌, ◌≡◌, ◌<◌, ◌≤◌, ◌∙◌, refl, arith, ap, sym, length,
  length-append,
}
use lichtung.Prelude.Words.{u64_max}
use lichtung.Prod.System.{spawn}
use lichtung.Desk.{Floats, Quote, BookCell, SymSeries}
use lichtung.Desk.Actors.{
  empty_cell, feed_ticks, feed_symbols, fast_pricer, fast_calls, slow_pricer, slow_calls,
}
use lichtung.Desk.Folds.{quotes_for, latest_tick, fold_all, fold_all_counts, cell_of}
use lichtung.Desk.Flow.{to_book, answers, pricing}
use lichtung.Desk.Flow.Rounds.{
  round, rounds, to_book-rounds, quotes_for-rounds, latest_tick-rounds, pricing-rounds,
}
use mathlib.Core.List.{Permᴰ}

module _ {F : Type 0} where
  Perm-quotes_for :
      (sym : ℕ) {qs qs' : List (Quote F)} → Permᴰ qs qs' → quotes_for sym qs ≡ quotes_for sym qs'
  unfolding quotes_for
  Perm-quotes_for sym Permᴰ.nil = refl
  Perm-quotes_for sym (Permᴰ.cons e p) = rw e (ground (arith, Perm-quotes_for sym p))
  Perm-quotes_for sym (Permᴰ.swap e e') = rw (e, e') (ground arith)
  Perm-quotes_for sym (Permᴰ.trans p q) = Perm-quotes_for sym p ∙ Perm-quotes_for sym q

  Perm-latest_tick :
      (sym : ℕ) {qs qs' : List (Quote F)} → Permᴰ qs qs' → latest_tick sym qs ≡ latest_tick sym qs'
  unfolding latest_tick
  Perm-latest_tick sym Permᴰ.nil = refl
  Perm-latest_tick sym (Permᴰ.cons e p) = rw e (ground (arith, Perm-latest_tick sym p))
  Perm-latest_tick sym (Permᴰ.swap e e') = rw (e, e') (ground arith)
  Perm-latest_tick sym (Permᴰ.trans p q) = Perm-latest_tick sym p ∙ Perm-latest_tick sym q

  Perm-length : {qs qs' : List (Quote F)} → Permᴰ qs qs' → length qs ≡ length qs'
  Perm-length Permᴰ.nil = refl
  Perm-length (Permᴰ.cons e p) = omega (arith, Perm-length p)
  Perm-length (Permᴰ.swap e e') = refl
  Perm-length (Permᴰ.trans p q) = Perm-length p ∙ Perm-length q

module _ {F : Type 0} (fl : Floats F) (s₀ s₁ s₂ : SymSeries F) (ticks steps session_id : ℕ) where
  length-round : (tick : ℕ) → length (to_book (round fl s₀ s₁ s₂ ticks steps session_id tick)) ≡ 6
  unfolding round to_book answers feed_symbols spawn fast_pricer slow_pricer fast_calls slow_calls
  length-round tick = refl

  length-rounds :
      (left tick : ℕ)
      → length (to_book (rounds fl s₀ s₁ s₂ ticks steps session_id left tick)) ≡ 6 * left
  length-rounds zero tick = unfold rounds feed_ticks answers to_book in refl
  length-rounds (suc left) tick =
      ap length (to_book-rounds fl s₀ s₁ s₂ ticks steps session_id left tick)
      ∙ length-append (to_book (round fl s₀ s₁ s₂ ticks steps session_id tick)) _
      ∙ omega (arith, length-round tick, length-rounds left (suc tick))

  abbrev pub quotes_sent : List (Quote F)
  quotes_sent = to_book (pricing fl (s₀ ∷ s₁ ∷ s₂ ∷ []) ticks steps session_id)

  abbrev pub empty_book : List (BookCell F)
  empty_book = empty_cell fl ∷ empty_cell fl ∷ empty_cell fl ∷ []

  -- In whatever order the quotes of a run reach the book, its cell of a symbol has folded two quotes for
  -- each tick of the feed at the end, and holds the last tick, for fewer than 2^64 quotes.
  pub all_quotes_are_booked :
      (alpha : F) (qs : List (Quote F)) (symbol : ℕ)
      → Permᴰ qs quotes_sent
      → symbol < 3
      → 6 * ticks ≤ u64_max
      → ((cell_of fl (fold_all fl alpha qs empty_book) symbol).folds ≡ 2 * ticks)
        × ((cell_of fl (fold_all fl alpha qs empty_book) symbol).last_tick ≡ ticks - 1)
  all_quotes_are_booked alpha qs symbol perm h small =
      let sent = ap to_book (pricing-rounds fl s₀ s₁ s₂ ticks steps session_id) in
      let size = Perm-length perm ∙ ap length sent ∙ length-rounds ticks 0 in
      let number =
        Perm-quotes_for symbol perm
        ∙ ap (quotes_for symbol) sent
        ∙ quotes_for-rounds fl s₀ s₁ s₂ ticks steps session_id symbol ticks 0 h in
      let latest =
        Perm-latest_tick symbol perm
        ∙ ap (latest_tick symbol) sent
        ∙ latest_tick-rounds fl s₀ s₁ s₂ ticks steps session_id symbol ticks 0 h in
      let empty = empty_lem symbol h in
      let counted =
        fold_all_counts fl alpha qs empty_book symbol h (omega (arith, empty.0, size)) in
      (omega (arith, counted.0, empty.0, number), ground (arith, counted.1, empty.1, latest))
    where
      empty_lem :
          (k : ℕ)
          → k < 3
          → ((cell_of fl empty_book k).folds ≡ 0) × ((cell_of fl empty_book k).last_tick ≡ 0)
      empty_lem zero h = (refl, refl)
      empty_lem (suc zero) h = (refl, refl)
      empty_lem (suc (suc zero)) h = (refl, refl)
      empty_lem (suc (suc (suc k))) h = absurd (omega arith)
