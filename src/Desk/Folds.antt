-- ===== src/Desk/Folds.antt =====
-- What the book of crates/lichtung-replay/examples/risk_desk.rs folds, over a whole run of quotes.
use lichtung.Prelude.{
  ℕ, List, [], ◌∷◌, ◌+◌, ◌==◌, ◌≡◌, ◌≢◌, ◌≤◌, ◌<◌, arith, ap, subst, max, get_or, length,
  length-set, get_or-set_self, get_or-set_ne, ℕ_discrete, if◌then◌else◌,
}
use lichtung.Prelude.Words.{u64_max}
use lichtung.Desk.{Floats, Quote, BookCell}
use lichtung.Desk.Actors.{fold_cell, fold_quote, empty_cell}

module _ {F : Type 0} where
  -- How many of the quotes are for the symbol, and the latest tick of them.
  unfoldable pub quotes_for : ℕ → List (Quote F) → ℕ
  quotes_for sym [] = 0
  quotes_for sym (q ∷ qs) = if q.sym == sym then quotes_for sym qs + 1 else quotes_for sym qs

  unfoldable pub latest_tick : ℕ → List (Quote F) → ℕ
  latest_tick sym [] = 0
  latest_tick sym (q ∷ qs) =
      if q.sym == sym then max q.tick (latest_tick sym qs) else latest_tick sym qs

module _ {F : Type 0} (fl : Floats F) where
  abbrev pub cell_of : List (BookCell F) → ℕ → BookCell F
  cell_of cells sym = get_or cells sym (empty_cell fl)

module _ {F : Type 0} (fl : Floats F) (alpha : F) where
  -- The quotes in the order in which the book receives them.
  unfoldable pub fold_all : List (Quote F) → List (BookCell F) → List (BookCell F)
  fold_all [] cells = cells
  fold_all (q ∷ qs) cells = fold_all qs (fold_quote fl alpha q cells)

  length-fold_quote :
      (q : Quote F) (cells : List (BookCell F))
      → length (fold_quote fl alpha q cells) ≡ length cells
  unfolding fold_quote
  length-fold_quote q cells = length-set cells q.sym _

  own_cell :
      (q : Quote F) (cells : List (BookCell F)) (sym : ℕ)
      → q.sym ≡ sym
      → sym < length cells
      → cell_of fl (fold_quote fl alpha q cells) sym ≡ fold_cell fl alpha q (cell_of fl cells sym)
  unfolding fold_quote
  own_cell q cells sym e h =
      subst
        (λ k.
          cell_of fl (fold_quote fl alpha q cells) k ≡ fold_cell fl alpha q (cell_of fl cells k))
        e (get_or-set_self cells q.sym _ (empty_cell fl) (omega arith))

  other_cell :
      (q : Quote F) (cells : List (BookCell F)) (sym : ℕ)
      → q.sym ≢ sym
      → cell_of fl (fold_quote fl alpha q cells) sym ≡ cell_of fl cells sym
  unfolding fold_quote
  other_cell q cells sym h = get_or-set_ne cells q.sym sym _ (empty_cell fl) h

  folds_of : BookCell F → ℕ
  folds_of c = c.folds

  tick_of : BookCell F → ℕ
  tick_of c = c.last_tick

  -- One quote.
  fold_quote_counts :
      (q : Quote F) (cells : List (BookCell F)) (sym : ℕ)
      → sym < length cells
      → (cell_of fl cells sym).folds < u64_max
      → ((cell_of fl (fold_quote fl alpha q cells) sym).folds
          ≡ (cell_of fl cells sym).folds + quotes_for sym (q ∷ []))
        × ((cell_of fl (fold_quote fl alpha q cells) sym).last_tick
            ≡ max (cell_of fl cells sym).last_tick (latest_tick sym (q ∷ [])))
  unfolding folds_of tick_of fold_cell quotes_for latest_tick
  fold_quote_counts q cells sym h b = elim (ℕ_discrete q.sym sym) [
    | yes same ↦
        let here = own_cell q cells sym same h in
        (ground (arith, ap folds_of here), ground (arith, ap tick_of here))
    | no other ↦
        let here = other_cell q cells sym other in
        (ground (arith, ap folds_of here), ground (arith, ap tick_of here))
  ]

  -- After any run of quotes the cell of a symbol has counted the quotes for it, and has the latest of
  -- their ticks and of its own, whatever else is folded. The symbol is one of the book's,
  -- and fewer than 2^64 quotes are folded.
  pub fold_all_counts :
      (qs : List (Quote F)) (cells : List (BookCell F)) (sym : ℕ)
      → sym < length cells
      → (cell_of fl cells sym).folds + length qs ≤ u64_max
      → ((cell_of fl (fold_all qs cells) sym).folds
          ≡ (cell_of fl cells sym).folds + quotes_for sym qs)
        × ((cell_of fl (fold_all qs cells) sym).last_tick
            ≡ max (cell_of fl cells sym).last_tick (latest_tick sym qs))
  unfolding fold_all quotes_for latest_tick fold_cell
  fold_all_counts [] cells sym h b = (omega arith, omega arith)
  fold_all_counts (q ∷ qs) cells sym h b =
      let (f, t) = fold_quote_counts q cells sym h (omega arith) in
      let after = fold_quote fl alpha q cells in
      let size = length-fold_quote q cells in
      let one : quotes_for sym (q ∷ []) ≤ 1 = ground arith in
      let (g, u) = fold_all_counts qs after sym (omega arith) (omega arith) in
      (ground arith, ground arith)
