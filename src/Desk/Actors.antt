-- ===== src/Desk/Actors.antt =====
-- The actors of crates/lichtung-replay/examples/risk_desk.rs, and `run_desk` up to its wait.
use lichtung.Prelude.{
  ℕ, zero, suc, List, [], ◌∷◌, ◌++◌, Bool, true, false, ◌+◌, ◌*◌, ◌/◌, ◌%◌, ◌==◌, ltb, leb, max,
  get_or, set, if◌then◌else◌,
}
use lichtung.Prelude.Words.{u64_mod}
use lichtung.Core.{Actor, Action, Addr, send_to, compute_step}
use lichtung.Desk.{Floats, Tick, Kind, fast, slow, Quote, Mark, BookCell, Portfolio, SymSeries}
use lichtung.Desk.Pricing.{bs_call, crr_call}

-- The messages, in a box.
pub data Payload (F : Type 0) : Type 0 where
  session : ℕ → Payload F
  tick_message : Tick F → Payload F
  quote_message : Quote F → Payload F
  mark_message : Mark F → Payload F

-- What the handlers write: the cells behind the lock of `BookState`, which only the book takes during
-- a run, and the portfolio, which only the risk actor takes.
pub data DeskState (F : Type 0) : Type 0 where
  stateless : DeskState F
  book_state : List (BookCell F) → DeskState F
  risk_state : Portfolio F → DeskState F

abbrev pub nowhere : Addr
nowhere = record { id = ""; sink = 0 }

abbrev pub kind_is_fast : Kind → Bool
kind_is_fast fast = true
kind_is_fast slow = false

module _ {F : Type 0} (fl : Floats F) where
  abbrev pub no_price : F
  no_price = fl.lit "0.0"

  -- A candle of a series. The number of ticks is at most the length of each series.
  unfoldable pub market_tick : SymSeries F → ℕ → ℕ → Tick F
  market_tick s sym tick = record {
    sym = sym;
    tick = tick;
    spot = get_or s.closes tick no_price;
    strike = fl.mul (get_or s.closes tick no_price) (fl.lit "1.02");
    t = fl.div (fl.lit "30.0") (fl.lit "365.0");
    vol = get_or s.vols tick no_price;
  }

  -- `for sym in 0..SYMBOLS.len()`, from `sym` on: the series and the addresses are those from `sym` on.
  unfoldable pub feed_symbols :
      List (SymSeries F) → List Addr → List Addr → ℕ → ℕ → List (Action (Payload F))
  unfolding market_tick
  feed_symbols (s ∷ series) (f ∷ fasts) (w ∷ slows) sym tick =
      let t = market_tick s sym tick in
      send_to f (tick_message t)
      ∷ send_to w (tick_message t)
      ∷ feed_symbols series fasts slows (suc sym) tick
  feed_symbols _ _ _ sym tick = []

  -- `for tick in 0..ticks`, from `tick` on, with `left` rounds to go.
  unfoldable pub feed_ticks :
      List (SymSeries F) → List Addr → List Addr → ℕ → ℕ → List (Action (Payload F))
  unfolding feed_symbols
  feed_ticks series fasts slows zero tick = []
  feed_ticks series fasts slows (suc left) tick =
      feed_symbols series fasts slows 0 tick ++ feed_ticks series fasts slows left (suc tick)

  unfoldable pub feed :
      List (SymSeries F) → List Addr → List Addr → ℕ → Actor (DeskState F) (Payload F)
  unfolding feed_ticks
  feed series fasts slows ticks = record {
    started = λ a. (a, []);
    accepts = λ a m. elim m [ session n ↦ true | _ ↦ false ];
    handle = λ a m. (a, feed_ticks series fasts slows ticks 0);
  }

  -- A handler for another message is never called.
  unfoldable pub fast_calls : Addr → Payload F → List (Action (Payload F))
  unfolding bs_call
  fast_calls book (tick_message t) =
      compute_step
      ∷ send_to book (
          quote_message (record {
            sym = t.sym;
            tick = t.tick;
            kind = fast;
            price = bs_call fl t.spot t.strike t.t t.vol;
          }))
      ∷ []
  fast_calls book _ = []

  abbrev pub is_tick : Payload F → Bool
  is_tick (tick_message t) = true
  is_tick _ = false

  unfoldable pub fast_pricer : Addr → Actor (DeskState F) (Payload F)
  unfolding fast_calls
  fast_pricer book = record {
    started = λ a. (a, []);
    accepts = λ a m. is_tick m;
    handle = λ a m. (a, fast_calls book m);
  }

  -- Four milestones; the price is that of the last one.
  unfoldable pub slow_calls : Addr → ℕ → Payload F → List (Action (Payload F))
  unfolding crr_call
  slow_calls book steps (tick_message t) =
      compute_step
      ∷ compute_step
      ∷ compute_step
      ∷ compute_step
      ∷ send_to book (
          quote_message (record {
            sym = t.sym;
            tick = t.tick;
            kind = slow;
            price = crr_call fl t.spot t.strike t.t t.vol (max (steps * 4 % u64_mod / 4) 2);
          }))
      ∷ []
  slow_calls book steps _ = []

  unfoldable pub slow_pricer : Addr → ℕ → Actor (DeskState F) (Payload F)
  unfolding slow_calls
  slow_pricer book steps = record {
    started = λ a. (a, []);
    accepts = λ a m. is_tick m;
    handle = λ a m. (a, slow_calls book steps m);
  }

  -- The fold of a quote into its cell.
  unfoldable pub fold_cell : F → Quote F → BookCell F → BookCell F
  fold_cell alpha q cell =
      let newer = leb cell.last_tick q.tick in
      record {
        ewma =
            if cell.folds == 0
            then q.price
            else fl.add (fl.mul alpha q.price) (fl.mul (fl.sub (fl.lit "1.0") alpha) cell.ewma);
        folds = (cell.folds + 1) % u64_mod;
        last_tick = if newer then q.tick else cell.last_tick;
        last_kind_is_fast = if newer then kind_is_fast q.kind else cell.last_kind_is_fast;
      }

  -- `BookCell::default()`
  abbrev pub empty_cell : BookCell F
  empty_cell = record { ewma = no_price; folds = 0; last_tick = 0; last_kind_is_fast = false }

  unfoldable pub fold_quote : F → Quote F → List (BookCell F) → List (BookCell F)
  unfolding fold_cell
  fold_quote alpha q cells = set cells q.sym (fold_cell alpha q (get_or cells q.sym empty_cell))

  unfoldable pub book_handle :
      Addr → F → DeskState F → Payload F → DeskState F × List (Action (Payload F))
  unfolding fold_quote
  book_handle risk alpha (book_state cells) (quote_message q) =
      let cells' = fold_quote alpha q cells in
      let mark : Mark F = record { sym = q.sym; ewma = (get_or cells' q.sym empty_cell).ewma } in
      (book_state cells', compute_step ∷ send_to risk (mark_message mark) ∷ [])
  book_handle risk alpha state _ = (state, [])

  unfoldable pub book : Addr → F → Actor (DeskState F) (Payload F)
  unfolding book_handle
  book risk alpha = record {
    started = λ a. (a, []);
    accepts = λ a m. elim m [ quote_message q ↦ true | _ ↦ false ];
    handle = book_handle risk alpha;
  }

  unfoldable pub risk_handle :
      List F → DeskState F → Payload F → DeskState F × List (Action (Payload F))
  risk_handle limits (risk_state p) (mark_message m) =
      let breach = fl.gt m.ewma (get_or limits m.sym no_price) in
      let p' : Portfolio F = record {
        rv = if ltb 0 p.seen then fl.add p.rv (fl.powi (fl.sub m.ewma p.last_ewma) 2) else p.rv;
        last_ewma = m.ewma;
        seen = (p.seen + 1) % u64_mod;
        breaches = if breach then (p.breaches + 1) % u64_mod else p.breaches;
      } in
      (risk_state p', if breach then compute_step ∷ [] else [])
  risk_handle limits state _ = (state, [])

  unfoldable pub risk : List F → Actor (DeskState F) (Payload F)
  unfolding risk_handle
  risk limits = record {
    started = λ a. (a, []);
    accepts = λ a m. elim m [ mark_message q ↦ true | _ ↦ false ];
    handle = risk_handle limits;
  }
