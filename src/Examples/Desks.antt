-- ===== src/Examples/Desks.antt =====
-- The risk desk with numbers in the place of floats.
use lichtung.Prelude.{ℕ, List, [], ◌∷◌, ◌+◌, ◌-◌, ◌*◌, ◌/◌, ◌^◌, ◌≡◌, leb, ltb, max, refl, arith}
use lichtung.Clock.{concurrent as concurrent_clocks}
use lichtung.Poset.HbStrict.{clock}
use lichtung.Desk.{Floats, Quote, BookCell, SymSeries, fast, slow}
use lichtung.Desk.Pricing.{payoff, crr_call}
use lichtung.Desk.Tree.{tree_value, crr_call-tree_value}
use lichtung.Desk.Actors.{empty_cell}
use lichtung.Desk.Folds.{fold_all, fold_all_counts, cell_of, quotes_for, latest_tick}
use lichtung.Desk.Flow.{to_book, computes, quoted}
use lichtung.Desk.Flow.Priced.{calls, AllPriced, each_tick_is_priced}
use lichtung.Desk.Flow.Booked.{quotes_sent, empty_book, all_quotes_are_booked}
use lichtung.Desk.Readback.{concurrent, concurrent-eq-concurrent_clocks}
use mathlib.Core.List.{Permᴰ}
use lichtung.Examples.Logs.{sent, alone}

abbrev numbers : Floats ℕ
numbers = record {
  lit = λ s. 1;
  pi = 3;
  of_nat = λ n. n;
  add = λ a b. a + b;
  sub = λ a b. a - b;
  mul = λ a b. a * b;
  div = λ a b. a / b;
  neg = λ a. a;
  abs = λ a. a;
  exp = λ a. 2 ^ a;
  ln = λ a. a;
  sqrt = λ a. a;
  powi = λ a n. a ^ n;
  max = λ a b. max a b;
  ge = λ a b. leb b a;
  gt = λ a b. ltb b a;
}

crr_call-tree_value_example :
    crr_call numbers 100 10 6 2 3
    ≡ tree_value numbers
        ((1 - 1 / 2 ^ 4) / (2 ^ 4 - 1 / 2 ^ 4))
        (payoff numbers 100 10 (2 ^ 4) (1 / 2 ^ 4) 3)
        3
        0
crr_call-tree_value_example = crr_call-tree_value numbers 100 10 6 2 3

abbrev quotes : List (Quote ℕ)
quotes =
    record { sym = 0; tick = 2; kind = fast; price = 5 }
    ∷ record { sym = 1; tick = 9; kind = fast; price = 6 }
    ∷ record { sym = 0; tick = 1; kind = slow; price = 7 }
    ∷ []

abbrev cells : List (BookCell ℕ)
cells = empty_cell numbers ∷ empty_cell numbers ∷ []

fold_all_counts_example :
    ((cell_of numbers (fold_all numbers 3 quotes cells) 0).folds ≡ 0 + quotes_for 0 quotes)
    × ((cell_of numbers (fold_all numbers 3 quotes cells) 0).last_tick
        ≡ max 0 (latest_tick 0 quotes))
fold_all_counts_example = fold_all_counts numbers 3 quotes cells 0 (omega arith) (omega arith)

counted : quotes_for 0 quotes ≡ 2
unfolding quotes_for
counted = refl

concurrent-eq-concurrent_clocks_example :
    concurrent sent alone ≡ concurrent_clocks (clock sent.vclock) (clock alone.vclock)
concurrent-eq-concurrent_clocks_example =
    concurrent-eq-concurrent_clocks sent alone (tt, tt) (tt, tt)

same_quotes : (qs : List (Quote ℕ)) → Permᴰ qs qs
same_quotes [] = Permᴰ.nil
same_quotes (q ∷ qs) = Permᴰ.cons refl (same_quotes qs)

abbrev one_close : SymSeries ℕ
one_close = record { closes = 100 ∷ []; vols = 2 ∷ [] }

each_tick_is_priced_example :
    (quoted slow 2 0 (to_book (calls numbers one_close one_close one_close 1 4 7)) ≡ 1)
    × AllPriced numbers one_close one_close one_close 1 4 7
        (to_book (calls numbers one_close one_close one_close 1 4 7))
    × (computes (calls numbers one_close one_close one_close 1 4 7) ≡ 15)
each_tick_is_priced_example =
    each_tick_is_priced numbers one_close one_close one_close 1 4 7 slow 2 0 (omega arith)

all_quotes_are_booked_example :
    ((cell_of numbers
        (fold_all numbers 3
          (quotes_sent numbers one_close one_close one_close 1 4 7)
          (empty_book numbers one_close one_close one_close 1 4 7))
        2).folds
      ≡ 2)
    × ((cell_of numbers
          (fold_all numbers 3
            (quotes_sent numbers one_close one_close one_close 1 4 7)
            (empty_book numbers one_close one_close one_close 1 4 7))
          2).last_tick
        ≡ 0)
all_quotes_are_booked_example =
    all_quotes_are_booked numbers one_close one_close one_close 1 4 7 3
      (quotes_sent numbers one_close one_close one_close 1 4 7) 2
      (same_quotes (quotes_sent numbers one_close one_close one_close 1 4 7)) (omega arith)
      (omega arith)
