-- ===== src/Desk/Flow.antt =====
-- What the pricers of crates/lichtung-replay/examples/risk_desk.rs send to the book for the ticks of the
-- feed, with the addresses of `run_desk`.
mod Rounds
pub mod Priced
pub mod Booked
use lichtung.Prelude.{
  ℕ, zero, suc, String, List, [], ◌∷◌, ◌++◌, Option, none, some, Bool, true, false, ◌+◌, ◌*◌, ◌-◌,
  ◌==◌, ◌&&◌, ◌≡◌, ◌<◌, ◌≤◌, ◌∙◌, refl, arith, ap, max, ltb, leb, get_elem?, if◌then◌else◌, get_or,
}
use lichtung.Prelude.Counts.{one_if}
use lichtung.Core.{Addr, Action, send_to, compute_step}
use lichtung.Prod.System.{Main, origin_numbered}
use lichtung.Prod.{Task}
use lichtung.Desk.{Floats, Tick, Kind, fast, slow, Quote, SymSeries}
use lichtung.Desk.Actors.{
  Payload, session, quote_message, DeskState, feed, feed_ticks, feed_symbols, fast_pricer,
  fast_calls, slow_pricer, slow_calls, kind_is_fast, market_tick, tick_message, mark_message,
}
use lichtung.Desk.Run.{run_desk}
use lichtung.Desk.Folds.{quotes_for, latest_tick}
use mathlib.Core.List.{append_assoc, append-nil}

abbrev pub same_kind : Kind → Kind → Bool
same_kind fast fast = true
same_kind slow slow = true
same_kind _ _ = false

module _ {F : Type 0} where
  -- The quotes that calls send to the mailbox with number 1, the book's.
  unfoldable pub to_book : List (Action (Payload F)) → List (Quote F)
  to_book (send_to to (quote_message q) ∷ calls) =
      if to.sink == 1 then q ∷ to_book calls else to_book calls
  to_book (_ ∷ calls) = to_book calls
  to_book [] = []

  unfoldable pub computes : List (Action (Payload F)) → ℕ
  computes (compute_step ∷ calls) = computes calls + 1
  computes (send_to to msg ∷ calls) = computes calls
  computes [] = 0

  -- How many of the quotes are of the kind, for the symbol and the tick.
  unfoldable pub quoted : Kind → ℕ → ℕ → List (Quote F) → ℕ
  quoted kind sym tick [] = 0
  quoted kind sym tick (q ∷ qs) =
      one_if (same_kind kind q.kind && (q.sym == sym) && (q.tick == tick)) + quoted kind sym tick qs

  pub to_book-append :
      (xs ys : List (Action (Payload F))) → to_book (xs ++ ys) ≡ to_book xs ++ to_book ys
  unfolding to_book
  to_book-append [] ys = refl
  to_book-append (send_to to (quote_message q) ∷ xs) ys = ground (arith, to_book-append xs ys)
  to_book-append (send_to to (session n) ∷ xs) ys = to_book-append xs ys
  to_book-append (send_to to (tick_message t) ∷ xs) ys = to_book-append xs ys
  to_book-append (send_to to (mark_message t) ∷ xs) ys = to_book-append xs ys
  to_book-append (compute_step ∷ xs) ys = to_book-append xs ys

  pub computes-append :
      (xs ys : List (Action (Payload F))) → computes (xs ++ ys) ≡ computes xs + computes ys
  unfolding computes
  computes-append [] ys = omega arith
  computes-append (send_to to msg ∷ xs) ys = computes-append xs ys
  computes-append (compute_step ∷ xs) ys = omega (arith, computes-append xs ys)

module _ {F : Type 0} (tasks : List (Task (DeskState F) (Payload F))) where
  -- The calls of the handler at the address, in the actor's first state.
  unfoldable pub answer_at : Addr → Payload F → List (Action (Payload F))
  answer_at to msg = elim (get_elem? tasks to.sink) [
    | none ↦ []
    | some t ↦ (t.actor.handle t.state msg).1
  ]

  -- The answers to the messages that the calls send, one after the other.
  unfoldable pub answers : List (Action (Payload F)) → List (Action (Payload F))
  unfolding answer_at
  answers [] = []
  answers (send_to to msg ∷ calls) = answer_at to msg ++ answers calls
  answers (compute_step ∷ calls) = answers calls

  pub answers-append :
      (xs ys : List (Action (Payload F))) → answers (xs ++ ys) ≡ answers xs ++ answers ys
  unfolding answers
  answers-append [] ys = refl
  answers-append (send_to to msg ∷ xs) ys =
      ap (λ l. answer_at to msg ++ l) (answers-append xs ys)
      ∙ sym_assoc (answer_at to msg) (answers xs) (answers ys)
    where
      sym_assoc : (a b c : List (Action (Payload F))) → a ++ (b ++ c) ≡ (a ++ b) ++ c
      sym_assoc a b c = rw append_assoc refl
  answers-append (compute_step ∷ xs) ys = answers-append xs ys

  -- The answer to the message of `send_external`.
  unfoldable pub origin_answer : Main (Payload F) → List (Action (Payload F))
  unfolding answer_at
  origin_answer (origin_numbered sink env) = answer_at (record { id = ""; sink = sink }) env.msg
  origin_answer _ = []

module _ {F : Type 0} (fl : Floats F) (series : List (SymSeries F))
    (ticks steps session_id : ℕ) where
  -- What the feed answers to the session, and what the pricers answer to its ticks.
  abbrev pub pricing : List (Action (Payload F))
  pricing =
      let desk = run_desk fl series ticks steps session_id in
      answers desk.tasks (origin_answer desk.tasks desk.main)
