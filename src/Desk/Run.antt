-- ===== src/Desk/Run.antt =====
-- The system that `run_desk` of crates/lichtung-replay/examples/risk_desk.rs builds.
use lichtung.Prelude.{ℕ, String, List, [], ◌∷◌}
use lichtung.Core.{Addr}
use lichtung.Prod.System.{System, new_system, spawn, send_external}
use lichtung.Desk.{Floats, Portfolio, SymSeries}
use lichtung.Desk.Actors.{
  Payload, session, DeskState, stateless, book_state, risk_state, empty_cell, no_price, feed,
  fast_pricer, slow_pricer, book, risk,
}

-- The sink of an address is the number of the actors that were spawned before.
abbrev pub addr : String → ℕ → Addr
addr id sink = record { id = id; sink = sink }

module _ {F : Type 0} (fl : Floats F) (series : List (SymSeries F))
    (ticks steps session_id : ℕ) where
  abbrev pub Desk : Type 0
  Desk = System (DeskState F) (Payload F)

  abbrev pub no_portfolio : Portfolio F
  no_portfolio = record { rv = no_price fl; last_ewma = no_price fl; seen = 0; breaches = 0 }

  abbrev pub with_book : Desk
  with_book =
      spawn "book" (book fl (addr "risk" 0) (fl.lit "0.3"))
        (book_state (empty_cell fl ∷ empty_cell fl ∷ empty_cell fl ∷ []))
        (spawn "risk" (risk fl (fl.lit "1500.0" ∷ fl.lit "90.0" ∷ fl.lit "2.5" ∷ []))
          (risk_state no_portfolio) new_system)

  -- `fast-{sym}` and `slow-{sym}`
  abbrev pub with_pricers : String → String → Desk → Desk
  with_pricers fast_name slow_name s =
      spawn slow_name (slow_pricer fl (addr "book" 1) steps) stateless
        (spawn fast_name (fast_pricer fl (addr "book" 1)) stateless s)

  abbrev pub all_spawned : Desk
  all_spawned =
      spawn "feed"
        (feed fl series (addr "fast-btc" 2 ∷ addr "fast-eth" 4 ∷ addr "fast-sol" 6 ∷ [])
          (addr "slow-btc" 3 ∷ addr "slow-eth" 5 ∷ addr "slow-sol" 7 ∷ []) ticks)
        stateless
        (with_pricers "fast-sol" "slow-sol"
          (with_pricers "fast-eth" "slow-eth" (with_pricers "fast-btc" "slow-btc" with_book)))

  -- The desk where `run_until_quiescent` is called next, up to the operations of `send_external`.
  unfoldable pub run_desk : Desk
  run_desk = send_external (addr "feed" 8) (session session_id) all_spawned
