-- ===== src/Desk.antt =====
-- crates/lichtung-replay/examples/risk_desk.rs: the messages of the desk, and what the actors keep.
pub mod Pricing
pub mod Tree
pub mod Actors
pub mod Folds
pub mod Readback
pub mod Run
pub mod Flow
use lichtung.Prelude.{ℕ, String, List, Bool}

-- `f64` and the operations of its that the desk uses. A literal is given by its text; `of_nat` is the
-- cast of an unsigned number, and the exponent of `powi`, an `i32`, is given by its bits, as a number
-- below 2^32.
pub record Floats (F : Type 0) : Type 0 where
  pub lit : String → F
  pub pi : F
  pub of_nat : ℕ → F
  pub add : F → F → F
  pub sub : F → F → F
  pub mul : F → F → F
  pub div : F → F → F
  pub neg : F → F
  pub abs : F → F
  pub exp : F → F
  pub ln : F → F
  pub sqrt : F → F
  pub powi : F → ℕ → F
  pub max : F → F → F
  pub ge : F → F → Bool
  pub gt : F → F → Bool

pub record Tick (F : Type 0) : Type 0 where
  pub sym : ℕ
  pub tick : ℕ
  pub spot : F
  pub strike : F
  pub t : F
  pub vol : F

pub data Kind : Type 0 where
  fast slow : Kind

pub record Quote (F : Type 0) : Type 0 where
  pub sym : ℕ
  pub tick : ℕ
  pub kind : Kind
  pub price : F

pub record Mark (F : Type 0) : Type 0 where
  pub sym : ℕ
  pub ewma : F

pub record BookCell (F : Type 0) : Type 0 where
  pub ewma : F
  pub folds : ℕ
  pub last_tick : ℕ
  pub last_kind_is_fast : Bool

pub record Portfolio (F : Type 0) : Type 0 where
  pub rv : F
  pub last_ewma : F
  pub seen : ℕ
  pub breaches : ℕ

-- `SymSeries`, without the two times that only a print reads.
pub record SymSeries (F : Type 0) : Type 0 where
  pub closes : List F
  pub vols : List F
