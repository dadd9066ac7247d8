-- ===== src/Prelude/Double.antt =====
-- The `double` arithmetic that the program uses. The processor's and the C library's operations are
-- parameters: nothing is assumed of them.
use Prim.Native.Nat.{ℕ}
use mathlib.Core.Bool.{Bool}

pub record Double : Type 1 where
  pub Real : Type 0
  -- static_cast<double> of an unsigned integer.
  pub of_nat : ℕ → Real
  -- The literal of `digits` with `places` decimals: 0.83 is `decimal 83 2`.
  pub decimal : ℕ → ℕ → Real
  pub add : Real → Real → Real
  pub mul : Real → Real → Real
  pub div : Real → Real → Real
  pub negate : Real → Real
  pub maximum : Real → Real → Real
  -- `a < b`, `a <= b` and `a == b`.
  pub lt : Real → Real → Bool
  pub le : Real → Real → Bool
  pub same : Real → Real → Bool
  -- std::pow, std::log2, std::fabs, std::floor and std::isfinite.
  pub pow : Real → Real → Real
  pub log2 : Real → Real
  pub absolute : Real → Real
  pub floor : Real → Real
  pub is_finite : Real → Bool
