-- ===== src/Prelude/Milli.antt =====
-- A `Double` to run the models on: thousandths, rounded down, and none under zero.
use Prim.Native.Nat.{ℕ, ◌+◌, ◌*◌, ◌/◌, ◌^◌, max}
use mathlib.Core.Bool.{true}
use obs_trigglow_dynamic_del.Prelude.Tests.{ltb, leb, ◌==◌}
use obs_trigglow_dynamic_del.Prelude.Double.{Double}

abbrev pub milli : Double
milli = record {
  Real = ℕ;
  of_nat = λ n. n * 1000;
  decimal = λ digits places. digits * 1000 / 10 ^ places;
  add = λ x y. x + y;
  mul = λ x y. x * y / 1000;
  div = λ x y. x * 1000 / y;
  negate = λ x. 0;
  maximum = λ x y. max x y;
  lt = λ x y. ltb x y;
  le = λ x y. leb x y;
  same = λ x y. x == y;
  pow = λ x y. x;
  log2 = λ x. x;
  absolute = λ x. x;
  floor = λ x. x / 1000 * 1000;
  is_finite = λ x. true;
}
