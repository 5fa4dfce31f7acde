-- ===== src/Base/Hundredths.antt =====
-- Floats for the examples, in hundredths.
use Prim.Native.Nat.{ℕ, ◌+◌, ◌-◌, ◌*◌, ◌/◌}
use airplay.Base.Tests.{ltb}
use airplay.Base.Int.{pos, pos_part}
use airplay.Base.Float.{Float}

abbrev pub hundredths : Float
hundredths = record {
  F = ℕ;
  lt = ltb;
  zero_f = 0;
  one_f = 100;
  half_f = 50;
  step_f = 5;
  add_f = λ x y. x + y;
  sub_f = λ x y. x - y;
  mul_f = λ x y. x * y / 100;
  div_f = λ x y. x * 100 / y;
  of_long = λ n. pos_part n * 100;
  to_long = λ x. pos (x / 100);
}
