-- ===== src/Base/Float.antt =====
-- What the code uses of C's `float`. The numbers themselves are a parameter: `F` may have infinities
-- and a NaN, and the laws are those that IEEE 754 gives all of them.
use mathlib.Core.Path.{◌≡◌}
use mathlib.Core.Bool.{Bool, false}
use airplay.Base.Int.{ℤ}

pub record Float : Type 1 where
  pub F : Type 0
  -- a < b, false where one of them is NaN
  pub lt : F → F → Bool
  pub zero_f : F
  pub one_f : F
  pub half_f : F
  -- 0.05f
  pub step_f : F
  pub add_f : F → F → F
  pub sub_f : F → F → F
  pub mul_f : F → F → F
  pub div_f : F → F → F
  -- (float) n, and (long) x
  pub of_long : ℤ → F
  pub to_long : F → ℤ

-- The laws that the volume's bounds rest on.
pub record FloatLaws (fl : Float) : Type 0 where
  pub zero_not_negative : fl.lt fl.zero_f fl.zero_f ≡ false
  pub one_not_negative : fl.lt fl.one_f fl.zero_f ≡ false
  pub one_le_one : fl.lt fl.one_f fl.one_f ≡ false
  pub half_not_negative : fl.lt fl.half_f fl.zero_f ≡ false
  pub half_le_one : fl.lt fl.one_f fl.half_f ≡ false
  -- a step up takes nothing below 0, and a step down takes nothing above 1
  pub step_up :
      (x : fl.F) → fl.lt x fl.zero_f ≡ false → fl.lt (fl.add_f x fl.step_f) fl.zero_f ≡ false
  pub step_down :
      (x : fl.F) → fl.lt fl.one_f x ≡ false → fl.lt fl.one_f (fl.sub_f x fl.step_f) ≡ false
