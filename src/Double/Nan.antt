-- ===== src/Double/Nan.antt =====
-- `double`: what the operations do with a NaN.
use jisa.Prelude.{◌≡◌, refl, true, false, arith}
use jisa.Double.{Double, Arith, is_nan, lt_d, eq_d}

abbrev pub IsNan : Double → Type 0
IsNan x = is_nan x ≡ true

-- IEEE 754: an operation on a NaN gives a NaN.
pub record PassesNan (fp : Arith) : Type 0 where
  pub add_left : (a b : Double) → IsNan a → IsNan (fp.add a b)
  pub add_right : (a b : Double) → IsNan b → IsNan (fp.add a b)
  pub sub_left : (a b : Double) → IsNan a → IsNan (fp.sub a b)
  pub sub_right : (a b : Double) → IsNan b → IsNan (fp.sub a b)
  pub mul_left : (a b : Double) → IsNan a → IsNan (fp.mul a b)
  pub mul_right : (a b : Double) → IsNan b → IsNan (fp.mul a b)
  pub div_left : (a b : Double) → IsNan a → IsNan (fp.div a b)

pub lt_d-nan_left : (a b : Double) → IsNan a → lt_d a b ≡ false
lt_d-nan_left a b e = rw e refl

pub lt_d-nan_right : (a b : Double) → IsNan b → lt_d a b ≡ false
lt_d-nan_right a b e = ground (arith, e)

pub eq_d-nan_left : (a b : Double) → IsNan a → eq_d a b ≡ false
eq_d-nan_left a b e = rw e refl
