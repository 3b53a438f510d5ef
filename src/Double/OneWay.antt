-- ===== src/Double/OneWay.antt =====
-- `double`: in which direction rounded sums and differences go.
use jisa.Prelude.{◌≡◌, false}
use jisa.Double.{Double, Arith, zero_d, lt_d}

-- IEEE 754: adding zero leaves the value, adding a number that is not below zero does not go down, and
-- subtracting one does not go up.
pub record MovesOneWay (fp : Arith) : Type 0 where
  pub add_zero : (a : Double) → lt_d a (fp.add a zero_d) ≡ false
  pub add_up : (a b : Double) → lt_d b zero_d ≡ false → lt_d (fp.add a b) a ≡ false
  pub sub_down : (a b : Double) → lt_d b zero_d ≡ false → lt_d a (fp.sub a b) ≡ false
