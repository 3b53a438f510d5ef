-- ===== src/Detect/Baseline.antt =====
-- include/detect/baseline.hpp: EwmaBaseline. The rounding operations of `double` are a parameter.
pub mod Streams
pub mod Poisoned
use jisa.Prelude.{ℕ, Option, none, some, if◌then◌else◌}
use jisa.Prelude.Dict.{Dict, nat_key, bytes_key, find, put}
use jisa.Double.{Double, Arith, zero_d, one_d, eq_d}

pub record State : Type 0 where
  pub mean : Double
  pub var : Double

pub record Baseline : Type 0 where
  pub alpha : Double
  pub state : Dict ℕ State

abbrev pub or_fresh : Option State → State
or_fresh none = record { mean = zero_d; var = zero_d }
or_fresh (some st) = st

module _ (fp : Arith) where
  open fp use {add, sub, mul, div, sqrt}

  -- The next mean and variance, from the ones before.
  unfoldable pub ewma : Double → Double → Double → Double → State
  ewma alpha mean var value =
      let diff = sub value mean in
      record {
        mean = add (mul (sub one_d alpha) mean) (mul alpha value);
        var = add (mul (sub one_d alpha) var) (mul (mul alpha diff) diff);
      }

  unfoldable pub update : ℕ → Double → Baseline → Baseline
  update stream_id value b =
      let st = or_fresh (find stream_id b.state) in
      record b { state = put stream_id (ewma b.alpha st.mean st.var value) b.state }

  unfoldable pub zscore : ℕ → Double → Baseline → Double
  zscore stream_id value b = elim (find stream_id b.state) [
    | none ↦ zero_d
    | some st ↦ if eq_d st.var zero_d then zero_d else div (sub value st.mean) (sqrt st.var)
  ]

unfoldable pub mean : ℕ → Baseline → Double
mean stream_id b = elim (find stream_id b.state) [ none ↦ zero_d | some st ↦ st.mean ]

unfoldable pub variance : ℕ → Baseline → Double
variance stream_id b = elim (find stream_id b.state) [ none ↦ zero_d | some st ↦ st.var ]
