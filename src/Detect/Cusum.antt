-- ===== src/Detect/Cusum.antt =====
-- include/detect/cusum.hpp: CusumDetector. The rounding operations of `double` are a parameter, and
-- `count` is a `size_t` that wraps.
pub mod Warmup
pub mod Idle
pub mod Poisoned
use jisa.Prelude.{
  ℕ, ◌+◌, ◌%◌, ◌^◌, Bool, true, false, ◌||◌, Option, none, some, [], ltb, ◌==◌, if◌then◌else◌,
}
use jisa.Prelude.Dict.{Dict, nat_key, bytes_key, find, put}
use jisa.Double.{Double, Arith, zero_d, one_d, lt_d, neg_d, fmax_d, fmin_d}

pub record State : Type 0 where
  pub count : ℕ
  pub mean : Double
  pub var : Double
  pub s_pos : Double
  pub s_neg : Double

pub record Config : Type 0 where
  pub alpha : Double
  pub k : Double
  pub h : Double
  pub warmup_n : ℕ

abbrev pub or_fresh : Option State → State
or_fresh none = record { count = 0; mean = zero_d; var = zero_d; s_pos = zero_d; s_neg = zero_d }
or_fresh (some st) = st

abbrev pub add_one : ℕ → ℕ
add_one n = (n + 1) % 2 ^ 64

module _ (fp : Arith) (c : Config) where
  open fp use {add, sub, mul, div, sqrt}
  open c use {alpha, k, h, warmup_n}

  abbrev pub seed : Double → State
  seed value = record { count = 1; mean = value; var = zero_d; s_pos = zero_d; s_neg = zero_d }

  -- The mean, the variance and the count after one more sample.
  unfoldable pub refine : Double → State → State
  refine value st =
      let diff = sub value st.mean in
      record st {
        mean = add (mul (sub one_d alpha) st.mean) (mul alpha value);
        var = add (mul (sub one_d alpha) st.var) (mul (mul alpha diff) diff);
        count = add_one st.count;
      }

  unfoldable pub residual_of : Double → State → Double
  residual_of value st =
      if lt_d zero_d st.var then div (sub value st.mean) (sqrt st.var) else zero_d

  -- The sums after one more residual, and whether one of them is past the threshold.
  unfoldable pub accumulate : Double → State → State × Bool
  accumulate residual st =
      let s_pos = fmax_d zero_d (sub (add st.s_pos residual) k) in
      let s_neg = fmin_d zero_d (add (add st.s_neg residual) k) in
      if lt_d h s_pos || lt_d s_neg (neg_d h)
      then (record st { s_pos = zero_d; s_neg = zero_d }, true)
      else (record st { s_pos = s_pos; s_neg = s_neg }, false)

  -- One update of one stream.
  unfoldable pub advance : Double → State → State × Bool
  advance value st =
      if st.count == 0
      then (seed value, false)
      else if ltb st.count warmup_n
      then (refine value st, false)
      else accumulate (residual_of value st) (refine value st)

  unfoldable pub update_and_check : ℕ → Double → Dict ℕ State → Dict ℕ State × Bool
  update_and_check stream_id value m =
      let (st, fired) = advance value (or_fresh (find stream_id m)) in (put stream_id st m, fired)
