-- ===== src/Detect/Rules.antt =====
-- include/detect/rules.hpp: RuleChecker. The hash map of bound rules is a dictionary.
pub mod Laws
pub mod Nan
use jisa.Prelude.{ℕ, min, Bool, true, false, ◌&&◌, ◌||◌, none, some, [], if◌then◌else◌}
use jisa.Prelude.Int.{ℤ, pos, ◌-ℤ◌, ltb_ℤ}
use jisa.Prelude.Dict.{Dict, nat_key, bytes_key, find, put}
use jisa.Double.{Double, Arith, zero_d, billion_d, lt_d, neg_d}

pub data RuleResult : Type 0 where
  ok out_of_bounds rate_violation : RuleResult

pub record RuleConfig : Type 0 where
  pub stream_id : ℕ
  pub min : Double
  pub max : Double
  pub max_rate_of_change : Double

pub record State : Type 0 where
  pub cfg : RuleConfig
  pub prev_value : Double
  pub prev_ts_ns : ℤ
  pub has_prev : Bool

abbrev pub Rules : Type 0
Rules = Dict ℕ State

unfoldable pub add_rule : RuleConfig → Rules → Rules
add_rule cfg rules =
    put cfg.stream_id
      (record { cfg = cfg; prev_value = zero_d; prev_ts_ns = pos 0; has_prev = false }) rules

module _ (fp : Arith) where
  open fp use {sub, div, of_int}

  -- |dv| / dt, with dt in seconds
  unfoldable pub rate_of : State → Double → ℤ → Double
  rate_of st value ts_ns =
      let dt = div (of_int (ts_ns -ℤ st.prev_ts_ns)) billion_d in
      let dv = sub value st.prev_value in div (if lt_d dv zero_d then neg_d dv else dv) dt

  -- The result for a stream that has a rule.
  unfoldable pub judge : State → Double → ℤ → RuleResult
  judge st value ts_ns =
      if lt_d value st.cfg.min || lt_d st.cfg.max value
      then out_of_bounds
      else if st.has_prev && ltb_ℤ st.prev_ts_ns ts_ns
      then (if lt_d st.cfg.max_rate_of_change (rate_of st value ts_ns) then rate_violation else ok)
      else ok

  abbrev pub remember : State → Double → ℤ → State
  remember st value ts_ns = record st { prev_value = value; prev_ts_ns = ts_ns; has_prev = true }

  unfoldable pub check : ℕ → Double × ℤ → Rules → Rules × RuleResult
  check stream_id (value, ts_ns) rules = elim (find stream_id rules) [
    | none ↦ (rules, ok)
    | some st ↦ (put stream_id (remember st value ts_ns) rules, judge st value ts_ns)
  ]
