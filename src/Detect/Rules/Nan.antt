-- ===== src/Detect/Rules/Nan.antt =====
-- include/detect/rules.hpp: a value that is NaN breaks no rule.
use jisa.Prelude.{ℕ, ◌≡◌, refl, inl, inr, Bool, false, ◌||◌, arith, if◌then◌else◌, Option-cases}
use jisa.Prelude.Int.{ℤ}
use jisa.Prelude.Dict.{nat_key, bytes_key, find}
use jisa.Double.{Double, Arith, zero_d}
use jisa.Double.Nan.{IsNan, PassesNan, lt_d-nan_left, lt_d-nan_right}
use jisa.Detect.Rules
use jisa.Detect.Rules.{RuleResult, check, judge, rate_of}

no_branch :
    (low high timed fast : Bool)
    → low ≡ false
    → high ≡ false
    → fast ≡ false
    → (if low || high
        then RuleResult.out_of_bounds
        else if timed
        then (if fast then RuleResult.rate_violation else RuleResult.ok)
        else RuleResult.ok)
      ≡ RuleResult.ok
no_branch low high timed fast p q r = ground (arith, p, q, r)

module _ (fp : Arith) (nan : PassesNan fp) where
  rate_of-nan :
      (st : Rules.State) (value : Double) (ts_ns : ℤ)
      → IsNan value
      → IsNan (rate_of fp st value ts_ns)
  unfolding rate_of
  rate_of-nan st value ts_ns e =
      let dv = nan.sub_left value st.prev_value e in
      nan.div_left _ _ (rw (lt_d-nan_left (fp.sub value st.prev_value) zero_d dv) dv)

  judge-nan :
      (st : Rules.State) (value : Double) (ts_ns : ℤ)
      → IsNan value
      → judge fp st value ts_ns ≡ RuleResult.ok
  unfolding judge
  judge-nan st value ts_ns e =
      no_branch _ _ _ _ (lt_d-nan_left value st.cfg.min e) (lt_d-nan_right st.cfg.max value e) (
        lt_d-nan_right st.cfg.max_rate_of_change (rate_of fp st value ts_ns)
          (rate_of-nan st value ts_ns e))

  pub check-nan :
      (k : ℕ) (value : Double) (ts_ns : ℤ) (rules : Rules.Rules)
      → IsNan value
      → (check fp k (value, ts_ns) rules).1 ≡ RuleResult.ok
  unfolding check
  check-nan k value ts_ns rules e = elim (Option-cases (find k rules)) [
    | inl free ↦ rw (free, check) refl
    | inr (st, bound) ↦ rw (bound, check) (judge-nan st value ts_ns e)
  ]
