-- ===== src/Detect/Rules/Laws.antt =====
-- include/detect/rules.hpp: what `check` answers, and that streams do not mix.
use jisa.Prelude.{
  ℕ, ◌≡◌, refl, ap, ◌∙◌, inl, inr, Bool, true, false, ◌&&◌, ◌||◌, Option, none, some, List, [], ◌∷◌,
  arith, ◌==◌, if◌then◌else◌, Option-cases, ==_iff,
}
use jisa.Prelude.Int.{ℤ, pos, ◌-ℤ◌, ltb_ℤ}
use jisa.Prelude.Dict.{nat_key, bytes_key, find, find-put}
use jisa.Double.{Double, Arith, zero_d, billion_d, lt_d, neg_d}
use mathlib.Core.Path.{ap₂}
use jisa.Detect.PerStream.{PerStream, results_of, results, samples_of, results_of-results}
use jisa.Detect.Rules.{
  RuleResult, RuleConfig, State, Rules, add_rule, rate_of, judge, remember, check,
}

nested_if :
    {A : Type 0} (a b : Bool) (x y : A)
    → (if a then (if b then x else y) else y) ≡ (if a && b then x else y)
nested_if true b x y = refl
nested_if false b x y = refl

module _ (fp : Arith) where
  -- One stream's rule and previous sample.
  abbrev pub check_one : Option State → Double × ℤ → Option State × RuleResult
  check_one none x = (none, RuleResult.ok)
  check_one (some st) (value, ts_ns) = (some (remember fp st value ts_ns), judge fp st value ts_ns)

  pub check_result :
      (k : ℕ) (x : Double × ℤ) (m : Rules) → (check fp k x m).1 ≡ (check_one (find k m) x).1
  unfolding check
  check_result k (v, t) m = ground arith

  pub check_state :
      (k j : ℕ) (x : Double × ℤ) (m : Rules)
      → find j (check fp k x m).0 ≡ (if k == j then (check_one (find k m) x).0 else find j m)
  unfolding check
  check_state k j (v, t) m = elim (Option-cases (find k m)) [
    | inl e ↦ rw (e, check) (ground (arith, ==_iff k j, e))
    | inr (st, e) ↦ rw (e, check) (find-put k j (remember fp st v t) m)
  ]

  abbrev pub checker : PerStream State (Double × ℤ) RuleResult
  checker = record {
    feed = check fp;
    one = check_one;
    feed_result = check_result;
    feed_state = check_state;
  }

  -- The stateless reading: a sample is judged by the rule and the sample before it, if there is one.
  abbrev pub verdict : RuleConfig → Option (Double × ℤ) → Double × ℤ → RuleResult
  verdict cfg none (v, t) =
      if lt_d v cfg.min || lt_d cfg.max v then RuleResult.out_of_bounds else RuleResult.ok
  verdict cfg (some (prev_v, prev_t)) (v, t) =
      let dt = fp.div (fp.of_int (t -ℤ prev_t)) billion_d in
      let dv = fp.sub v prev_v in
      let rate = fp.div (if lt_d dv zero_d then neg_d dv else dv) dt in
      if lt_d v cfg.min || lt_d cfg.max v
      then RuleResult.out_of_bounds
      else if ltb_ℤ prev_t t && lt_d cfg.max_rate_of_change rate
      then RuleResult.rate_violation
      else RuleResult.ok

  abbrev pub verdicts : RuleConfig → Option (Double × ℤ) → List (Double × ℤ) → List RuleResult
  verdicts cfg prev [] = []
  verdicts cfg prev (x ∷ xs) = verdict cfg prev x ∷ verdicts cfg (some x) xs

  abbrev state_of : RuleConfig → Option (Double × ℤ) → State
  state_of cfg none = record {
    cfg = cfg;
    prev_value = zero_d;
    prev_ts_ns = pos 0;
    has_prev = false;
  }
  state_of cfg (some (v, t)) = record { cfg = cfg; prev_value = v; prev_ts_ns = t; has_prev = true }

  judge-verdict :
      (cfg : RuleConfig) (prev : Option (Double × ℤ)) (x : Double × ℤ)
      → judge fp (state_of cfg prev) x.0 x.1 ≡ verdict cfg prev x
  unfolding judge rate_of
  judge-verdict cfg none (v, t) = refl
  judge-verdict cfg (some (pv, pt)) (v, t) =
      ap (λ r. if lt_d v cfg.min || lt_d cfg.max v then RuleResult.out_of_bounds else r)
        (nested_if (ltb_ℤ pt t) _ RuleResult.rate_violation RuleResult.ok)

  results-verdicts :
      (cfg : RuleConfig) (prev : Option (Double × ℤ)) (xs : List (Double × ℤ))
      → results checker (some (state_of cfg prev)) xs ≡ verdicts cfg prev xs
  unfolding results
  results-verdicts cfg prev [] = refl
  results-verdicts cfg prev ((v, t) ∷ xs) =
      ap₂ ◌∷◌ (judge-verdict cfg prev (v, t))
        (next_state prev ∙ results-verdicts cfg (some (v, t)) xs)
    where
      next_state :
          (p : Option (Double × ℤ))
          → results checker (some (remember fp (state_of cfg p) v t)) xs
            ≡ results checker (some (state_of cfg (some (v, t)))) xs
      next_state none = refl
      next_state (some _) = refl

  pub check-verdicts :
      (cfg : RuleConfig) (es : List (ℕ × (Double × ℤ))) (rules : Rules)
      → results_of checker cfg.stream_id es (add_rule cfg rules)
        ≡ verdicts cfg none (samples_of cfg.stream_id es)
  unfolding add_rule
  check-verdicts cfg es rules =
      results_of-results checker cfg.stream_id es (add_rule cfg rules)
      ∙ ap (λ st. results checker st (samples_of cfg.stream_id es)) registered
      ∙ results-verdicts cfg none (samples_of cfg.stream_id es)
    where
      registered : find cfg.stream_id (add_rule cfg rules) ≡ some (state_of cfg none)
      registered =
          find-put cfg.stream_id cfg.stream_id _ rules
          ∙ rw ((==_iff cfg.stream_id cfg.stream_id).1 refl)
