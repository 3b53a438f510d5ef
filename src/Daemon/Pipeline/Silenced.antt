-- ===== src/Daemon/Pipeline/Silenced.antt =====
-- src/feed/coinbase_daemon_main.cpp: what a sample that is not a number does to the layers. The price of a
-- ticker goes through `strtod`, which reads such texts as "nan".
use jisa.Prelude.{
  ℕ, ◌≡◌, refl, sym, subst, ◌≢◌, ◌⊎◌, inl, inr, Bool, true, false, List, [], ◌∷◌, ◌++◌, ◌==◌,
  if◌then◌else◌, Bool-cases, ==_iff, All, All-append,
}
use jisa.Prelude.Dict.{nat_key, bytes_key}
use jisa.Double.{Double, Arith, zero_d}
use jisa.Double.Nan.{IsNan, PassesNan, lt_d-nan_left, lt_d-nan_right}
use jisa.Detect.Baseline.Poisoned.{Poisoned, update-Poisoned, zscore-Poisoned}
use jisa.Detect.Rules.Nan.{check-nan}
use jisa.Core.Message.{Message}
use jisa.Detect.Rules.{RuleResult, check}
use jisa.Detect.Baseline.{Baseline, zscore}
use jisa.Detect.Cusum.{update_and_check}
use jisa.Detect.Conformal.{threshold, is_anomalous}
use jisa.Daemon.Alerts.{Layer, Detail, Alert}
use jisa.Daemon.Pipeline.{
  Detectors, cusum_config, conformal_alpha, score_of, conformal_alerts, rule_alerts, alert_of,
  detect,
}
use jisa.Daemon.EndToEnd.{detect_all}
use jisa.Daemon.Streams.{alerts_of, alerts_of-append, alerts_of-other, ==_false→ne, detect-From}

module _ (fp : Arith) (nan : PassesNan fp) where
  pub score_of-Poisoned :
      (m : Message) (b : Baseline) → Poisoned m.stream_id b → IsNan (score_of fp m b)
  unfolding score_of
  score_of-Poisoned m b p =
      let z = zscore-Poisoned fp nan m.stream_id m.value b p in
      rw (lt_d-nan_left (zscore fp m.stream_id m.value b) zero_d z) z

-- No alert of the conformal layer.
abbrev pub NotConformal : List Alert → Type 0
NotConformal = All (λ a. a.layer ≢ Layer.conformal)

append-NotConformal :
    (xs ys : List Alert) → NotConformal xs → NotConformal ys → NotConformal (xs ++ ys)
append-NotConformal xs ys v w = All-append _ xs ys v w

alerts_of-NotConformal : (s : ℕ) (xs : List Alert) → NotConformal xs → NotConformal (alerts_of s xs)
alerts_of-NotConformal s [] v = tt
alerts_of-NotConformal s (a ∷ xs) v = elim (Bool-cases (a.stream_id == s)) [
  | inl mine ↦ rw mine (v.0, alerts_of-NotConformal s xs v.1)
  | inr other ↦ rw other (alerts_of-NotConformal s xs v.1)
]

rule_alerts-NotConformal : (m : Message) (r : RuleResult) → NotConformal (rule_alerts m r)
rule_alerts-NotConformal m RuleResult.ok = tt
rule_alerts-NotConformal m RuleResult.out_of_bounds = ((λ e. cc), tt)
rule_alerts-NotConformal m RuleResult.rate_violation = ((λ e. cc), tt)

cusum-NotConformal :
    (m : Message) (fired : Bool)
    → NotConformal (if fired then alert_of m Layer.cusum Detail.changepoint else [])
cusum-NotConformal m true = ((λ e. cc), tt)
cusum-NotConformal m false = tt

module _ (fp : Arith) (nan : PassesNan fp) where
  pub conformal_alerts-nan :
      (m : Message) (score : Double) (d : Detectors)
      → IsNan score
      → conformal_alerts fp m score d.conformal ≡ []
  unfolding is_anomalous
  conformal_alerts-nan m score d e =
      rw (lt_d-nan_right (threshold fp m.stream_id conformal_alpha d.conformal) score e) refl

  detect-Poisoned :
      (m : Message) (d : Detectors)
      → Poisoned m.stream_id d.baseline
      → NotConformal (detect fp m d).1
  unfolding detect
  detect-Poisoned m d p =
      let verdict = (check fp m.stream_id (m.value, m.ts_ns) d.rules).1 in
      let fired = (update_and_check fp cusum_config m.stream_id m.value d.cusum).1 in
      let score = score_of fp m d.baseline in
      let none_left = conformal_alerts-nan m score d (score_of-Poisoned fp nan m d.baseline p) in
      append-NotConformal (rule_alerts m verdict) _ (rule_alerts-NotConformal m verdict) (
        append-NotConformal (if fired then alert_of m Layer.cusum Detail.changepoint else [])
          (conformal_alerts fp m score d.conformal) (cusum-NotConformal m fired)
          (subst NotConformal (sym none_left) tt))

  pub baseline-detect :
      (m : Message) (s : ℕ) (d : Detectors)
      → (IsNan m.value × (m.stream_id ≡ s)) ⊎ Poisoned s d.baseline
      → Poisoned s (detect fp m d).0.baseline
  unfolding detect
  baseline-detect m s d p = update-Poisoned fp nan m.stream_id s m.value d.baseline p

  detect_all-Poisoned :
      (s : ℕ) (ms : List Message) (d : Detectors)
      → Poisoned s d.baseline
      → NotConformal (alerts_of s (detect_all fp ms d).1)
  unfolding detect_all
  detect_all-Poisoned s [] d p = tt
  detect_all-Poisoned s (m ∷ ms) d p =
      let now = (detect fp m d).1 in
      let rest = detect_all-Poisoned s ms (detect fp m d).0 (baseline-detect m s d (inr p)) in
      subst NotConformal (sym (alerts_of-append s now (detect_all fp ms (detect fp m d).0).1))
        (append-NotConformal _ _ (first (Bool-cases (m.stream_id == s))) rest)
    where
      first :
          ((m.stream_id == s) ≡ true) ⊎ ((m.stream_id == s) ≡ false)
          → NotConformal (alerts_of s (detect fp m d).1)
      first (inl mine) = alerts_of-NotConformal s (detect fp m d).1 (
          detect-Poisoned m d
            (subst (λ k. Poisoned k d.baseline) (sym ((==_iff m.stream_id s).0 mine)) p))
      first (inr other) =
          subst NotConformal
            (sym (
              alerts_of-other m.stream_id s (detect fp m d).1 (==_false→ne m.stream_id s other)
                (detect-From fp m d)))
            tt

-- If an operation on a NaN gives a NaN: a message whose value is NaN breaks no rule, and after it, whatever
-- messages follow on any streams, the conformal layer raises no alert on the stream of that message.
nan_silences :
    (fp : Arith) (m : Message) (ms : List Message) (d : Detectors)
    → PassesNan fp
    → IsNan m.value
    → ((check fp m.stream_id (m.value, m.ts_ns) d.rules).1 ≡ RuleResult.ok)
      × NotConformal (alerts_of m.stream_id (detect_all fp ms (detect fp m d).0).1)
nan_silences fp m ms d nan e = (
  check-nan fp nan m.stream_id m.value m.ts_ns d.rules e,
  detect_all-Poisoned fp nan m.stream_id ms (detect fp m d).0
      (baseline-detect fp nan m m.stream_id d (inl (e, refl))),
)
