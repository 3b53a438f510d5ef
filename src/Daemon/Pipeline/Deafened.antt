-- ===== src/Daemon/Pipeline/Deafened.antt =====
-- src/feed/coinbase_daemon_main.cpp: after a sample that is not a number only the rules are left.
use jisa.Prelude.{
  ℕ, suc, ◌+◌, ◌^◌, ◌<◌, ◌≡◌, refl, sym, subst, inl, inr, List, [], ◌∷◌, ◌++◌, ◌==◌, Bool-cases,
  ==_iff, All, All-append, arith, length,
}
use jisa.Prelude.Dict.{nat_key, bytes_key, find}
use jisa.Double.{Arith}
use jisa.Double.Nan.{IsNan, PassesNan}
use jisa.Core.Message.{Message}
use jisa.Detect.Rules.{Rules, RuleResult, check}
use jisa.Detect.Rules.Nan.{check-nan}
use jisa.Double.OneWay.{MovesOneWay}
use jisa.Detect.Cusum.Idle.{Sane}
use jisa.Detect.Cusum.Poisoned.{Deaf, Fit, update-Fit, update-Deaf, update-quiet}
use jisa.Detect.Baseline.Poisoned.{Poisoned}
use jisa.Daemon.Alerts.{Layer, Alert}
use jisa.Daemon.Pipeline.{Detectors, new_detectors, cusum_config, score_of, rule_alerts, detect}
use jisa.Daemon.Pipeline.Silenced.{score_of-Poisoned, conformal_alerts-nan, baseline-detect}
use jisa.Daemon.EndToEnd.{detect_all}
use jisa.Daemon.Streams.{alerts_of, alerts_of-append, alerts_of-other, ==_false→ne, detect-From}

-- Alerts of the rules layer only.
abbrev pub OnlyRules : List Alert → Type 0
OnlyRules = All (λ a. a.layer ≡ Layer.rules)

alerts_of-OnlyRules : (s : ℕ) (xs : List Alert) → OnlyRules xs → OnlyRules (alerts_of s xs)
alerts_of-OnlyRules s [] v = tt
alerts_of-OnlyRules s (a ∷ xs) v = elim (Bool-cases (a.stream_id == s)) [
  | inl mine ↦ rw mine (v.0, alerts_of-OnlyRules s xs v.1)
  | inr other ↦ rw other (alerts_of-OnlyRules s xs v.1)
]

rule_alerts-OnlyRules : (m : Message) (r : RuleResult) → OnlyRules (rule_alerts m r ++ ([] ++ []))
rule_alerts-OnlyRules m RuleResult.ok = tt
rule_alerts-OnlyRules m RuleResult.out_of_bounds = (refl, tt)
rule_alerts-OnlyRules m RuleResult.rate_violation = (refl, tt)

cusum_config-Sane : Sane cusum_config
cusum_config-Sane = record { k = refl; h = refl; neg_h = refl }

module _ (fp : Arith) (nan : PassesNan fp) (one_way : MovesOneWay fp) where
  -- The two layers that keep statistics have lost the stream, for `n` more messages at least.
  abbrev Gone : ℕ → ℕ → Detectors → Type 0
  Gone s n d =
      Poisoned s d.baseline × Deaf fp nan one_way cusum_config cusum_config-Sane s n d.cusum

  detect-Gone :
      (m : Message) (s n : ℕ) (d : Detectors) → Gone s (suc n) d → Gone s n (detect fp m d).0
  unfolding detect
  detect-Gone m s n d v = (
    baseline-detect fp nan m s d (inr v.0),
    update-Deaf fp nan one_way cusum_config cusum_config-Sane m.stream_id s n m.value d.cusum
        (inr v.1),
  )

  detect-OnlyRules :
      (m : Message) (n : ℕ) (d : Detectors) → Gone m.stream_id n d → OnlyRules (detect fp m d).1
  unfolding detect
  detect-OnlyRules m n d v =
      let score = score_of fp m d.baseline in
      rw
        (
          update-quiet fp nan one_way cusum_config cusum_config-Sane m.stream_id n m.value d.cusum
              v.1,
          conformal_alerts-nan fp nan m score d (score_of-Poisoned fp nan m d.baseline v.0),
        )
        (rule_alerts-OnlyRules m (check fp m.stream_id (m.value, m.ts_ns) d.rules).1)

  now-OnlyRules :
      (m : Message) (s n : ℕ) (d : Detectors)
      → Gone s n d
      → OnlyRules (alerts_of s (detect fp m d).1)
  now-OnlyRules m s n d v = elim (Bool-cases (m.stream_id == s)) [
    | inl mine ↦
        alerts_of-OnlyRules s (detect fp m d).1
          (detect-OnlyRules m n d (subst (λ k. Gone k n d) (sym ((==_iff m.stream_id s).0 mine)) v))
    | inr other ↦
        subst OnlyRules
          (sym (
            alerts_of-other m.stream_id s (detect fp m d).1 (==_false→ne m.stream_id s other)
              (detect-From fp m d)))
          tt
  ]

  detect_all-OnlyRules :
      (s : ℕ) (ms : List Message) (d : Detectors)
      → Gone s (length ms) d
      → OnlyRules (alerts_of s (detect_all fp ms d).1)
  unfolding detect_all
  detect_all-OnlyRules s [] d v = tt
  detect_all-OnlyRules s (m ∷ ms) d v =
      let rest = detect_all-OnlyRules s ms (detect fp m d).0 (detect-Gone m s (length ms) d v) in
      subst OnlyRules
        (sym (alerts_of-append s (detect fp m d).1 (detect_all fp ms (detect fp m d).0).1))
        (All-append _ _ _ (now-OnlyRules m s (suc (length ms)) d v) rest)

  abbrev Held : ℕ → ℕ → Detectors → Type 0
  Held s n d = Fit fp nan one_way cusum_config cusum_config-Sane s n d.cusum

  detect_all-Fit :
      (s n : ℕ) (ms : List Message) (d : Detectors)
      → Held s (length ms + n) d
      → Held s n (detect_all fp ms d).0
  unfolding detect_all detect
  detect_all-Fit s n [] d v = subst (λ k. Held s k d) (omega arith) v
  detect_all-Fit s n (m ∷ ms) d v = detect_all-Fit s n ms (detect fp m d).0 (
      update-Fit fp nan one_way cusum_config cusum_config-Sane m.stream_id s (length ms + n) m.value
        d.cusum (subst (λ k. Held s k d) (omega arith) v))

  detect-nan :
      (m : Message) (n : ℕ) (d : Detectors)
      → IsNan m.value
      → Held m.stream_id (suc n) d
      → Gone m.stream_id n (detect fp m d).0
  unfolding detect
  detect-nan m n d e v = (
    baseline-detect fp nan m m.stream_id d (inl (e, refl)),
    update-Deaf fp nan one_way cusum_config cusum_config-Sane m.stream_id m.stream_id n m.value
        d.cusum (inl (refl, e, v)),
  )

-- For arithmetic that gives a NaN for a NaN, for which adding zero or more does not go down, subtracting zero or
-- more does not go up, and adding zero does not go up: in new detectors, with fewer than 2 ^ 64 messages in
-- all, a message whose value is NaN breaks no rule, and every alert that later messages raise on its stream is
-- one of the rules layer.
pub nan_leaves_rules :
    (fp : Arith) (rules : Rules) (before : List Message) (m : Message) (after : List Message)
    → PassesNan fp
    → MovesOneWay fp
    → length before + suc (length after) < 2 ^ 64
    → IsNan m.value
    → let d = (detect_all fp before (new_detectors rules)).0 in
      ((check fp m.stream_id (m.value, m.ts_ns) d.rules).1 ≡ RuleResult.ok)
      × OnlyRules (alerts_of m.stream_id (detect_all fp after (detect fp m d).0).1)
unfolding find
nan_leaves_rules fp rules before m after nan one_way few e =
    let d = (detect_all fp before (new_detectors rules)).0 in
    let held =
      detect_all-Fit fp nan one_way m.stream_id (suc (length after)) before (new_detectors rules)
        (record { room = omega (arith, few); within = (refl, refl) }) in
    (
      check-nan fp nan m.stream_id m.value m.ts_ns d.rules e,
      detect_all-OnlyRules fp nan one_way m.stream_id after (detect fp m d).0
          (detect-nan fp nan one_way m (length after) d e held),
    )
