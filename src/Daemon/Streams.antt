-- ===== src/Daemon/Streams.antt =====
-- src/feed/coinbase_daemon_main.cpp: the alerts of one stream, whatever else the feed carries.
use jisa.Prelude.{
  ℕ, ◌≡◌, refl, sym, ap, subst, ◌∙◌, ◌≢◌, inl, inr, Bool, true, false, List, [], ◌∷◌, ◌++◌, arith,
  ◌==◌, if◌then◌else◌, Bool-cases, ==_iff, ne→==_false, All, All-append,
}
use jisa.Prelude.Dict.{nat_key, bytes_key}
use jisa.Double.{Arith}
use jisa.Core.Message.{Message}
use mathlib.Core.Path.{ap₂}
use jisa.Detect.Rules.{RuleResult, check}
use jisa.Detect.Cusum.{update_and_check}
use jisa.Detect.Conformal.{is_anomalous}
use jisa.Daemon.Alerts.{Layer, Detail, Alert}
use jisa.Daemon.Pipeline.{
  Detectors, cusum_config, conformal_alpha, score_of, rule_alerts, alert_of, detect,
}
use jisa.Daemon.Pipeline.Isolation.{Agree, Agree-own, Agree-other}
use jisa.Daemon.EndToEnd.{detect_all}

abbrev pub messages_of : ℕ → List Message → List Message
messages_of s [] = []
messages_of s (m ∷ ms) = let rest = messages_of s ms in if m.stream_id == s then m ∷ rest else rest

abbrev pub alerts_of : ℕ → List Alert → List Alert
alerts_of s [] = []
alerts_of s (a ∷ more) = let rest = alerts_of s more in if a.stream_id == s then a ∷ rest else rest

pub ==_false→ne : (a b : ℕ) → (a == b) ≡ false → a ≢ b
==_false→ne a b e = ground arith

pub alerts_of-append :
    (s : ℕ) (xs ys : List Alert) → alerts_of s (xs ++ ys) ≡ alerts_of s xs ++ alerts_of s ys
alerts_of-append s [] ys = refl
alerts_of-append s (a ∷ xs) ys = elim (Bool-cases (a.stream_id == s)) [
  | inl same ↦ rw same (ap (λ l. a ∷ l) (alerts_of-append s xs ys))
  | inr other ↦ rw other (alerts_of-append s xs ys)
]

abbrev pub From : ℕ → List Alert → Type 0
From s = All (λ a. a.stream_id ≡ s)

alerts_of-own : (s : ℕ) (xs : List Alert) → From s xs → alerts_of s xs ≡ xs
alerts_of-own s [] _ = refl
alerts_of-own s (a ∷ xs) (e, rest) =
    rw ((==_iff a.stream_id s).1 e) (ap (λ l. a ∷ l) (alerts_of-own s xs rest))

pub alerts_of-other : (k s : ℕ) (xs : List Alert) → k ≢ s → From k xs → alerts_of s xs ≡ []
alerts_of-other k s [] ne _ = refl
alerts_of-other k s (a ∷ xs) ne (e, rest) =
    rw (ne→==_false a.stream_id s (λ q. ne (sym e ∙ q))) (alerts_of-other k s xs ne rest)

module _ (fp : Arith) (m : Message) where
  alert_of-From : (layer : Layer) (detail : Detail) → From m.stream_id (alert_of m layer detail)
  alert_of-From layer detail = (refl, tt)

  rule_alerts-From : (r : RuleResult) → From m.stream_id (rule_alerts m r)
  rule_alerts-From RuleResult.ok = tt
  rule_alerts-From RuleResult.out_of_bounds = (refl, tt)
  rule_alerts-From RuleResult.rate_violation = (refl, tt)

  when-From :
      (b : Bool) (layer : Layer) (detail : Detail)
      → From m.stream_id (if b then alert_of m layer detail else [])
  when-From true layer detail = alert_of-From layer detail
  when-From false layer detail = tt

  pub detect-From : (d : Detectors) → From m.stream_id (detect fp m d).1
  unfolding detect
  detect-From d =
      All-append _ _ _ (rule_alerts-From (check fp m.stream_id (m.value, m.ts_ns) d.rules).1) (
        All-append _ _ _
          (when-From (update_and_check fp cusum_config m.stream_id m.value d.cusum).1 _ _)
          (when-From
            (is_anomalous fp m.stream_id (score_of fp m d.baseline) conformal_alpha d.conformal) _
            _))

-- What the daemon reports of a stream is what it reports when it gets the messages of that stream only:
-- for detectors that agree on the stream, whatever they know of others.
pub alerts_of-detect_all :
    (fp : Arith) (s : ℕ) (ms : List Message) (d d' : Detectors)
    → Agree s d d'
    → alerts_of s (detect_all fp ms d).1 ≡ (detect_all fp (messages_of s ms) d').1
unfolding detect_all
alerts_of-detect_all fp s [] d d' v = refl
alerts_of-detect_all fp s (m ∷ ms) d d' v =
    alerts_of-append s (detect fp m d).1 (detect_all fp ms (detect fp m d).0).1
    ∙ elim (Bool-cases (m.stream_id == s)) [
      | inl same ↦
          let e = (==_iff m.stream_id s).0 same in
          let v' = subst (λ t. Agree t d d') (sym e) v in
          let own = Agree-own fp m d d' v' in
          rw same (
            ap₂ ◌++◌
              (alerts_of-own s (detect fp m d).1
                  (subst (λ t. From t (detect fp m d).1) e (detect-From fp m d))
                ∙ own.0)
              (alerts_of-detect_all fp s ms (detect fp m d).0 (detect fp m d').0
                (subst (λ t. Agree t (detect fp m d).0 (detect fp m d').0) e own.1)))
      | inr other ↦
          let ne = ==_false→ne m.stream_id s other in
          rw (other, alerts_of-other m.stream_id s (detect fp m d).1 ne (detect-From fp m d))
            (alerts_of-detect_all fp s ms (detect fp m d).0 d' (Agree-other fp m s d d' ne v))
    ]
