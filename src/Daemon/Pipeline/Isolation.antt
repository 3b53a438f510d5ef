-- ===== src/Daemon/Pipeline/Isolation.antt =====
-- src/feed/coinbase_daemon_main.cpp: the detection layers treat each stream by itself.
use jisa.Prelude.{
  ℕ, ◌≡◌, refl, sym, ap, ◌∙◌, ◌≢◌, Bool, List, [], ◌++◌, if◌then◌else◌, ==_iff, ne→==_false,
}
use jisa.Prelude.Dict.{Dict, nat_key, bytes_key, find}
use jisa.Double.{Double, Arith, zero_d, lt_d, neg_d}
use jisa.Core.Message.{Message}
use mathlib.Core.Path.{ap₂}
use jisa.Detect.PerStream.{PerStream}
use jisa.Detect.Rules.{check}
use jisa.Detect.Rules.Laws.{checker}
use jisa.Detect.Cusum.{update_and_check}
use jisa.Detect.Cusum.Warmup.{detector}
use jisa.Detect.Baseline
use jisa.Detect.Baseline.{zscore}
use jisa.Detect.Baseline.Streams.{scorer}
use jisa.Detect.Conformal
use jisa.Detect.Conformal.{threshold, is_anomalous}
use jisa.Detect.Conformal.Streams.{judge}
use jisa.Daemon.Alerts.{Layer, Detail, Alert}
use jisa.Daemon.Pipeline.{
  Detectors, cusum_config, conformal_alpha, score_of, conformal_alerts, rule_alerts, alert_of,
  detect,
}

module _ {S I O : Type 0} (p : PerStream S I O) (k : ℕ) (x : I) where
  -- The result and the next state of a stream go by its state alone.
  pub feed_same :
      (m m' : Dict ℕ S)
      → find k m ≡ find k m'
      → ((p.feed k x m).1 ≡ (p.feed k x m').1)
        × (find k (p.feed k x m).0 ≡ find k (p.feed k x m').0)
  feed_same m m' e = (
    p.feed_result k x m ∙ ap (λ st. (p.one st x).1) e ∙ sym (p.feed_result k x m'),
    own m ∙ ap (λ st. (p.one st x).0) e ∙ sym (own m'),
  )
    where
      own : (n : Dict ℕ S) → find k (p.feed k x n).0 ≡ (p.one (find k n) x).0
      own n = p.feed_state k k x n ∙ rw ((==_iff k k).1 refl) refl

  -- No other stream's state changes.
  feed_other : (s : ℕ) (m : Dict ℕ S) → k ≢ s → find s (p.feed k x m).0 ≡ find s m
  feed_other s m ne = p.feed_state k s x m ∙ rw (ne→==_false k s ne) refl

-- Detectors that have the same of stream `s`.
pub record Agree (s : ℕ) (d d' : Detectors) : Type 0 where
  pub rules : find s d.rules ≡ find s d'.rules
  pub baseline : find s d.baseline.state ≡ find s d'.baseline.state
  pub cusum : find s d.cusum ≡ find s d'.cusum
  pub conformal : find s d.conformal.state ≡ find s d'.conformal.state
  pub alpha : d.baseline.alpha ≡ d'.baseline.alpha
  pub capacity : d.conformal.capacity ≡ d'.conformal.capacity

module _ (fp : Arith) (m : Message) where
  pub Agree-other :
      (s : ℕ) (d d' : Detectors) → m.stream_id ≢ s → Agree s d d' → Agree s (detect fp m d).0 d'
  unfolding detect Baseline.update Conformal.update
  Agree-other s d d' ne v = record {
    rules = feed_other (checker fp) m.stream_id (m.value, m.ts_ns) s d.rules ne ∙ v.rules;
    baseline =
        feed_other (scorer fp d.baseline.alpha) m.stream_id m.value s d.baseline.state ne
        ∙ v.baseline;
    cusum = feed_other (detector fp cusum_config) m.stream_id m.value s d.cusum ne ∙ v.cusum;
    conformal =
        feed_other (judge fp conformal_alpha d.conformal.capacity) m.stream_id
          (score_of fp m d.baseline) s d.conformal.state ne
        ∙ v.conformal;
    alpha = v.alpha;
    capacity = v.capacity;
  }

  score_same :
      (d d' : Detectors)
      → Agree m.stream_id d d'
      → score_of fp m d.baseline ≡ score_of fp m d'.baseline
  unfolding score_of
  score_same d d' v =
      ap (λ z. if lt_d z zero_d then neg_d z else z)
        ((feed_same (scorer fp d.baseline.alpha) m.stream_id m.value d.baseline.state
            d'.baseline.state v.baseline).0
          ∙ alpha_free)
    where
      alpha_free :
          zscore fp m.stream_id m.value
            (record { alpha = d.baseline.alpha; state = d'.baseline.state })
          ≡ zscore fp m.stream_id m.value d'.baseline
      alpha_free =
          ap (λ a. zscore fp m.stream_id m.value (record { alpha = a; state = d'.baseline.state }))
            v.alpha

  -- Detectors that agree on the message's stream raise the same alerts, and agree afterwards.
  pub Agree-own :
      (d d' : Detectors)
      → Agree m.stream_id d d'
      → ((detect fp m d).1 ≡ (detect fp m d').1)
        × Agree m.stream_id (detect fp m d).0 (detect fp m d').0
  unfolding detect Baseline.update Conformal.update
  Agree-own d d' v = (
    ap₂ ◌++◌ (ap (rule_alerts m) rule.0) (
        ap₂ ◌++◌
          (ap (λ fired. if fired then alert_of m Layer.cusum Detail.changepoint else []) change.0)
          (conformal_same ∙ ap (λ x. conformal_alerts fp m x d'.conformal) same_score)),
    record {
      rules = rule.1;
      baseline =
          base.1
          ∙ ap
              (λ a.
                find m.stream_id
                  (Baseline.update fp m.stream_id m.value
                    (record { alpha = a; state = d'.baseline.state })).state)
              v.alpha;
      cusum = change.1;
      conformal =
          conf.1
          ∙ ap₂
              (λ c x.
                find m.stream_id
                  (Conformal.update m.stream_id x
                    (record { capacity = c; state = d'.conformal.state })).state)
              v.capacity same_score;
      alpha = v.alpha;
      capacity = v.capacity;
    },
  )
    where
      same_score : score_of fp m d.baseline ≡ score_of fp m d'.baseline
      same_score = score_same d d' v

      score : Double
      score = score_of fp m d.baseline

      rule :
          ((check fp m.stream_id (m.value, m.ts_ns) d.rules).1
            ≡ (check fp m.stream_id (m.value, m.ts_ns) d'.rules).1)
          × (find m.stream_id (check fp m.stream_id (m.value, m.ts_ns) d.rules).0
              ≡ find m.stream_id (check fp m.stream_id (m.value, m.ts_ns) d'.rules).0)
      rule = feed_same (checker fp) m.stream_id (m.value, m.ts_ns) d.rules d'.rules v.rules

      change :
          ((update_and_check fp cusum_config m.stream_id m.value d.cusum).1
            ≡ (update_and_check fp cusum_config m.stream_id m.value d'.cusum).1)
          × (find m.stream_id (update_and_check fp cusum_config m.stream_id m.value d.cusum).0
              ≡ find m.stream_id (update_and_check fp cusum_config m.stream_id m.value d'.cusum).0)
      change = feed_same (detector fp cusum_config) m.stream_id m.value d.cusum d'.cusum v.cusum

      base :
          (((scorer fp d.baseline.alpha).feed m.stream_id m.value d.baseline.state).1
            ≡ ((scorer fp d.baseline.alpha).feed m.stream_id m.value d'.baseline.state).1)
          × (find m.stream_id
                ((scorer fp d.baseline.alpha).feed m.stream_id m.value d.baseline.state).0
              ≡ find m.stream_id
                  ((scorer fp d.baseline.alpha).feed m.stream_id m.value d'.baseline.state).0)
      base =
          feed_same (scorer fp d.baseline.alpha) m.stream_id m.value d.baseline.state
            d'.baseline.state v.baseline

      conf :
          (((judge fp conformal_alpha d.conformal.capacity).feed m.stream_id score
              d.conformal.state).1
            ≡ ((judge fp conformal_alpha d.conformal.capacity).feed m.stream_id score
                d'.conformal.state).1)
          × (find m.stream_id
                ((judge fp conformal_alpha d.conformal.capacity).feed m.stream_id score
                  d.conformal.state).0
              ≡ find m.stream_id
                  ((judge fp conformal_alpha d.conformal.capacity).feed m.stream_id score
                    d'.conformal.state).0)
      conf =
          feed_same (judge fp conformal_alpha d.conformal.capacity) m.stream_id score
            d.conformal.state d'.conformal.state v.conformal

      alert_for : Bool × Double → List Alert
      alert_for (above, t) =
          if above then alert_of m Layer.conformal (Detail.score_above score t) else []

      conformal_same :
          conformal_alerts fp m score d.conformal ≡ conformal_alerts fp m score d'.conformal
      conformal_same =
          ap alert_for conf.0
          ∙ ap
              (λ c.
                conformal_alerts fp m score (record { capacity = c; state = d'.conformal.state }))
              v.capacity
