-- ===== src/Daemon/Pipeline.antt =====
-- src/feed/coinbase_daemon_main.cpp: what the consumer thread does with one message, through the four
-- layers of detection. The daemon's constants are written as their bit patterns.
pub mod Isolation
pub mod Silenced
pub mod Deafened
mod Examples
use jisa.Prelude.{ℕ, ◌+◌, ◌%◌, ◌^◌, List, [], ◌∷◌, ◌++◌, if◌then◌else◌, length}
use jisa.Prelude.Int.{ℤ, pos}
use jisa.Prelude.Dict.{Dict}
use jisa.Double.{Double, Arith, zero_d, lt_d, neg_d}
use jisa.Core.Message.{Message}
use jisa.Detect.Rules.{RuleResult, Rules, check}
use jisa.Detect.Baseline
use jisa.Detect.Baseline.{Baseline, zscore}
use jisa.Detect.Cusum
use jisa.Detect.Cusum.{update_and_check}
use jisa.Detect.Conformal
use jisa.Detect.Conformal.{Conformal, threshold, is_anomalous}
use jisa.Daemon.Alerts.{Layer, Detail, Alert}

-- `Counters`; `fetch_add` wraps.
pub record Counters : Type 0 where
  pub received : ℕ
  pub pushed : ℕ
  pub processed : ℕ
  pub parse_failures : ℕ
  pub gaps : ℕ
  pub reconnects : ℕ
  pub alerts : ℕ
  pub last_message_unix_ms : ℤ
  pub last_message_ts_ns : ℤ

abbrev pub no_counts : Counters
no_counts = record {
  received = 0;
  pushed = 0;
  processed = 0;
  parse_failures = 0;
  gaps = 0;
  reconnects = 0;
  alerts = 0;
  last_message_unix_ms = pos 0;
  last_message_ts_ns = pos 0;
}

abbrev pub add_count : ℕ → ℕ → ℕ
add_count c n = (c + n) % 2 ^ 64

-- 0.05, 0.01, 3.0 and 8.0
abbrev pub baseline_alpha : Double
baseline_alpha = 0x3FA9_9999_9999_999A

abbrev pub conformal_alpha : Double
conformal_alpha = 0x3F84_7AE1_47AE_147B

abbrev pub cusum_config : Cusum.Config
cusum_config = record {
  alpha = 0x3F84_7AE1_47AE_147B;
  k = 0x4008_0000_0000_0000;
  h = 0x4020_0000_0000_0000;
  warmup_n = 1;
}

pub record Detectors : Type 0 where
  pub rules : Rules
  pub baseline : Baseline
  pub cusum : Dict ℕ Cusum.State
  pub conformal : Conformal

abbrev pub new_detectors : Rules → Detectors
new_detectors rules = record {
  rules = rules;
  baseline = record { alpha = baseline_alpha; state = [] };
  cusum = [];
  conformal = record { capacity = 500; state = [] };
}

-- The consumer's own part of the state: detectors, counters, and the alerts written.
pub record Worker : Type 0 where
  pub detectors : Detectors
  pub counters : Counters
  pub written : List Alert

abbrev pub alert_of : Message → Layer → Detail → List Alert
alert_of m layer detail =
    record { stream_id = m.stream_id; ts_ns = m.ts_ns; layer = layer; detail = detail } ∷ []

abbrev pub rule_alerts : Message → RuleResult → List Alert
rule_alerts m RuleResult.ok = []
rule_alerts m RuleResult.out_of_bounds = alert_of m Layer.rules Detail.out_of_bounds
rule_alerts m RuleResult.rate_violation = alert_of m Layer.rules Detail.rate_violation

module _ (fp : Arith) where
  -- The absolute score against the baseline as it was before the message.
  unfoldable pub score_of : Message → Baseline → Double
  score_of m b = let z = zscore fp m.stream_id m.value b in if lt_d z zero_d then neg_d z else z

  abbrev pub conformal_alerts : Message → Double → Conformal → List Alert
  conformal_alerts m score c =
      if is_anomalous fp m.stream_id score conformal_alpha c
      then alert_of m Layer.conformal
          (Detail.score_above score (threshold fp m.stream_id conformal_alpha c))
      else []

  -- One message through the layers: the detectors afterwards, and the alerts in order.
  unfoldable pub detect : Message → Detectors → Detectors × List Alert
  unfolding score_of
  detect m d =
      let (rules, rr) = check fp m.stream_id (m.value, m.ts_ns) d.rules in
      let score = score_of m d.baseline in
      let (cusum, fired) = update_and_check fp cusum_config m.stream_id m.value d.cusum in
      (
        record {
          rules = rules;
          baseline = Baseline.update fp m.stream_id m.value d.baseline;
          cusum = cusum;
          conformal = Conformal.update m.stream_id score d.conformal;
        },
        rule_alerts m rr
            ++ ((if fired then alert_of m Layer.cusum Detail.changepoint else [])
                ++ conformal_alerts m score d.conformal),
      )

  -- The body of the inner loop.
  unfoldable pub work : Message → Worker → Worker
  work m w =
      let (detectors, alerts) = detect m w.detectors in
      record {
        detectors = detectors;
        counters = record (w.counters) {
          processed = add_count w.counters.processed 1;
          last_message_ts_ns = m.ts_ns;
          alerts = add_count w.counters.alerts (length alerts);
        };
        written = w.written ++ alerts;
      }
