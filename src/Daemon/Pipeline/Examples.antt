-- ===== src/Daemon/Pipeline/Examples.antt =====
-- src/feed/coinbase_daemon_main.cpp: a sample that is not a number.
use jisa.Prelude.{ℕ, ◌≡◌, refl, false, ◌||◌, List, [], ◌∷◌, arith, if◌then◌else◌}
use jisa.Prelude.Int.{pos}
use jisa.Prelude.Dict.{nat_key, bytes_key}
use jisa.Double.{Double, Arith, is_nan, zero_d, lt_d}
use jisa.Double.Whole.{whole}
use jisa.Core.Message.{Message}
use jisa.Detect.Rules.{Rules, RuleResult, add_rule, check}
use jisa.Daemon.Pipeline.{Detectors, new_detectors, detect}
use jisa.Daemon.EndToEnd.{detect_all}
use jisa.Daemon.Streams.{alerts_of}
use jisa.Double.Nan.{IsNan, PassesNan}
use jisa.Double.OneWay.{MovesOneWay}
use jisa.Daemon.Pipeline.Deafened.{OnlyRules, nan_leaves_rules}

abbrev quiet_nan : Double
quiet_nan = 0x7ff8_0000_0000_0000

-- An operation that gives a NaN for a NaN.
abbrev passing : (Double → Double → Double) → Double → Double → Double
passing f a b = if is_nan a || is_nan b then quiet_nan else f a b

passing-left : (f : Double → Double → Double) (a b : Double) → IsNan a → IsNan (passing f a b)
passing-left f a b e = rw e refl

passing-right : (f : Double → Double → Double) (a b : Double) → IsNan b → IsNan (passing f a b)
passing-right f a b e = ground (arith, e)

-- Arithmetic in which what is added or subtracted is rounded away.
abbrev steady : Arith
steady = record whole {
  add = passing (λ a b. a);
  sub = passing (λ a b. a);
  mul = passing whole.mul;
  div = passing whole.div;
}

steady-PassesNan : PassesNan steady
steady-PassesNan = record {
  add_left = passing-left (λ a b. a);
  add_right = passing-right (λ a b. a);
  sub_left = passing-left (λ a b. a);
  sub_right = passing-right (λ a b. a);
  mul_left = passing-left whole.mul;
  mul_right = passing-right whole.mul;
  div_left = passing-left whole.div;
}

passing-not_below : (a b : Double) → lt_d (passing (λ a b. a) a b) a ≡ false
passing-not_below a b = ground arith

passing-not_above : (a b : Double) → lt_d a (passing (λ a b. a) a b) ≡ false
passing-not_above a b = ground arith

steady-MovesOneWay : MovesOneWay steady
steady-MovesOneWay = record {
  add_zero = λ a. passing-not_above a zero_d;
  add_up = λ a b p. passing-not_below a b;
  sub_down = λ a b p. passing-not_above a b;
}

abbrev tick : ℕ → Double → Message
tick seq value = record { stream_id = 7; ts_ns = pos seq; value = value; seq = seq }

abbrev rules : Rules
rules = add_rule (record { stream_id = 7; min = 3; max = 5; max_rate_of_change = 3 }) []

abbrev later : List Message
later = tick 3 4 ∷ record (tick 1 9) { stream_id = 8 } ∷ tick 4 9 ∷ []

abbrev earlier : List Message
earlier = tick 1 4 ∷ []

abbrev lost : Message
lost = tick 2 quiet_nan

abbrev running : Detectors
running = (detect_all steady earlier (new_detectors rules)).0

nan_leaves_rules_example :
    ((check steady 7 (quiet_nan, pos 2) running.rules).1 ≡ RuleResult.ok)
    × OnlyRules (alerts_of 7 (detect_all steady later (detect steady lost running).0).1)
nan_leaves_rules_example =
    nan_leaves_rules steady rules earlier lost later steady-PassesNan steady-MovesOneWay
      (omega arith) refl
