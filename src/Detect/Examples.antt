-- ===== src/Detect/Examples.antt =====
-- include/detect: tests, and the theorems at concrete inputs.
use jisa.Prelude.{
  min, max, ◌≤◌, if◌then◌else◌, ◌==◌, ℕ, ◌+◌, ◌-◌, ◌<◌, ◌≡◌, refl, none, List, [], ◌∷◌, arith,
  length, drop, inr, Option, some,
}
use jisa.Prelude.Int.{ℤ, pos, ◌-ℤ◌}
use jisa.Prelude.Dict.{nat_key, bytes_key, find}
use jisa.Double.Whole.{whole}
use jisa.Double.{Double, Arith, zero_d, one_d}
use jisa.Detect.PerStream.{results_of, samples_of}
use jisa.Detect.Rules.{RuleConfig, add_rule}
use jisa.Detect.Rules.Laws.{checker, verdicts, check-verdicts}
use jisa.Detect.Cusum
use jisa.Detect.Cusum.{advance}
use jisa.Detect.Cusum.Warmup.{detector, QuietUpTo, warmup_quiet}
use jisa.Detect.Conformal
use jisa.Detect.Conformal.{Conformal, window, ready, threshold, window_from}
use jisa.Detect.Conformal.Window.{append_all, window-append_all}
use jisa.Detect.Conformal.Quantile.{count_below, count_above, threshold-place}
use jisa.Detect.Config.{load_rule_config}
use jisa.Detect.Config.Printed.{Texts, Reads, config_lines, load_rule_config-config_lines}

abbrev rule : RuleConfig
rule = record { stream_id = 7; min = 10; max = 20; max_rate_of_change = 3 }

abbrev samples : List (ℕ × (Double × ℤ))
samples = (7, (12, pos 0)) ∷ (8, (90, pos 1)) ∷ (7, (30, pos 2)) ∷ []

check-verdicts_example :
    results_of (checker whole) 7 samples (add_rule rule [])
    ≡ verdicts whole rule none (samples_of 7 samples)
check-verdicts_example = check-verdicts whole rule samples []

abbrev config : Cusum.Config
config = record { alpha = 1; k = 1; h = 5; warmup_n = 2 }

abbrev readings : List (ℕ × Double)
readings = (7, 3) ∷ (8, 1) ∷ (7, 4) ∷ (7, 9) ∷ []

warmup_quiet_example : QuietUpTo whole config 2 (results_of (detector whole config) 7 readings [])
warmup_quiet_example = warmup_quiet whole config 7 readings (omega arith)

abbrev warm : Cusum.State
warm = record { count = 2; mean = 3; var = 1; s_pos = zero_d; s_neg = zero_d }

abbrev three_scores : List Double
three_scores = 5 ∷ 6 ∷ 7 ∷ []

window-append_all_example :
    window 2 (append_all 2 three_scores (ready 2 none))
    ≡ drop (length three_scores - 2) three_scores
window-append_all_example = window-append_all 2 three_scores (omega arith)

abbrev ring : Conformal.State
ring = record { buf = 6 ∷ 5 ∷ []; head = 1; count = 2 }

abbrev scores : Conformal
scores = record { capacity = 2; state = (7, ring) ∷ [] }

-- Arithmetic in which `1.0` is taken as one, and a product with it is the other factor.
abbrev counting : Arith
counting = record whole { sub = λ a b. if b == one_d then a - 1 else a; mul = λ a b. b }

threshold-place_example :
    (count_below (threshold counting 7 0 scores) (window 2 ring) < max 1 (min 2 2))
    × (count_above (threshold counting 7 0 scores) (window 2 ring) + max 1 (min 2 2) ≤ 2)
unfolding find window window_from ◌-ℤ◌
threshold-place_example =
    threshold-place counting 7 0 scores ring 2 refl (omega arith) (refl, (refl, tt)) (refl, refl)

-- Numbers of one digit.
abbrev from_chars : List ℕ → Option (ℕ × ℕ)
from_chars [] = none
from_chars (c ∷ _) = some (c - 48, 1)

abbrev strtod : List ℕ → Double × ℕ
strtod [] = (0, 0)
strtod (c ∷ _) = (c - 48, 1)

abbrev texts : Texts
texts = record { stream_id = b'7' ∷ []; min = b'2' ∷ []; max = b'5' ∷ []; max_rate = b'3' ∷ [] }

abbrev small_rule : RuleConfig
small_rule = record { stream_id = 7; min = 2; max = 5; max_rate_of_change = 3 }

texts-Reads : Reads from_chars strtod texts small_rule
texts-Reads = record {
  stream_id = record { plain = ground arith; some_text = omega arith; whole = refl };
  min = record { plain = ground arith; some_text = omega arith; whole = refl };
  max = record { plain = ground arith; some_text = omega arith; whole = refl };
  max_rate = record { plain = ground arith; some_text = omega arith; whole = refl };
}

load_rule_config-config_lines_example :
    load_rule_config from_chars strtod (some (config_lines ((b'a' ∷ b':' ∷ []) ∷ []) texts))
    ≡ inr small_rule
load_rule_config-config_lines_example =
    load_rule_config-config_lines from_chars strtod ((b'a' ∷ b':' ∷ []) ∷ []) texts small_rule
      texts-Reads refl
