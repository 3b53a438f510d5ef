-- ===== src/Detect/Baseline/Streams.antt =====
-- include/detect/baseline.hpp: a score and the update that follows it go by one stream's state.
use jisa.Prelude.{ℕ, ◌≡◌, Option, none, some, arith, ◌==◌, if◌then◌else◌}
use jisa.Prelude.Dict.{Dict, nat_key, bytes_key, find, find-put}
use jisa.Double.{Double, Arith, zero_d, eq_d}
use jisa.Detect.PerStream.{PerStream}
use jisa.Detect.Baseline.{State, Baseline, or_fresh, ewma, update, zscore}

module _ (fp : Arith) (alpha : Double) where
  abbrev pub with_state : Dict ℕ State → Baseline
  with_state m = record { alpha = alpha; state = m }

  abbrev pub score_one : Option State → Double → Double
  score_one none value = zero_d
  score_one (some st) value =
      if eq_d st.var zero_d then zero_d else fp.div (fp.sub value st.mean) (fp.sqrt st.var)

  abbrev pub update_one : Option State → Double → State
  update_one st value = ewma fp alpha (or_fresh st).mean (or_fresh st).var value

  pub zscore-one :
      (k : ℕ) (value : Double) (m : Dict ℕ State)
      → zscore fp k value (with_state m) ≡ score_one (find k m) value
  unfolding zscore
  zscore-one k value m = ground arith

  pub update-find :
      (k j : ℕ) (value : Double) (m : Dict ℕ State)
      → find j (update fp k value (with_state m)).state
        ≡ (if k == j then some (update_one (find k m) value) else find j m)
  unfolding update
  update-find k j value m = find-put k j (update_one (find k m) value) m

  -- The score of a sample, and then its update.
  abbrev pub scorer : PerStream State Double Double
  scorer = record {
    feed = λ k x m. ((update fp k x (with_state m)).state, zscore fp k x (with_state m));
    one = λ st x. (some (update_one st x), score_one st x);
    feed_result = zscore-one;
    feed_state = λ k j x m. update-find k j x m;
  }
