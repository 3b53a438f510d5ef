-- ===== src/Detect/Conformal/Streams.antt =====
-- include/detect/conformal.hpp: a threshold and the update that follows it go by one stream's state.
use jisa.Prelude.{ℕ, ◌≡◌, ap, Bool, Option, none, some, arith, ◌==◌, if◌then◌else◌, get_or}
use jisa.Prelude.Dict.{Dict, nat_key, bytes_key, find, find-put}
use jisa.Double.{Double, Arith, zero_d, infinity_d, lt_d}
use mathlib.Core.Path.{ap₂}
use jisa.Detect.PerStream.{PerStream}
use jisa.Detect.Conformal.{
  State, Conformal, ready, append, update, sort, window, index_of, threshold, is_anomalous,
}

module _ (fp : Arith) (alpha : Double) (capacity : ℕ) where
  abbrev pub with_state : Dict ℕ State → Conformal
  with_state m = record { capacity = capacity; state = m }

  abbrev pub threshold_one : Option State → Double
  threshold_one none = infinity_d
  threshold_one (some st) =
      if st.count == 0
      then infinity_d
      else get_or (sort (window capacity st)) (index_of fp alpha st.count) zero_d

  pub threshold-one :
      (k : ℕ) (m : Dict ℕ State) → threshold fp k alpha (with_state m) ≡ threshold_one (find k m)
  unfolding threshold
  threshold-one k m = ground arith

  pub is_anomalous-one :
      (k : ℕ) (score : Double) (m : Dict ℕ State)
      → is_anomalous fp k score alpha (with_state m) ≡ lt_d (threshold_one (find k m)) score
  unfolding is_anomalous
  is_anomalous-one k score m = ap (λ t. lt_d t score) (threshold-one k m)

  pub update-find :
      (k j : ℕ) (score : Double) (m : Dict ℕ State)
      → find j (update k score (with_state m)).state
        ≡ (if k == j then some (append capacity score (ready capacity (find k m))) else find j m)
  unfolding update
  update-find k j score m = find-put k j (append capacity score (ready capacity (find k m))) m

  -- The verdict on a score and the threshold that it is held against, and then the update.
  abbrev pub judge : PerStream State Double (Bool × Double)
  judge = record {
    feed = λ k x m. (
      (update k x (with_state m)).state,
      (is_anomalous fp k x alpha (with_state m), threshold fp k alpha (with_state m)),
    );
    one = λ st x. (
      some (append capacity x (ready capacity st)),
      (lt_d (threshold_one st) x, threshold_one st),
    );
    feed_result = λ k x m. ap₂ (λ a t. (a, t)) (is_anomalous-one k x m) (threshold-one k m);
    feed_state = λ k j x m. update-find k j x m;
  }
