-- ===== src/Detect/Cusum/Warmup.antt =====
-- include/detect/cusum.hpp: no alarm in the warm-up, streams do not mix, and an alarm clears the sums.
use jisa.Prelude.{
  ℕ, zero, suc, ◌+◌, ◌^◌, ◌≤◌, ◌<◌, ◌≡◌, refl, ◌⊎◌, inl, inr, Bool, true, false, ◌||◌, Option, none,
  some, List, [], ◌∷◌, arith, ◌==◌, if◌then◌else◌, le→ltb-false, ne→==_false,
}
use jisa.Prelude.Dict.{Dict, nat_key, bytes_key, find, find-put}
use jisa.Double.{Double, Arith, zero_d, lt_d, neg_d, fmax_d, fmin_d}
use jisa.Detect.PerStream.{PerStream, results_of, results, results_of-results}
use jisa.Detect.Cusum.{
  State, Config, or_fresh, refine, residual_of, accumulate, advance, update_and_check,
}

module _ (fp : Arith) (c : Config) where
  abbrev pub advance_one : Option State → Double → Option State × Bool
  advance_one st value = let (st', fired) = advance fp c value (or_fresh st) in (some st', fired)

  pub update_result :
      (k : ℕ) (x : Double) (m : Dict ℕ State)
      → (update_and_check fp c k x m).1 ≡ (advance_one (find k m) x).1
  unfolding update_and_check
  update_result k x m = refl

  pub update_state :
      (k j : ℕ) (x : Double) (m : Dict ℕ State)
      → find j (update_and_check fp c k x m).0
        ≡ (if k == j then (advance_one (find k m) x).0 else find j m)
  unfolding update_and_check
  update_state k j x m = find-put k j (advance fp c x (or_fresh (find k m))).0 m

  abbrev pub detector : PerStream State Double Bool
  detector = record {
    feed = update_and_check fp c;
    one = advance_one;
    feed_result = update_result;
    feed_state = update_state;
  }

  abbrev count_of : Option State → ℕ
  count_of st = (or_fresh st).count

  count-accumulate : (r : Double) (st : State) → (accumulate fp c r st).0.count ≡ st.count
  unfolding accumulate
  count-accumulate r st = ground arith

  pub count-advance :
      (x : Double) (st : State) → st.count + 1 < 2 ^ 64 → (advance fp c x st).0.count ≡ st.count + 1
  unfolding advance refine
  count-advance x st h = ground (arith, count-accumulate (residual_of fp c x st) (refine fp c x st))

  -- A sample that arrives while fewer than `warmup_n` were counted, or as the first one, fires nothing.
  advance_quiet :
      (x : Double) (st : State)
      → (st.count ≡ 0) ⊎ (st.count < c.warmup_n)
      → (advance fp c x st).1 ≡ false
  unfolding advance
  advance_quiet x st h = ground arith

  -- The results of a stream in its warm-up, and after it nothing is claimed.
  abbrev pub QuietUpTo : ℕ → List Bool → Type 0
  QuietUpTo zero bs = Unit
  QuietUpTo (suc n) [] = Unit
  QuietUpTo (suc n) (b ∷ bs) = (b ≡ false) × QuietUpTo n bs

  results-QuietUpTo :
      (n : ℕ) (st : Option State) (xs : List Double)
      → count_of st + n ≤ c.warmup_n
      → c.warmup_n < 2 ^ 64
      → QuietUpTo n (results detector st xs)
  unfolding results
  results-QuietUpTo zero st xs h b = tt
  results-QuietUpTo (suc n) st [] h b = tt
  results-QuietUpTo (suc n) st (x ∷ xs) h b = (
    advance_quiet x (or_fresh st) (inr (omega arith)),
    results-QuietUpTo n _ xs (omega (arith, count-advance x (or_fresh st) (omega arith))) b,
  )

  -- A stream that the detector has not seen fires no alarm in its first `warmup_n` samples, whatever
  -- the samples are and whatever other streams bring in between.
  pub warmup_quiet :
      (s : ℕ) (es : List (ℕ × Double))
      → c.warmup_n < 2 ^ 64
      → QuietUpTo c.warmup_n (results_of detector s es [])
  unfolding find
  warmup_quiet s es b =
      rw (results_of-results detector s es []) (results-QuietUpTo c.warmup_n none _ (omega arith) b)

  abbrev Fired : State × Bool → Type 0
  Fired (st', fired) =
      ((fired ≡ true) × (st'.s_pos ≡ zero_d) × (st'.s_neg ≡ zero_d))
      ⊎ ((fired ≡ false) × (lt_d c.h st'.s_pos ≡ false) × (lt_d st'.s_neg (neg_d c.h) ≡ false))

  -- The two outcomes of `accumulate`, by the test that it makes on the new sums.
  settle :
      (st : State) (p n : Double) (a b : Bool)
      → lt_d c.h p ≡ a
      → lt_d n (neg_d c.h) ≡ b
      → Fired (
          if a || b
          then (record st { s_pos = zero_d; s_neg = zero_d }, true)
          else (record st { s_pos = p; s_neg = n }, false))
  settle st p n true b e f = inl (refl, refl, refl)
  settle st p n false true e f = inl (refl, refl, refl)
  settle st p n false false e f = inr (refl, e, f)

  pub accumulate-Fired : (r : Double) (st : State) → Fired (accumulate fp c r st)
  unfolding accumulate
  accumulate-Fired r st =
      settle st (fmax_d zero_d (fp.sub (fp.add st.s_pos r) c.k))
        (fmin_d zero_d (fp.add (fp.add st.s_neg r) c.k)) _ _ refl refl

  -- After the warm-up every update either fires and clears both sums, or leaves both sums within the
  -- thresholds.
  pub advance_settles :
      (x : Double) (st : State)
      → 0 < st.count
      → c.warmup_n ≤ st.count
      → let (st', fired) = advance fp c x st in
        ((fired ≡ true) × (st'.s_pos ≡ zero_d) × (st'.s_neg ≡ zero_d))
        ⊎ ((fired ≡ false) × (lt_d c.h st'.s_pos ≡ false) × (lt_d st'.s_neg (neg_d c.h) ≡ false))
  unfolding advance
  advance_settles x st p q =
      rw (ne→==_false st.count 0 (omega arith), le→ltb-false st.count c.warmup_n q)
        (accumulate-Fired (residual_of fp c x st) (refine fp c x st))
