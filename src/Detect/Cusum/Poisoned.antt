-- ===== src/Detect/Cusum/Poisoned.antt =====
-- include/detect/cusum.hpp: a stream whose mean is not a number raises no alarm.
use jisa.Prelude.{
  ℕ, suc, ◌+◌, ◌^◌, ◌<◌, ◌≡◌, refl, ap, ◌∙◌, ◌⊎◌, inl, inr, Bool, true, false, ◌||◌, some, arith,
  ◌==◌, if◌then◌else◌, Bool-cases, ==_iff, ltb, ne→==_false,
}
use jisa.Prelude.Dict.{Dict, nat_key, bytes_key, find}
use jisa.Double.{Double, Arith, zero_d, lt_d, neg_d, fmax_d, fmin_d}
use jisa.Double.Nan.{IsNan, PassesNan, lt_d-nan_right}
use jisa.Detect.Cusum.{
  State, Config, or_fresh, refine, residual_of, accumulate, advance, update_and_check,
}
use jisa.Detect.Cusum.Warmup.{update_state, update_result, count-advance}
use jisa.Double.OneWay.{MovesOneWay}
use jisa.Detect.Cusum.Idle.{Sane, Within, either, accumulate-idle, accumulate-Within}

-- The mean is not a number, and the variance is not above zero.
abbrev pub Lost : State → Type 0
Lost st = IsNan st.mean × (lt_d zero_d st.var ≡ false)

module _ (fp : Arith) (nan : PassesNan fp) (one_way : MovesOneWay fp) (c : Config)
    (sane : Sane c) where
  -- What one more sample leaves of the mean and the variance.
  refine-Lost : (x : Double) (st : State) → IsNan x ⊎ Lost st → Lost (refine fp c x st)
  unfolding refine
  refine-Lost x st (inl e) = (
    nan.add_right _ _ (nan.mul_right _ _ e),
    lt_d-nan_right zero_d (refine fp c x st).var
        (nan.add_right _ _ (nan.mul_right _ _ (nan.sub_left x st.mean e))),
  )
  refine-Lost x st (inr v) = (
    nan.add_left _ _ (nan.mul_right _ _ v.0),
    lt_d-nan_right zero_d (refine fp c x st).var
        (nan.add_right _ _ (nan.mul_right _ _ (nan.sub_right x st.mean v.0))),
  )

  accumulate-Lost : (r : Double) (st : State) → Lost st → Lost (accumulate fp c r st).0
  unfolding accumulate
  accumulate-Lost r st v =
      let p = fmax_d zero_d (fp.sub (fp.add st.s_pos r) c.k) in
      let q = fmin_d zero_d (fp.add (fp.add st.s_neg r) c.k) in
      either (λ (z : State × Bool). Lost z.0) (lt_d c.h p || lt_d q (neg_d c.h))
        (record st { s_pos = zero_d; s_neg = zero_d }, true)
        (record st { s_pos = p; s_neg = q }, false) v v

  advance-Lost :
      (x : Double) (st : State) → IsNan x ⊎ ((0 < st.count) × Lost st) → Lost (advance fp c x st).0
  unfolding advance
  advance-Lost x st (inl e) =
      let v = refine-Lost x st (inl e) in
      either (λ (z : State × Bool). Lost z.0) (st.count == 0) _ _ (e, refl)
        (either (λ (z : State × Bool). Lost z.0) (ltb st.count c.warmup_n) _ _ v
          (accumulate-Lost _ _ v))
  advance-Lost x st (inr (p, lost)) =
      let v = refine-Lost x st (inr lost) in
      rw (ne→==_false st.count 0 (omega arith)) (
        either (λ (z : State × Bool). Lost z.0) (ltb st.count c.warmup_n) _ _ v
          (accumulate-Lost _ _ v))

  advance-Within : (x : Double) (st : State) → Within c st → Within c (advance fp c x st).0
  unfolding advance refine
  advance-Within x st v =
      either (λ (z : State × Bool). Within c z.0) (st.count == 0) _ _ (sane.h, sane.neg_h)
        (either (λ (z : State × Bool). Within c z.0) (ltb st.count c.warmup_n) _ _ v
          (accumulate-Within fp nan one_way c sane (residual_of fp c x st) (refine fp c x st)))

  residual-Lost : (x : Double) (st : State) → Lost st → residual_of fp c x st ≡ zero_d
  unfolding residual_of
  residual-Lost x st v = rw (v.1) refl

  advance-idle :
      (x : Double) (st : State)
      → 0 < st.count
      → Lost st
      → Within c st
      → (advance fp c x st).1 ≡ false
  unfolding advance refine
  advance-idle x st p v w =
      rw (ne→==_false st.count 0 (omega arith), residual-Lost x st v)
        (either (λ (z : State × Bool). z.1 ≡ false) (ltb st.count c.warmup_n) _ _ refl
          (accumulate-idle fp nan one_way c sane (refine fp c x st) w).0)

  -- A stream without an alarm to come while fewer than `n` further samples arrive.
  pub record Deaf (s n : ℕ) (m : Dict ℕ State) : Type 0 where
    pub state : State
    pub found : find s m ≡ some state
    pub seen : 0 < state.count
    pub room : state.count + n < 2 ^ 64
    pub lost : Lost state
    pub within : Within c state

  -- What holds of any stream: sums within the thresholds, and a count with room for `n` more.
  pub record Fit (s n : ℕ) (m : Dict ℕ State) : Type 0 where
    pub room : (or_fresh (find s m)).count + n < 2 ^ 64
    pub within : Within c (or_fresh (find s m))

  -- The state of a stream after a sample of any stream.
  find-update :
      (k s : ℕ) (x : Double) (m : Dict ℕ State)
      → find s (update_and_check fp c k x m).0
        ≡ (if k == s then some (advance fp c x (or_fresh (find k m))).0 else find s m)
  find-update k s x m = update_state fp c k s x m

  pub update-Fit :
      (k s n : ℕ) (x : Double) (m : Dict ℕ State)
      → Fit s (suc n) m
      → Fit s n (update_and_check fp c k x m).0
  update-Fit k s n x m v = elim (Bool-cases (k == s)) [
    | inr other ↦
        let same : find s (update_and_check fp c k x m).0 ≡ find s m =
          find-update k s x m ∙ rw other refl in
        record { room = rw same omega (arith, v.room); within = rw same v.within }
    | inl mine ↦
        let st = or_fresh (find s m) in
        let now : find s (update_and_check fp c k x m).0 ≡ some (advance fp c x st).0 =
          find-update k s x m ∙ rw (mine, (==_iff k s).0 mine) refl in
        record {
          room = rw now omega (arith, v.room, count-advance fp c x st (omega (arith, v.room)));
          within = rw now (advance-Within x st v.within);
        }
  ]

  pub update-Deaf :
      (k s n : ℕ) (x : Double) (m : Dict ℕ State)
      → ((k ≡ s) × IsNan x × Fit s (suc n) m) ⊎ Deaf s (suc n) m
      → Deaf s n (update_and_check fp c k x m).0
  update-Deaf k s n x m (inl (same, e, v)) =
      let st = or_fresh (find s m) in
      let now : find s (update_and_check fp c k x m).0 ≡ some (advance fp c x st).0 =
        find-update k s x m ∙ rw ((==_iff k s).1 same, same) refl in
      let counted = count-advance fp c x st (omega (arith, v.room)) in
      record {
        state = (advance fp c x st).0;
        found = now;
        seen = omega (arith, counted);
        room = omega (arith, counted, v.room);
        lost = advance-Lost x st (inl e);
        within = advance-Within x st v.within;
      }
  update-Deaf k s n x m (inr v) = elim (Bool-cases (k == s)) [
    | inr other ↦ record {
      state = v.state;
      found = find-update k s x m ∙ rw other v.found;
      seen = v.seen;
      room = omega (arith, v.room);
      lost = v.lost;
      within = v.within;
    }
    | inl mine ↦
        let counted = count-advance fp c x v.state (omega (arith, v.room)) in
        record {
          state = (advance fp c x v.state).0;
          found = find-update k s x m ∙ rw (mine, (==_iff k s).0 mine, v.found) refl;
          seen = omega (arith, counted);
          room = omega (arith, counted, v.room);
          lost = advance-Lost x v.state (inr (v.seen, v.lost));
          within = advance-Within x v.state v.within;
        }
  ]

  pub update-quiet :
      (s n : ℕ) (x : Double) (m : Dict ℕ State)
      → Deaf s n m
      → (update_and_check fp c s x m).1 ≡ false
  update-quiet s n x m v =
      update_result fp c s x m
      ∙ ap (λ st. (advance fp c x (or_fresh st)).1) v.found
      ∙ advance-idle x v.state v.seen v.lost v.within
