-- ===== src/Detect/Baseline/Poisoned.antt =====
-- include/detect/baseline.hpp: a stream that has been updated with a NaN.
use jisa.Prelude.{ℕ, ◌≡◌, refl, sym, ap, subst, ◌∙◌, ◌⊎◌, inl, inr, some, ◌==◌, Bool-cases, ==_iff}
use jisa.Prelude.Dict.{nat_key, bytes_key, find}
use jisa.Double.{Double, Arith, is_nan, zero_d}
use jisa.Double.Nan.{IsNan, PassesNan, eq_d-nan_left}
use jisa.Detect.Baseline
use jisa.Detect.Baseline.{Baseline, State, or_fresh, ewma, zscore}
use jisa.Detect.Baseline.Streams.{score_one, zscore-one, update-find}

-- A stream whose mean and variance are NaN.
pub record Poisoned (s : ℕ) (b : Baseline) : Type 0 where
  pub state : State
  pub found : find s b.state ≡ some state
  pub mean : IsNan state.mean
  pub var : IsNan state.var

module _ (fp : Arith) (nan : PassesNan fp) where
  ewma-nan_value :
      (alpha mean var value : Double)
      → IsNan value
      → IsNan (ewma fp alpha mean var value).mean × IsNan (ewma fp alpha mean var value).var
  unfolding ewma
  ewma-nan_value alpha mean var value e = (
    nan.add_right _ _ (nan.mul_right _ _ e),
    nan.add_right _ _ (nan.mul_right _ _ (nan.sub_left _ _ e)),
  )

  ewma-nan_state :
      (alpha mean var value : Double)
      → IsNan mean
      → IsNan var
      → IsNan (ewma fp alpha mean var value).mean × IsNan (ewma fp alpha mean var value).var
  unfolding ewma
  ewma-nan_state alpha mean var value e e' =
      (nan.add_left _ _ (nan.mul_right _ _ e), nan.add_left _ _ (nan.mul_right _ _ e'))

  pub update-Poisoned :
      (k s : ℕ) (value : Double) (b : Baseline)
      → (IsNan value × (k ≡ s)) ⊎ Poisoned s b
      → Poisoned s (Baseline.update fp k value b)
  unfolding Baseline.update
  update-Poisoned k s value b (inl (e, same)) =
      let st = or_fresh (find k b.state) in
      let (mean, var) = ewma-nan_value b.alpha st.mean st.var value e in
      record {
        state = ewma fp b.alpha st.mean st.var value;
        found = update-find fp b.alpha k s value b.state ∙ rw ((==_iff k s).1 same) refl;
        mean = mean;
        var = var;
      }
  update-Poisoned k s value b (inr p) = elim (Bool-cases (k == s)) [
    | inr other ↦ record {
      state = p.state;
      found = update-find fp b.alpha k s value b.state ∙ rw other p.found;
      mean = p.mean;
      var = p.var;
    }
    | inl mine ↦
        let st = or_fresh (find k b.state) in
        let known : st ≡ p.state =
          ap or_fresh (ap (λ j. find j b.state) ((==_iff k s).0 mine) ∙ p.found) in
        let (mean, var) =
          ewma-nan_state b.alpha st.mean st.var value (subst (λ x. IsNan x.mean) (sym known) p.mean)
            (subst (λ x. IsNan x.var) (sym known) p.var) in
        record {
          state = ewma fp b.alpha st.mean st.var value;
          found = update-find fp b.alpha k s value b.state ∙ rw mine refl;
          mean = mean;
          var = var;
        }
  ]

  score_one-nan :
      (alpha value : Double) (st : State)
      → IsNan st.var
      → score_one fp alpha (some st) value ≡ fp.div (fp.sub value st.mean) (fp.sqrt st.var)
  score_one-nan alpha value st e = rw (eq_d-nan_left st.var zero_d e) refl

  pub zscore-Poisoned :
      (s : ℕ) (value : Double) (b : Baseline) → Poisoned s b → IsNan (zscore fp s value b)
  zscore-Poisoned s value b p =
      let same =
        zscore-one fp b.alpha s value b.state
        ∙ ap (λ st. score_one fp b.alpha st value) p.found
        ∙ score_one-nan b.alpha value p.state p.var in
      ap is_nan same
      ∙ nan.div_left (fp.sub value p.state.mean) (fp.sqrt p.state.var)
          (nan.sub_right value p.state.mean p.mean)
