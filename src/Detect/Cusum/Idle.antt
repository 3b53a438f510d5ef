-- ===== src/Detect/Cusum/Idle.antt =====
-- include/detect/cusum.hpp: without residuals the sums do not get past the threshold.
use jisa.Prelude.{◌≡◌, refl, inl, inr, Bool, true, false, arith, if◌then◌else◌, Bool-cases}
use jisa.Prelude.Dict.{nat_key, bytes_key}
use jisa.Double.{Double, Arith, is_nan, zero_d, lt_d, neg_d, fmax_d, fmin_d}
use jisa.Double.Nan.{IsNan, PassesNan, lt_d-nan_left, lt_d-nan_right}
use jisa.Double.OneWay.{MovesOneWay}
use jisa.Detect.Cusum.{State, Config, accumulate}
use jisa.Detect.Cusum.Warmup.{accumulate-Fired}

-- A slack and a threshold that are not below zero.
pub record Sane (c : Config) : Type 0 where
  pub k : lt_d c.k zero_d ≡ false
  pub h : lt_d c.h zero_d ≡ false
  pub neg_h : lt_d zero_d (neg_d c.h) ≡ false

-- Neither sum is past the threshold.
abbrev pub Within : Config → State → Type 0
Within c st = (lt_d c.h st.s_pos ≡ false) × (lt_d st.s_neg (neg_d c.h) ≡ false)

not_above :
    (h a b : Double) → lt_d h a ≡ false → lt_d a b ≡ false → (IsNan a → IsNan b) → lt_d h b ≡ false
not_above h a b p q e = elim (Bool-cases (is_nan a)) [
  | inl n ↦ lt_d-nan_right h b (e n)
  | inr n ↦ ground arith
]

pub either : {A : Type 0} (P : A → Type 0) (t : Bool) (x y : A) → P x → P y → P (if t then x else y)
either P true x y p q = p
either P false x y p q = q

fmax_d-either : (P : Double → Type 0) (a b : Double) → P a → P b → P (fmax_d a b)
fmax_d-either P a b p q =
    either P (is_nan a) b _ q (either P (is_nan b) a _ p (either P (lt_d a b) b a q p))

fmin_d-either : (P : Double → Type 0) (a b : Double) → P a → P b → P (fmin_d a b)
fmin_d-either P a b p q =
    either P (is_nan a) b _ q (either P (is_nan b) a _ p (either P (lt_d b a) b a q p))

not_below :
    (h a b : Double) → lt_d a h ≡ false → lt_d b a ≡ false → (IsNan a → IsNan b) → lt_d b h ≡ false
not_below h a b p q e = elim (Bool-cases (is_nan a)) [
  | inl n ↦ lt_d-nan_left b h (e n)
  | inr n ↦ ground arith
]

module _ (fp : Arith) (nan : PassesNan fp) (one_way : MovesOneWay fp) (c : Config)
    (sane : Sane c) where
  -- One round of the sums without a residual.
  idle_pos : (s : Double) → lt_d c.h s ≡ false → lt_d c.h (fp.sub (fp.add s zero_d) c.k) ≡ false
  idle_pos s v =
      let t = fp.add s zero_d in
      not_above c.h t (fp.sub t c.k)
        (not_above c.h s t v (one_way.add_zero s) (nan.add_left s zero_d))
        (one_way.sub_down t c.k sane.k) (nan.sub_left t c.k)

  idle_neg :
      (s : Double)
      → lt_d s (neg_d c.h) ≡ false
      → lt_d (fp.add (fp.add s zero_d) c.k) (neg_d c.h) ≡ false
  idle_neg s v =
      let t = fp.add s zero_d in
      not_below (neg_d c.h) t (fp.add t c.k)
        (not_below (neg_d c.h) s t v (one_way.add_up s zero_d refl) (nan.add_left s zero_d))
        (one_way.add_up t c.k sane.k) (nan.add_left t c.k)

  pub accumulate-idle :
      (st : State)
      → Within c st
      → ((accumulate fp c zero_d st).1 ≡ false) × Within c (accumulate fp c zero_d st).0
  unfolding accumulate
  accumulate-idle st v =
      let p =
        fmax_d-either (λ x. lt_d c.h x ≡ false) zero_d (fp.sub (fp.add st.s_pos zero_d) c.k) sane.h
          (idle_pos st.s_pos v.0) in
      let q =
        fmin_d-either (λ x. lt_d x (neg_d c.h) ≡ false) zero_d (fp.add (fp.add st.s_neg zero_d) c.k)
          sane.neg_h (idle_neg st.s_neg v.1) in
      rw (p, q) (refl, (p, q))

  pub accumulate-Within : (r : Double) (st : State) → Within c (accumulate fp c r st).0
  accumulate-Within r st = elim (accumulate-Fired fp c r st) [
    | inl cleared ↦ rw (cleared.1, cleared.2) (sane.h, sane.neg_h)
    | inr kept ↦ (kept.1, kept.2)
  ]
