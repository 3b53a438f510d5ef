-- ===== src/Double.antt =====
-- `double`: a value is its 64-bit IEEE 754 pattern. Comparisons, negation and the tests that the
-- standard fixes by the pattern alone are written out; the rounding operations are a parameter.
pub mod Whole
pub mod Nan
pub mod OneWay
use jisa.Prelude.{
  ℕ, ◌+◌, ◌-◌, ◌^◌, ◌≤◌, ◌≡◌, Bool, true, false, not, ◌&&◌, arith, ltb, ◌==◌, if◌then◌else◌,
}
use jisa.Prelude.Int.{ℤ}

abbrev pub Double : Type 0
Double = ℕ

abbrev pub zero_d : Double
zero_d = 0

abbrev pub one_d : Double
one_d = 0x3ff0_0000_0000_0000

-- 1e9
abbrev pub billion_d : Double
billion_d = 0x41cd_cd65_0000_0000

abbrev pub infinity_d : Double
infinity_d = 0x7ff0_0000_0000_0000

abbrev sign_bit : ℕ
sign_bit = 2 ^ 63

-- The pattern without its sign.
abbrev pub magnitude : Double → ℕ
magnitude d = if ltb d sign_bit then d else d - sign_bit

abbrev pub is_nan : Double → Bool
is_nan d = ltb infinity_d (magnitude d)

-- A number that grows with the value: negative values fall below 2 ^ 63 as they grow in magnitude.
abbrev pub rank : Double → ℕ
rank d = if ltb d sign_bit then sign_bit + d else sign_bit + sign_bit - d

-- `a < b` and `a == b`: false when a side is NaN; the two zeros are equal.
abbrev pub lt_d : Double → Double → Bool
lt_d a b = not (is_nan a) && not (is_nan b) && ltb (rank a) (rank b)

abbrev pub eq_d : Double → Double → Bool
eq_d a b = not (is_nan a) && not (is_nan b) && rank a == rank b

-- `-a`
abbrev pub neg_d : Double → Double
neg_d a = if ltb a sign_bit then a + sign_bit else a - sign_bit

-- `std::fmax` and `std::fmin`: of a NaN and a number the number.
abbrev pub fmax_d : Double → Double → Double
fmax_d a b = if is_nan a then b else if is_nan b then a else if lt_d a b then b else a

abbrev pub fmin_d : Double → Double → Double
fmin_d a b = if is_nan a then b else if is_nan b then a else if lt_d b a then b else a

-- The operations that round, from the hardware and the C library.
pub record Arith : Type 0 where
  pub add : Double → Double → Double
  pub sub : Double → Double → Double
  pub mul : Double → Double → Double
  pub div : Double → Double → Double
  pub sqrt : Double → Double
  pub ceil : Double → Double
  pub of_int : ℤ → Double
  pub to_int : Double → ℤ

pub lt_d_irrefl : (a : Double) → lt_d a a ≡ false
lt_d_irrefl a = ground arith

pub lt_d_trans : (a b c : Double) → lt_d a b ≡ true → lt_d b c ≡ true → lt_d a c ≡ true
lt_d_trans a b c p q = ground arith

-- Away from NaN, "not below" is an order by rank.
pub rank_of_not_lt_d :
    (a b : Double) → is_nan a ≡ false → is_nan b ≡ false → lt_d a b ≡ false → rank b ≤ rank a
rank_of_not_lt_d a b p q h = ground arith

pub rank_of_lt_d : (a b : Double) → lt_d a b ≡ true → rank a ≤ rank b
rank_of_lt_d a b h = ground arith

pub not_lt_d_of_rank : (a b : Double) → rank b ≤ rank a → lt_d a b ≡ false
not_lt_d_of_rank a b h = ground arith
