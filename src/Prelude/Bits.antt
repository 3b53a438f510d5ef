-- ===== src/Prelude/Bits.antt =====
-- `&`, `|` and `^` on numbers: the lowest digit, disjoint fields, masks and ranges.
use Prim.Native.Nat.{
  ℕ, zero, suc, ◌+◌, ◌-◌, ◌*◌, ◌/◌, ◌%◌, ◌^◌, ◌≤◌, ◌<◌, min, max, digits, differ, bit_and-bitwise,
  bit_or-bitwise, bit_xor-bitwise,
}
pub use Prim.Native.Nat.{bit_and, bit_or, bit_xor}
use mathlib.Core.Path.{◌≡◌, refl, sym, ap, ◌∙◌}
use native.Mathlib.Nat.{le_refl, pow-suc, one-le-pow}
use native.Mathlib.Omega.{arith}

module _ (z : ℕ → ℕ) (f : ℕ → ℕ → ℕ) where
  digits_of_zero : (n b : ℕ) → digits z f n 0 b ≡ z b
  digits_of_zero zero b = refl
  digits_of_zero (suc n) b = refl

  -- The fuel of the recursion on digits does not matter once it is enough.
  digits_enough : (a n m b : ℕ) → a ≤ n → a ≤ m → digits z f n a b ≡ digits z f m a b
  digits_enough zero n m b p q = digits_of_zero n b ∙ sym (digits_of_zero m b)
  digits_enough (suc a) zero m b p q = absurd (omega arith)
  digits_enough (suc a) (suc n) zero b p q = absurd (omega arith)
  digits_enough (suc a) (suc n) (suc m) b p q =
      ap (λ t. t * 2 + f (suc a % 2) (b % 2))
        (digits_enough (suc a / 2) n m (b / 2) (omega arith) (omega arith))

  -- One digit off the bottom.
  digits_step :
      (a b : ℕ)
      → digits z f (suc a) (suc a) b
        ≡ digits z f (suc a / 2) (suc a / 2) (b / 2) * 2 + f (suc a % 2) (b % 2)
  digits_step a b =
      ap (λ t. t * 2 + f (suc a % 2) (b % 2))
        (digits_enough (suc a / 2) a (suc a / 2) (b / 2) (omega arith) (le_refl _))

or_step : (a b : ℕ) → bit_or a b ≡ bit_or (a / 2) (b / 2) * 2 + max (a % 2) (b % 2)
or_step zero b = simp bit_or-bitwise (omega arith)
or_step (suc a) b = simp bit_or-bitwise (digits_step (λ d. d) max a b)

and_step : (a b : ℕ) → bit_and a b ≡ bit_and (a / 2) (b / 2) * 2 + min (a % 2) (b % 2)
and_step zero b = simp bit_and-bitwise (omega arith)
and_step (suc a) b = simp bit_and-bitwise (digits_step (λ d. 0) min a b)

xor_step : (a b : ℕ) → bit_xor a b ≡ bit_xor (a / 2) (b / 2) * 2 + differ (a % 2) (b % 2)
xor_step zero b = simp bit_xor-bitwise (omega arith)
xor_step (suc a) b = simp bit_xor-bitwise (digits_step (λ d. d) differ a b)

differ_le_one : (a b : ℕ) → a ≤ 1 → b ≤ 1 → differ a b ≤ 1
differ_le_one zero b p q = q
differ_le_one (suc a) zero p q = p
differ_le_one (suc zero) (suc b) p q = omega arith
differ_le_one (suc (suc a)) (suc b) p q = absurd (omega arith)

bit_or-zero : (b : ℕ) → bit_or 0 b ≡ b
bit_or-zero b = bit_or-bitwise 0 b

mul_double : (q k : ℕ) → q * 2 ^ suc k ≡ 2 * (q * 2 ^ k)
mul_double q k = omega (arith, ap (λ (t : ℕ). q * t) (pow-suc 2 k))

-- A field below bit `k` and a field shifted past it do not meet: their union is their sum.
pub bit_or_fields : (k lo hi : ℕ) → lo < 2 ^ k → bit_or lo (hi * 2 ^ k) ≡ lo + hi * 2 ^ k
bit_or_fields zero zero hi h = omega (arith, bit_or-zero (hi * 2 ^ 0))
bit_or_fields zero (suc lo) hi h = absurd (omega arith)
bit_or_fields (suc k) lo hi h = ground (
  arith,
  or_step lo (hi * 2 ^ suc k),
  mul_double hi k,
  pow-suc 2 k,
  bit_or_fields k (lo / 2) hi (omega arith),
)

and_nothing : (a bound : ℕ) → a < bound → bit_and a 0 ≡ 0
and_nothing a zero h = absurd (omega arith)
and_nothing zero (suc bound) h = refl
and_nothing (suc a) (suc bound) h =
    omega (arith, and_nothing (suc a / 2) bound (omega arith), and_step (suc a) 0)

-- Masking with `k` ones keeps the field below bit `k`.
bit_and_low : (k hi lo : ℕ) → lo < 2 ^ k → bit_and (lo + hi * 2 ^ k) (2 ^ k - 1) ≡ lo
bit_and_low zero hi lo h = ground (arith, and_nothing (lo + hi * 1) (lo + hi * 1 + 1) (omega arith))
bit_and_low (suc k) hi lo h = ground (
  arith,
  and_step (lo + hi * 2 ^ suc k) (2 ^ suc k - 1),
  mul_double hi k,
  pow-suc 2 k,
  one-le-pow k 2,
  bit_and_low k hi (lo / 2) (omega arith),
)

-- So it is the remainder by `2 ^ k`.
pub bit_and_mask : (k a : ℕ) → bit_and a (2 ^ k - 1) ≡ a % 2 ^ k
bit_and_mask k a = ground (arith, one-le-pow k 2, bit_and_low k (a / 2 ^ k) (a % 2 ^ k))

-- The exclusive or of two words of `k` bits has `k` bits.
pub bit_xor-lt : (k a b : ℕ) → a < 2 ^ k → b < 2 ^ k → bit_xor a b < 2 ^ k
bit_xor-lt zero zero zero p q = omega (arith, bit_xor-bitwise 0 0)
bit_xor-lt zero zero (suc b) p q = absurd (omega arith)
bit_xor-lt zero (suc a) b p q = absurd (omega arith)
bit_xor-lt (suc k) a b p q = omega (
  arith,
  xor_step a b,
  differ_le_one (a % 2) (b % 2) (omega arith) (omega arith),
  pow-suc 2 k,
  bit_xor-lt k (a / 2) (b / 2) (omega (arith, pow-suc 2 k)) (omega (arith, pow-suc 2 k)),
)

differ_twice_right : (x y : ℕ) → x ≤ 1 → y ≤ 1 → differ (differ x y) y ≡ x
differ_twice_right zero zero p q = refl
differ_twice_right zero (suc zero) p q = refl
differ_twice_right (suc zero) zero p q = refl
differ_twice_right (suc zero) (suc zero) p q = refl
differ_twice_right zero (suc (suc y)) p q = absurd (omega arith)
differ_twice_right (suc zero) (suc (suc y)) p q = absurd (omega arith)
differ_twice_right (suc (suc x)) y p q = absurd (omega arith)

differ_twice_left : (x y : ℕ) → x ≤ 1 → y ≤ 1 → differ x (differ x y) ≡ y
differ_twice_left zero y p q = refl
differ_twice_left (suc zero) zero p q = refl
differ_twice_left (suc zero) (suc zero) p q = refl
differ_twice_left (suc zero) (suc (suc y)) p q = absurd (omega arith)
differ_twice_left (suc (suc x)) y p q = absurd (omega arith)

-- The two parts of an exclusive or, from its lowest digit.
xor_parts :
    (a b : ℕ)
    → (bit_xor a b / 2 ≡ bit_xor (a / 2) (b / 2)) × (bit_xor a b % 2 ≡ differ (a % 2) (b % 2))
xor_parts a b =
    omega (arith, xor_step a b, differ_le_one (a % 2) (b % 2) (omega arith) (omega arith))

-- Twice the same exclusive or gives the number back, on either side.
pub bit_xor_twice_right : (k a b : ℕ) → a < 2 ^ k → b < 2 ^ k → bit_xor (bit_xor a b) b ≡ a
bit_xor_twice_right zero zero zero p q = refl
bit_xor_twice_right zero zero (suc b) p q = absurd (omega arith)
bit_xor_twice_right zero (suc a) b p q = absurd (omega arith)
bit_xor_twice_right (suc k) a b p q =
    xor_step (bit_xor a b) b
    ∙ rw ((xor_parts a b).0, (xor_parts a b).1)
        (rw (differ_twice_right (a % 2) (b % 2) (omega arith) (omega arith)) (
          omega (
            arith,
            pow-suc 2 k,
            bit_xor_twice_right k (a / 2) (b / 2) (omega (arith, pow-suc 2 k))
                (omega (arith, pow-suc 2 k)),
          )))

pub bit_xor_twice_left : (k a b : ℕ) → a < 2 ^ k → b < 2 ^ k → bit_xor a (bit_xor a b) ≡ b
bit_xor_twice_left zero zero zero p q = refl
bit_xor_twice_left zero zero (suc b) p q = absurd (omega arith)
bit_xor_twice_left zero (suc a) b p q = absurd (omega arith)
bit_xor_twice_left (suc k) a b p q =
    xor_step a (bit_xor a b)
    ∙ rw ((xor_parts a b).0, (xor_parts a b).1)
        (rw (differ_twice_left (a % 2) (b % 2) (omega arith) (omega arith)) (
          omega (
            arith,
            pow-suc 2 k,
            bit_xor_twice_left k (a / 2) (b / 2) (omega (arith, pow-suc 2 k))
                (omega (arith, pow-suc 2 k)),
          )))
