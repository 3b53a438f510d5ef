-- ===== src/Core/Spsc/Counters.antt =====
-- include/core/ring_buffer.hpp: the arithmetic of counters that wrap at 2 ^ 64 over 2 ^ k slots.
use Prim.Native.Nat.{◌∣◌}
use native.Mathlib.Nat.{
  mod-mod_of_dvd, pow-le-pow_right, pow-suc, div-add-mod, mul-le-mul_left, mul-suc, dvd_refl,
  dvd-mul_right_of_dvd, one-le-pow,
}
use native.Mathlib.Decide.{dec_lt}
use jisa.Prelude.{ℕ, zero, suc, ◌+◌, ◌-◌, ◌*◌, ◌%◌, ◌/◌, ◌^◌, ◌≡◌, ◌≢◌, ◌∙◌, ◌≤◌, ◌<◌, arith, subst}
use jisa.Prelude.Bits.{bit_and_mask}
use jisa.Core.Spsc.{size_mod, sub_size, next_size, slot_of}

two_pow-dvd : (j k : ℕ) → 2 ^ k ∣ 2 ^ (j + k)
two_pow-dvd zero k = rw (le_add) (dvd_refl (2 ^ k))
  where
    le_add : zero + k ≡ k
    le_add = omega arith
two_pow-dvd (suc j) k = rw (one_up, pow-suc) (dvd-mul_right_of_dvd _ (two_pow-dvd j k) 2)
  where
    one_up : suc j + k ≡ suc (j + k)
    one_up = omega arith

-- The mask of a wrapped counter is the position of the counter.
pub slot_of-counter : (k n : ℕ) → k ≤ 64 → slot_of k (n % size_mod) ≡ n % 2 ^ k
slot_of-counter k n h = bit_and_mask k (n % size_mod) ∙ mod-mod_of_dvd (2 ^ k) n divides
  where
    divides : 2 ^ k ∣ size_mod
    divides = subst (λ e. 2 ^ k ∣ 2 ^ e) {y = 64} (omega arith) (two_pow-dvd (64 - k) k)

pub capacity-le : (k : ℕ) → k ≤ 63 → 2 ^ k ≤ 2 ^ 63
capacity-le k h = pow-le-pow_right (omega arith) h

pub capacity_pos : (k : ℕ) → 0 < 2 ^ k
capacity_pos k = one-le-pow k 2 (omega arith)

below_lap : (c a b : ℕ) → c * a < c * b → c * b < c * a + c → ⊥
below_lap c a b p q = elim (dec_lt a b) [
  | yes lt ↦ omega (arith, mul-le-mul_left c lt, mul-suc c a)
  | no ge ↦ omega (arith, mul-le-mul_left c (le_of_not_lt ge))
]
  where
    le_of_not_lt : ¬ (a < b) → b ≤ a
    le_of_not_lt h = omega arith

-- Two counters less than a lap apart have different positions.
pub position-ne : (c i j : ℕ) → i < j → j < i + c → i % c ≢ j % c
position-ne c i j p q e =
    below_lap c (i / c) (j / c) (omega (arith, div-add-mod i c, div-add-mod j c))
      (omega (arith, div-add-mod i c, div-add-mod j c))

-- The wrapped difference is the true one.
pub sub_size-counters :
    (h t : ℕ) → h ≤ t → t ≤ h + 2 ^ 63 → sub_size (t % size_mod) (h % size_mod) ≡ t - h
sub_size-counters h t p q = omega arith

pub next_size-counter : (n : ℕ) → next_size (n % size_mod) ≡ (n + 1) % size_mod
next_size-counter n = omega arith
