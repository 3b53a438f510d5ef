-- ===== src/Core/Mpsc/Positions.antt =====
-- include/core/ring_buffer.hpp: the positions of MpscRingBuffer and the slots they share.
use jisa.Prelude.{ℕ, ◌+◌, ◌%◌, ◌^◌, ◌≤◌, ◌<◌, ◌≡◌, sym, ap, ◌∙◌, ◌≢◌, arith}
use jisa.Prelude.Int.{pos, pos_part, neg_part, -ℤ_parts, of_u64}
use native.Mathlib.Nat.{mod-lt}
use native.Mathlib.Decide.{dec_lt}
use jisa.Prelude.Bits.{bit_and_mask}
use jisa.Core.Spsc.{slot_of}
use jisa.Core.Spsc.Counters.{position-ne, capacity_pos}
use jisa.Core.Mpsc.{diff_of}

pub slot_of-lt : (k p : ℕ) → slot_of k p < 2 ^ k
slot_of-lt k p = omega (arith, bit_and_mask k p, mod-lt p (capacity_pos k))

-- Positions less than a lap apart have different slots.
pub slot_of-ne : (k p q : ℕ) → p < q → q < p + 2 ^ k → slot_of k p ≢ slot_of k q
slot_of-ne k p q lt near e =
    position-ne (2 ^ k) p q lt near (sym (bit_and_mask k p) ∙ e ∙ bit_and_mask k q)

-- So have different positions of one lap.
pub slot_of-apart :
    (k lo p q : ℕ)
    → lo ≤ p
    → p < lo + 2 ^ k
    → lo ≤ q
    → q < lo + 2 ^ k
    → p ≢ q
    → slot_of k p ≢ slot_of k q
slot_of-apart k lo p q a b c e ne = elim (dec_lt p q) [
  | yes lt ↦ slot_of-ne k p q lt (omega arith)
  | no ge ↦ λ same. slot_of-ne k q p (omega arith) (omega arith) (sym same)
]

pub slot_of-lap : (k p : ℕ) → slot_of k (p + 2 ^ k) ≡ slot_of k p
slot_of-lap k p = bit_and_mask k (p + 2 ^ k) ∙ lap ∙ sym (bit_and_mask k p)
  where
    lap : (p + 2 ^ k) % 2 ^ k ≡ p % 2 ^ k
    lap = grind (arith, capacity_pos)

-- On values that fit `ptrdiff_t` the test for zero is equality.
pub diff_of-zero : (seq p : ℕ) → seq < 2 ^ 63 → p < 2 ^ 63 → diff_of seq p ≡ pos 0 → seq ≡ p
diff_of-zero seq p a b e =
    ground (arith, -ℤ_parts (of_u64 seq) (of_u64 p), ap pos_part e, ap neg_part e)
