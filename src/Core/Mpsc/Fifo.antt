-- ===== src/Core/Mpsc/Fifo.antt =====
-- include/core/ring_buffer.hpp: MpscRingBuffer is a bounded FIFO under any interleaving.
use jisa.Prelude.{ℕ, ◌+◌, ◌^◌, ◌≤◌, ◌≡◌, arith, length, take}
use jisa.Core.Mpsc.{System, Reach}
use jisa.Core.Mpsc.Invariant.{released}
use jisa.Core.Mpsc.Invariant.Pushes.{InRange}
use jisa.Core.Mpsc.Invariant.Preserved.{Reach-Inv}
use native.Mathlib.Nat.{pow-le-pow_right}

module _ {T : Type 0} (k : ℕ) (d : T) (content : ℕ → T) where
  -- In every state that any number of producers and one consumer reach from a new MpscRingBuffer of
  -- 2 ^ k slots, for k at least 1 and while the claims and the slots together are fewer than 2 ^ 63:
  -- what was popped is what was claimed first, in the order of the claims, with nothing lost or
  -- repeated; and the claims are at most 2 ^ k ahead of the slots that the consumer gave back.
  pub Reach-claim_order :
      {s : System T}
      → 1 ≤ k
      → Reach k content s
      → InRange k s.claimed
      → (s.popped ≡ take (length s.popped) s.claimed)
        × (released s.consumer (length s.popped) ≤ length s.claimed)
        × (length s.claimed ≤ released s.consumer (length s.popped) + 2 ^ k)
  Reach-claim_order many r b =
      let two : 2 ^ 1 ≤ 2 ^ k = pow-le-pow_right (omega arith) many in
      let v = Reach-Inv k d (omega (arith, two)) content r b in
      (v.order, v.shared.low, v.shared.high)
