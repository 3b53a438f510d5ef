-- ===== src/Core/Spsc/Threads/Fifo.antt =====
-- include/core/ring_buffer.hpp: SpscRingBuffer is a bounded FIFO under any interleaving.
use jisa.Prelude.{ℕ, ◌+◌, ◌^◌, ◌≡◌, ◌≤◌, List, length, take}
use jisa.Core.Spsc.Threads.{System, Reach}
use jisa.Core.Spsc.Threads.Invariant.{Reach-Inv}

module _ {T : Type 0} (k : ℕ) (d : T) where
  -- In every state that one producer and one consumer reach from a new ring of 2 ^ k slots, in any
  -- interleaving and however often the counters have wrapped, what was popped is what was pushed
  -- first, in order, with nothing lost or repeated, and at most 2 ^ k pushed items are not popped.
  pub Reach-fifo :
      {storage : List T} {s : System T}
      → k ≤ 63
      → length storage ≡ 2 ^ k
      → Reach k d storage s
      → (s.popped ≡ take (length s.popped) s.pushed)
        × (length s.popped ≤ length s.pushed)
        × (length s.pushed ≤ length s.popped + 2 ^ k)
  Reach-fifo small room r = let v = (Reach-Inv k d small room r).shape in (v.order, v.ahead, v.fits)
