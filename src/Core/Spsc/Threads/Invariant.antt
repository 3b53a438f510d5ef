-- ===== src/Core/Spsc/Threads/Invariant.antt =====
-- include/core/ring_buffer.hpp: what holds of a SpscRingBuffer whatever the two threads have done.
-- The counters are the lengths of the histories modulo 2 ^ 64, so they may have wrapped.
pub use jisa.Core.Spsc.Threads.Steps.{
  Shape, Inv, Shape-store_item, Shape-store_tail, Shape-store_head,
}
use jisa.Core.Spsc.Threads.Steps.{Push-Inv, Pop-Inv}
use jisa.Prelude.{ℕ, ◌^◌, ◌≡◌, ◌≤◌, List, arith, length, refl}
use jisa.Core.Spsc.Threads.{System, Step, push, pop, Reach, start, later}

module _ {T : Type 0} (k : ℕ) (d : T) (small : k ≤ 63) where
  Step-Inv : {s t : System T} → Step k d s t → Inv k d s → Inv k d t
  Step-Inv {s} (push m) v = Push-Inv k d small m v.shape v.producer v.consumer
  Step-Inv {s} (pop m) v = Pop-Inv k d small m v.shape v.producer v.consumer

  -- Every reachable state is well formed.
  pub Reach-Inv :
      {storage : List T} {s : System T} → length storage ≡ 2 ^ k → Reach k d storage s → Inv k d s
  Reach-Inv room start = record {
    shape = record {
      room = room;
      head_at = omega arith;
      tail_at = omega arith;
      ahead = omega arith;
      fits = omega arith;
      holds = λ i p q. absurd (omega arith);
      order = refl;
    };
    producer = tt;
    consumer = tt;
  }
  Reach-Inv room (later r m) = Step-Inv m (Reach-Inv room r)
