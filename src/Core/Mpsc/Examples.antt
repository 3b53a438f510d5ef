-- ===== src/Core/Mpsc/Examples.antt =====
-- include/core/ring_buffer.hpp: tests of MpscRingBuffer, and the theorems at concrete buffers.
use jisa.Prelude.{
  ℕ, zero, suc, Bool, List, All, ◌==◌, ◌+◌, ◌^◌, ◌≤◌, ◌<◌, ◌≡◌, refl, [], ◌∷◌, arith, length, take,
  update,
}
use jisa.Prelude.Int.{◌-ℤ◌}
use jisa.Core.Spsc.{slot_of}
use jisa.Core.Mpsc.{Producer, Consumer, System, Push, push, Reach, start, later, new_ring}
use jisa.Core.Mpsc.Invariant.{released}
use jisa.Core.Mpsc.Fifo.{Reach-claim_order}
use jisa.Core.Mpsc.Calls.{try_push, try_pop}
use jisa.Core.Mpsc.Calls.Single.{Call, Lost, calls, capacity_one_loses}
use jisa.Core.Mpsc.Calls.Queue.{Queue, Pushed, Popped, try_push-Queued, try_pop-Queued}

abbrev zeros : ℕ → ℕ
zeros i = 0

-- Producer 3 claims the first position, and producer 5 has only loaded the cursor.
abbrev one_claim : System ℕ
one_claim = record {
  ring = record (new_ring zeros) { write_cursor = 1 };
  producers =
      update
        (update
          (update (update (λ i. Producer.idle) 3 (Producer.got_pos 7 0)) 5 (Producer.got_pos 8 0)) 3
          (Producer.got_seq 7 0 0))
        3 (Producer.claimed 7 0);
  consumer = Consumer.idle;
  claimed = 7 ∷ [];
  popped = [];
}

one_claim-Reach : Reach 1 zeros one_claim
unfolding ◌-ℤ◌
one_claim-Reach =
    later
      (later (later (later start (push 3 (Push.load_cursor 7))) (push 5 (Push.load_cursor 8)))
        (push 3 Push.load_seq))
      (push 3 (Push.won refl refl))

Reach-claim_order_example :
    ([] ≡ take 0 one_claim.claimed)
    × (released one_claim.consumer 0 ≤ length one_claim.claimed)
    × (length one_claim.claimed ≤ released one_claim.consumer 0 + 2 ^ 1)
Reach-claim_order_example = Reach-claim_order 1 0 zeros (omega arith) one_claim-Reach (omega arith)

new_ring-Queue : Queue 1 0 (new_ring zeros) [] []
new_ring-Queue = record {
  shared = record {
    write_at = refl;
    low = omega arith;
    high = omega arith;
    bounded = λ j lt. omega (arith, lt);
    free = two_slots;
    used = λ p a b. absurd (omega (arith, b));
  };
  ready = λ p a b. absurd (omega (arith, b));
  read_at = refl;
  order = refl;
}
  where
    two_slots : (p : ℕ) → 0 ≤ p → p < 2 → slot_of 1 p ≡ p
    two_slots zero _ lt = refl
    two_slots (suc zero) _ lt = refl
    two_slots (suc (suc p)) _ lt = absurd (omega (arith, lt))

-- The first exchange fails.
abbrev fails_once : ℕ → Bool
fails_once i = i == 0

try_push-Queued_example :
    Pushed 1 0 (new_ring zeros) [] [] 9 (try_push 1 2 fails_once 9 (new_ring zeros))
try_push-Queued_example =
    try_push-Queued 1 0 (omega arith) (new_ring zeros) [] [] new_ring-Queue 9 1 2 fails_once
      (omega arith) (omega arith) refl

try_pop-Queued_example : Popped 1 0 (new_ring zeros) [] [] (try_pop 1 (new_ring zeros))
try_pop-Queued_example =
    try_pop-Queued 1 0 (omega arith) (new_ring zeros) [] [] new_ring-Queue (omega arith)

abbrev more : List (Call ℕ)
more = Call.pop ∷ Call.push 6 ∷ Call.pop ∷ []

capacity_one_loses_example : All Lost (calls 0 (Call.push 4 ∷ Call.push 5 ∷ more) (new_ring zeros))
capacity_one_loses_example = capacity_one_loses zeros 4 5 more (omega arith)
