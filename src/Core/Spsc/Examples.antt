-- ===== src/Core/Spsc/Examples.antt =====
-- SpscRingBuffer on two slots: tests, and the theorems at concrete states.
use jisa.Prelude.{ℕ, ◌+◌, ◌≡◌, ◌≤◌, ◌<◌, refl, some, List, [], ◌∷◌, arith, take, length}
use jisa.Core.Spsc.{Ring, try_push, try_pop}
use jisa.Core.Spsc.Threads.{Producer, Consumer, System, Push, Pop, push, pop, Reach, start, later}
use jisa.Core.Spsc.Threads.Invariant.{Shape}
use jisa.Core.Spsc.Threads.Fifo.{Reach-fifo}
use jisa.Core.Spsc.Calls.{Pushed, Popped, try_push-Pushed, try_pop-Popped}

abbrev blank : List ℕ
blank = 0 ∷ 0 ∷ []

-- The consumer loads the counters of an empty ring, then the producer publishes 7, then the consumer
-- gives up and tries again.
abbrev after_one : System ℕ
after_one = record {
  ring = record { head = 1; tail = 1; storage = 7 ∷ 0 ∷ [] };
  producer = Producer.idle;
  consumer = Consumer.idle;
  pushed = 7 ∷ [];
  popped = 7 ∷ [];
}

after_one-Reach : Reach 1 0 blank after_one
after_one-Reach =
    later
      (later
        (later
          (later
            (later
              (later
                (later
                  (later
                    (later (later (later start (pop Pop.load_head)) (push (Push.load_tail 7)))
                      (push Push.load_head))
                    (pop Pop.load_tail))
                  (push (Push.store_item (omega arith))))
                (push Push.store_tail))
              (pop (Pop.empty refl)))
            (pop Pop.load_head))
          (pop Pop.load_tail))
        (pop (Pop.load_item (omega arith))))
      (pop Pop.store_head)

Reach-fifo_example :
    (after_one.popped ≡ take 1 after_one.pushed)
    × (length after_one.popped ≤ length after_one.pushed)
    × (length after_one.pushed ≤ length after_one.popped + 2)
Reach-fifo_example = Reach-fifo 1 0 (omega arith) refl after_one-Reach

-- The counters of this ring have wrapped: 2 ^ 64 items went through it.
abbrev wrapped : Ring ℕ
wrapped = record { head = 0xffff_ffff_ffff_ffff; tail = 0; storage = 4 ∷ 5 ∷ [] }

push_at_wrap :
    (try_push 1 6 wrapped).0
    ≡ record { head = 0xffff_ffff_ffff_ffff; tail = 1; storage = 6 ∷ 5 ∷ [] }
unfolding try_push
push_at_wrap = refl

pop_at_wrap : try_pop 1 0 wrapped ≡ (record { head = 0; tail = 0; storage = 4 ∷ 5 ∷ [] }, some 5)
unfolding try_pop
pop_at_wrap = refl

abbrev half_full : Ring ℕ
half_full = record { head = 1; tail = 2; storage = 4 ∷ 5 ∷ [] }

half_full-Shape : Shape 1 0 half_full (4 ∷ 5 ∷ []) (4 ∷ [])
half_full-Shape = record {
  room = refl;
  head_at = refl;
  tail_at = refl;
  ahead = omega arith;
  fits = omega arith;
  holds = λ i p q. rw (one i p q);
  order = refl;
}
  where
    one : (i : ℕ) → 1 ≤ i → i < 2 → i ≡ 1
    one i p q = omega arith

try_push-Pushed_example : Pushed 1 0 half_full (4 ∷ 5 ∷ []) (4 ∷ []) 6
try_push-Pushed_example =
    try_push-Pushed 1 0 (omega arith) half_full (4 ∷ 5 ∷ []) (4 ∷ []) 6 half_full-Shape

try_pop-Popped_example : Popped 1 0 half_full (4 ∷ 5 ∷ []) (4 ∷ [])
try_pop-Popped_example =
    try_pop-Popped 1 0 (omega arith) half_full (4 ∷ 5 ∷ []) (4 ∷ []) half_full-Shape
