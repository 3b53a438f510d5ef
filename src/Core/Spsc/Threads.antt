-- ===== src/Core/Spsc/Threads.antt =====
-- include/core/ring_buffer.hpp: SpscRingBuffer under one producer thread and one consumer thread,
-- an access to shared memory at a time, in any order. An acquire load sees the last release store.
-- `pushed` and `popped` are the histories of the calls that returned true.
mod Steps
pub mod Invariant
pub mod Fifo
use jisa.Prelude.{ℕ, ◌-◌, ◌^◌, ◌≡◌, ◌≢◌, ◌≤◌, ◌<◌, List, [], ◌∷◌, ◌++◌, get_or, set, length}
use jisa.Core.Spsc.{Ring, sub_size, next_size, slot_of}

-- Where `try_push(item)` stands, with the locals that are live there.
pub data Producer (T : Type 0) : Type 0 where
  idle : Producer T
  got_tail : (item : T) (tail : ℕ) → Producer T
  got_head : (item : T) (tail head : ℕ) → Producer T
  wrote : (item : T) (tail : ℕ) → Producer T

-- Where `try_pop(out)` stands.
pub data Consumer (T : Type 0) : Type 0 where
  idle : Consumer T
  got_head : (head : ℕ) → Consumer T
  got_tail : (head tail : ℕ) → Consumer T
  got_item : (head : ℕ) (item : T) → Consumer T

pub record System (T : Type 0) : Type 0 where
  pub ring : Ring T
  pub producer : Producer T
  pub consumer : Consumer T
  pub pushed : List T
  pub popped : List T

module _ {T : Type 0} (k : ℕ) (d : T) where
  -- A step of the producer, then of the consumer.
  pub data Push (s : System T) : Producer T → System T → Type 0 where
    load_tail :
        (item : T)
        → Push s Producer.idle (record s { producer = Producer.got_tail item s.ring.tail })
    load_head :
        {item : T} {tail : ℕ}
        → Push s
            (Producer.got_tail item tail)
            (record s { producer = Producer.got_head item tail s.ring.head })
    full :
        {item : T} {tail head : ℕ}
        → 2 ^ k ≤ sub_size tail head
        → Push s (Producer.got_head item tail head) (record s { producer = Producer.idle })
    store_item :
        {item : T} {tail head : ℕ}
        → sub_size tail head < 2 ^ k
        → Push s (Producer.got_head item tail head) (record s {
          producer = Producer.wrote item tail;
          ring = record (s.ring) { storage = set s.ring.storage (slot_of k tail) item };
        })
    store_tail :
        {item : T} {tail : ℕ}
        → Push s (Producer.wrote item tail) (record s {
          producer = Producer.idle;
          ring = record (s.ring) { tail = next_size tail };
          pushed = s.pushed ++ (item ∷ []);
        })

  pub data Pop (s : System T) : Consumer T → System T → Type 0 where
    load_head : Pop s Consumer.idle (record s { consumer = Consumer.got_head s.ring.head })
    load_tail :
        {head : ℕ}
        → Pop s
            (Consumer.got_head head)
            (record s { consumer = Consumer.got_tail head s.ring.tail })
    empty :
        {head tail : ℕ}
        → head ≡ tail
        → Pop s (Consumer.got_tail head tail) (record s { consumer = Consumer.idle })
    load_item :
        {head tail : ℕ}
        → head ≢ tail
        → Pop s (Consumer.got_tail head tail) (record s {
          consumer = Consumer.got_item head (get_or s.ring.storage (slot_of k head) d);
        })
    store_head :
        {head : ℕ} {item : T}
        → Pop s (Consumer.got_item head item) (record s {
          consumer = Consumer.idle;
          ring = record (s.ring) { head = next_size head };
          popped = s.popped ++ (item ∷ []);
        })

  pub data Step (s : System T) : System T → Type 0 where
    push : {t : System T} → Push s s.producer t → Step s t
    pop : {t : System T} → Pop s s.consumer t → Step s t

  -- A new ring holds 2 ^ k items of any value.
  abbrev pub init : List T → System T
  init storage = record {
    ring = record { head = 0; tail = 0; storage = storage };
    producer = Producer.idle;
    consumer = Consumer.idle;
    pushed = [];
    popped = [];
  }

  pub data Reach (storage : List T) : System T → Type 0 where
    start : Reach storage (init storage)
    later : {s t : System T} → Reach storage s → Step s t → Reach storage t
