-- ===== src/Core/Mpsc.antt =====
-- include/core/ring_buffer.hpp: MpscRingBuffer of 2 ^ k slots. The array of slots is two families over
-- the slots' indices, all of which are masked. Producers are numbered; every one of them and the
-- consumer take one access to shared memory at a time, in any order, and a load sees the last store.
-- `compare_exchange_weak` may fail at any time, and hands back the cursor's value when it does.
-- `claimed` holds the items whose producer has won the exchange, in the order of the exchanges, and
-- `popped` those whose `try_pop` is done.
pub mod Positions
pub mod Invariant
pub mod Fifo
pub mod Calls
mod Examples
use jisa.Prelude.{ℕ, ◌+◌, ◌%◌, ◌^◌, ◌≡◌, ◌≢◌, List, [], ◌∷◌, ◌++◌, update}
use jisa.Prelude.Int.{ℤ, pos, ◌-ℤ◌, ◌<ℤ◌, of_u64}
use jisa.Core.Spsc.{size_mod, next_size, slot_of}

-- Where a call `try_push(item)` stands, with the locals that are live there.
pub data Producer (T : Type 0) : Type 0 where
  idle : Producer T
  got_pos : (item : T) (p : ℕ) → Producer T
  got_seq : (item : T) (p seq : ℕ) → Producer T
  claimed : (item : T) (p : ℕ) → Producer T
  wrote : (item : T) (p : ℕ) → Producer T

-- Where `try_pop(out)` stands.
pub data Consumer (T : Type 0) : Type 0 where
  idle : Consumer T
  got_pos : (p : ℕ) → Consumer T
  got_seq : (p seq : ℕ) → Consumer T
  got_item : (p : ℕ) (item : T) → Consumer T
  recycled : (p : ℕ) (item : T) → Consumer T

pub record Ring (T : Type 0) : Type 0 where
  pub write_cursor : ℕ
  pub read_cursor : ℕ
  pub sequence : ℕ → ℕ
  pub content : ℕ → T

pub record System (T : Type 0) : Type 0 where
  pub ring : Ring T
  pub producers : ℕ → Producer T
  pub consumer : Consumer T
  pub claimed : List T
  pub popped : List T

-- `seq - pos`, both converted to `ptrdiff_t`.
abbrev pub diff_of : ℕ → ℕ → ℤ
diff_of seq p = of_u64 seq -ℤ of_u64 p

-- `pos + Capacity`
abbrev pub next_lap : ℕ → ℕ → ℕ
next_lap k p = (p + 2 ^ k) % size_mod

-- A new buffer, over any contents of the slots.
abbrev pub new_ring : {T : Type 0} → (ℕ → T) → Ring T
new_ring content = record {
  write_cursor = 0;
  read_cursor = 0;
  sequence = λ i. i;
  content = content;
}

module _ {T : Type 0} (k : ℕ) where
  abbrev pub write_content : Ring T → ℕ → T → Ring T
  write_content r p item = record r { content = update r.content (slot_of k p) item }

  abbrev pub store_seq : Ring T → ℕ → ℕ → Ring T
  store_seq r p seq = record r { sequence = update r.sequence (slot_of k p) seq }

  -- A step of a producer from its place: the new place, the new ring, and what it claims.
  pub data Push (r : Ring T) : Producer T → Producer T → Ring T → List T → Type 0 where
    load_cursor : (item : T) → Push r Producer.idle (Producer.got_pos item r.write_cursor) r []
    load_seq :
        {item : T} {p : ℕ}
        → Push r (Producer.got_pos item p) (Producer.got_seq item p (r.sequence (slot_of k p))) r []
    full :
        {item : T} {p seq : ℕ}
        → diff_of seq p <ℤ pos 0
        → Push r (Producer.got_seq item p seq) Producer.idle r []
    reload :
        {item : T} {p seq : ℕ}
        → pos 0 <ℤ diff_of seq p
        → Push r (Producer.got_seq item p seq) (Producer.got_pos item r.write_cursor) r []
    lost :
        {item : T} {p seq : ℕ}
        → diff_of seq p ≡ pos 0
        → Push r (Producer.got_seq item p seq) (Producer.got_pos item r.write_cursor) r []
    won :
        {item : T} {p seq : ℕ}
        → diff_of seq p ≡ pos 0
        → r.write_cursor ≡ p
        → Push r
            (Producer.got_seq item p seq)
            (Producer.claimed item p)
            (record r { write_cursor = next_size p })
            (item ∷ [])
    write :
        {item : T} {p : ℕ}
        → Push r (Producer.claimed item p) (Producer.wrote item p) (write_content r p item) []
    publish :
        {item : T} {p : ℕ}
        → Push r (Producer.wrote item p) Producer.idle (store_seq r p (next_size p)) []

  -- A step of the consumer, and what it has popped.
  pub data Pop (r : Ring T) : Consumer T → Consumer T → Ring T → List T → Type 0 where
    load_cursor : Pop r Consumer.idle (Consumer.got_pos r.read_cursor) r []
    load_seq :
        {p : ℕ} → Pop r (Consumer.got_pos p) (Consumer.got_seq p (r.sequence (slot_of k p))) r []
    not_ready : {p seq : ℕ} → seq ≢ next_size p → Pop r (Consumer.got_seq p seq) Consumer.idle r []
    read :
        {p seq : ℕ}
        → seq ≡ next_size p
        → Pop r (Consumer.got_seq p seq) (Consumer.got_item p (r.content (slot_of k p))) r []
    recycle :
        {p : ℕ} {item : T}
        → Pop r
            (Consumer.got_item p item)
            (Consumer.recycled p item)
            (store_seq r p (next_lap k p))
            []
    store_cursor :
        {p : ℕ} {item : T}
        → Pop r
            (Consumer.recycled p item)
            Consumer.idle
            (record r { read_cursor = next_size p })
            (item ∷ [])

  pub data Step (s : System T) : System T → Type 0 where
    push :
        (i : ℕ) {q : Producer T} {r : Ring T} {won : List T}
        → Push s.ring (s.producers i) q r won
        → Step s
            (record s { ring = r; producers = update s.producers i q; claimed = s.claimed ++ won })
    pop :
        {q : Consumer T} {r : Ring T} {out : List T}
        → Pop s.ring s.consumer q r out
        → Step s (record s { ring = r; consumer = q; popped = s.popped ++ out })

  abbrev pub init : (ℕ → T) → System T
  init content = record {
    ring = new_ring content;
    producers = λ i. Producer.idle;
    consumer = Consumer.idle;
    claimed = [];
    popped = [];
  }

  pub data Reach (content : ℕ → T) : System T → Type 0 where
    start : Reach content (init content)
    later : {s t : System T} → Reach content s → Step s t → Reach content t
