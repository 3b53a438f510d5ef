-- ===== src/Core/Mpsc/Invariant.antt =====
-- include/core/ring_buffer.hpp: what holds of MpscRingBuffer between any two accesses.
pub mod Moves
pub mod Recycle
pub mod Steps
pub mod Pushes
pub mod Pops
pub mod Preserved
use jisa.Prelude.{ℕ, ◌+◌, ◌^◌, ◌≤◌, ◌<◌, ◌≡◌, ◌⊎◌, Option, none, some, List, length, get_or, take}
use jisa.Core.Spsc.{slot_of}
use jisa.Core.Mpsc.{Producer, Consumer, Ring, System}

-- The positions that the consumer has given back, of `r` popped items.
abbrev pub released : {T : Type 0} → Consumer T → ℕ → ℕ
released Consumer.idle r = r
released (Consumer.got_pos p) r = r
released (Consumer.got_seq p seq) r = r
released (Consumer.got_item p item) r = r
released (Consumer.recycled p item) r = r + 1

-- The position that a producer has claimed and not published.
abbrev pub position : {T : Type 0} → Producer T → Option ℕ
position Producer.idle = none
position (Producer.got_pos item p) = none
position (Producer.got_seq item p seq) = none
position (Producer.claimed item p) = some p
position (Producer.wrote item p) = some p

-- In what follows `lo` is the number of positions given back, and the claims are `items`.
module _ {T : Type 0} (k : ℕ) (d : T) (items : List T) (ring : Ring T) (lo : ℕ) where
  abbrev pub seq_at : ℕ → ℕ
  seq_at p = ring.sequence (slot_of k p)

  abbrev pub content_at : ℕ → T
  content_at p = ring.content (slot_of k p)

  pub record Shared : Type 0 where
    pub write_at : ring.write_cursor ≡ length items
    pub low : lo ≤ length items
    pub high : length items ≤ lo + 2 ^ k
    pub bounded : (j : ℕ) → j < 2 ^ k → ring.sequence j ≤ length items + 2 ^ k
    pub free : (p : ℕ) → length items ≤ p → p < lo + 2 ^ k → seq_at p ≡ p
    pub used :
        (p : ℕ)
        → lo ≤ p
        → p < length items
        → (seq_at p ≡ p) ⊎ ((seq_at p ≡ p + 1) × (content_at p ≡ get_or items p d))

  -- A claimed position whose slot is its producer's alone.
  pub record Mine (item : T) (p : ℕ) : Type 0 where
    pub from : lo ≤ p
    pub below : p < length items
    pub unready : seq_at p ≡ p
    pub claim : get_or items p d ≡ item

  abbrev pub Placed : Producer T → Type 0
  Placed Producer.idle = Unit
  Placed (Producer.got_pos item p) = p ≤ length items
  Placed (Producer.got_seq item p seq) =
      (p ≤ length items)
      × (seq ≤ length items + 2 ^ k)
      × (seq ≡ p → length items ≤ p → length items < lo + 2 ^ k)
  Placed (Producer.claimed item p) = Mine item p
  Placed (Producer.wrote item p) = Mine item p × (content_at p ≡ item)

  -- A position that is ready to be popped, with its item.
  pub record Ready (p : ℕ) (item : T) : Type 0 where
    pub below : p < length items
    pub ready : seq_at p ≡ p + 1
    pub content : content_at p ≡ item
    pub claim : get_or items p d ≡ item

-- What the consumer knows, after `r` items.
abbrev pub Taking : {T : Type 0} → ℕ → T → List T → Ring T → ℕ → Consumer T → Type 0
Taking k d items ring r Consumer.idle = Unit
Taking k d items ring r (Consumer.got_pos p) = p ≡ r
Taking k d items ring r (Consumer.got_seq p seq) =
    (p ≡ r) × (seq ≡ r + 1 → Ready k d items ring r r (get_or items r d))
Taking k d items ring r (Consumer.got_item p item) = (p ≡ r) × Ready k d items ring r r item
Taking k d items ring r (Consumer.recycled p item) = (p ≡ r) × (get_or items r d ≡ item)

pub record Inv {T : Type 0} (k : ℕ) (d : T) (s : System T) : Type 0 where
  pub shared : Shared k d s.claimed s.ring (released s.consumer (length s.popped))
  pub placed :
      (i : ℕ) → Placed k d s.claimed s.ring (released s.consumer (length s.popped)) (s.producers i)
  pub unique :
      (i j p : ℕ) → position (s.producers i) ≡ some p → position (s.producers j) ≡ some p → i ≡ j
  pub read_at : s.ring.read_cursor ≡ length s.popped
  pub taking : Taking k d s.claimed s.ring (length s.popped) s.consumer
  pub order : s.popped ≡ take (length s.popped) s.claimed
