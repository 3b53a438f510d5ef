-- ===== src/Core/Spsc.antt =====
-- include/core/ring_buffer.hpp: SpscRingBuffer. `Capacity` is 2 ^ k, as the static assertion wants,
-- and the counters are `size_t`s that wrap.
pub mod Counters
pub mod Threads
pub mod Calls
mod Examples
use jisa.Prelude.{
  ℕ, ◌+◌, ◌-◌, ◌%◌, ◌^◌, Bool, true, false, Option, none, some, List, leb, ◌==◌, if◌then◌else◌,
  get_or, set,
}
use jisa.Prelude.Bits.{bit_and}

abbrev pub size_mod : ℕ
size_mod = 2 ^ 64

-- `a - b` and `a + 1` on `size_t`.
abbrev pub sub_size : ℕ → ℕ → ℕ
sub_size a b = (a + size_mod - b) % size_mod

abbrev pub next_size : ℕ → ℕ
next_size a = (a + 1) % size_mod

pub record Ring (T : Type 0) : Type 0 where
  pub head : ℕ
  pub tail : ℕ
  pub storage : List T

-- `i & kMask`
abbrev pub slot_of : ℕ → ℕ → ℕ
slot_of k i = bit_and i (2 ^ k - 1)

module _ {T : Type 0} (k : ℕ) where
  unfoldable pub try_push : T → Ring T → Ring T × Bool
  try_push item r = if leb (2 ^ k) (sub_size r.tail r.head) then (r, false) else (
    record r { storage = set r.storage (slot_of k r.tail) item; tail = next_size r.tail },
    true,
  )

  -- `out` is the option; a read out of range, which never happens, gives `d`.
  unfoldable pub try_pop : T → Ring T → Ring T × Option T
  try_pop d r =
      if r.head == r.tail
      then (r, none)
      else (record r { head = next_size r.head }, some (get_or r.storage (slot_of k r.head) d))
