-- ===== src/Core/Mpsc/Calls.antt =====
-- include/core/ring_buffer.hpp: whole calls of MpscRingBuffer's `try_push` and `try_pop`, one after the
-- other. The loop of `try_push` is on fuel, and gives nothing if that runs out. `compare_exchange_weak` fails
-- if the cursor is not where it was expected, and spuriously when the machine likes: `fails` says in which
-- rounds.
pub mod Queue
pub mod Single
use jisa.Prelude.{
  ℕ, zero, suc, ◌≡◌, refl, Bool, true, false, not, ◌&&◌, Option, none, some, ◌==◌, if◌then◌else◌,
}
use jisa.Prelude.Int.{pos, ltb_ℤ, leb_ℤ, ◌-ℤ◌}
use jisa.Core.Spsc.{next_size, slot_of}
use jisa.Core.Mpsc.{Ring, diff_of, write_content, store_seq, next_lap, new_ring}

module _ {T : Type 0} (k : ℕ) where
  -- The exchange won, the item written and published.
  abbrev pub fill : ℕ → T → Ring T → Ring T
  fill p item r =
      store_seq k (write_content k (record r { write_cursor = next_size p }) p item) p (next_size p)

  -- The loop, from position `p`.
  unfoldable pub push_loop : ℕ → (ℕ → Bool) → ℕ → T → Ring T → Option (Ring T × Bool)
  push_loop zero fails p item r = none
  push_loop (suc fuel) fails p item r =
      let diff = diff_of (r.sequence (slot_of k p)) p in
      let again = push_loop fuel (λ i. fails (suc i)) r.write_cursor item r in
      if leb_ℤ diff (pos 0) && leb_ℤ (pos 0) diff
      then (if r.write_cursor == p && not (fails 0) then some (fill p item r, true) else again)
      else if ltb_ℤ diff (pos 0)
      then some (r, false)
      else again

  unfoldable pub try_push : ℕ → (ℕ → Bool) → T → Ring T → Option (Ring T × Bool)
  unfolding push_loop
  try_push fuel fails item r = push_loop fuel fails r.write_cursor item r

  abbrev pub take_item : ℕ → Ring T → Ring T
  take_item p r = record (store_seq k r p (next_lap k p)) { read_cursor = next_size p }

  unfoldable pub try_pop : Ring T → Ring T × Option T
  try_pop r =
      let p = r.read_cursor in
      if r.sequence (slot_of k p) == next_size p
      then (take_item p r, some (r.content (slot_of k p)))
      else (r, none)
