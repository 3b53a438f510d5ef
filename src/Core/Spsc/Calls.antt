-- ===== src/Core/Spsc/Calls.antt =====
-- include/core/ring_buffer.hpp: whole calls of `try_push` and `try_pop`, one after the other. A ring
-- of `Shape` stands for the queue of what was pushed and not popped yet.
use jisa.Prelude.{
  ℕ, ◌+◌, ◌-◌, ◌^◌, ◌≡◌, ◌≤◌, ◌<◌, ◌∙◌, ap, refl, ◌⊎◌, inl, inr, true, false, none, some, List, [],
  ◌∷◌, ◌++◌, arith, length, get_or, leb, ◌==◌, le→leb, le→leb_false, ne→==_false, ==_iff,
}
use native.Mathlib.Decide.{dec_lt}
use native.Mathlib.Nat.{le_refl}
use jisa.Core.Spsc.{Ring, sub_size, slot_of, try_push, try_pop}
use jisa.Core.Spsc.Counters.{slot_of-counter, capacity-le}
use jisa.Core.Spsc.Threads.Invariant.{Shape, Shape-store_item, Shape-store_tail, Shape-store_head}

module _ {T : Type 0} (k : ℕ) (d : T) (r : Ring T) (pushed popped : List T) where
  -- What `try_push` has done: the item is behind the others, or the ring is full and unchanged.
  abbrev pub Pushed : T → Type 0
  Pushed item =
      ((length pushed < length popped + 2 ^ k)
        × ((try_push k item r).1 ≡ true)
        × Shape k d (try_push k item r).0 (pushed ++ (item ∷ [])) popped)
      ⊎ ((length pushed ≡ length popped + 2 ^ k) × (try_push k item r ≡ (r, false)))

  -- What `try_pop` has done: the oldest item is out, or the ring is empty and unchanged.
  abbrev pub Popped : Type 0
  Popped =
      ((length popped < length pushed)
        × ((try_pop k d r).1 ≡ some (get_or pushed (length popped) d))
        × Shape k d (try_pop k d r).0 pushed (popped ++ (get_or pushed (length popped) d ∷ [])))
      ⊎ ((length popped ≡ length pushed) × (try_pop k d r ≡ (r, none)))

module _ {T : Type 0} (k : ℕ) (d : T) (small : k ≤ 63) (r : Ring T) (pushed popped : List T) where
  -- On a well-formed ring `try_push` returns true and appends the item exactly when fewer than 2 ^ k
  -- items wait; otherwise it returns false and changes nothing.
  pub try_push-Pushed : (item : T) → Shape k d r pushed popped → Pushed k d r pushed popped item
  unfolding try_push
  try_push-Pushed item v = elim (dec_lt (length pushed) (length popped + 2 ^ k)) [
    | yes room ↦
        let (shape, written) = Shape-store_item k d small item r.tail v v.tail_at room in
        inl (
          room,
          rw (not_full room),
          rw (not_full room) (Shape-store_tail k d small item r.tail shape v.tail_at room written),
        )
    | no none_left ↦ inr (omega (arith, v.fits), rw (full (omega (arith, v.fits))))
  ]
    where
      used : sub_size r.tail r.head ≡ length pushed - length popped
      used = omega (arith, v.head_at, v.tail_at, v.ahead, v.fits, capacity-le k small)

      not_full :
          length pushed < length popped + 2 ^ k → leb (2 ^ k) (sub_size r.tail r.head) ≡ false
      not_full room = le→leb_false (2 ^ k) _ (omega (arith, used, v.ahead, room))

      full : length pushed ≡ length popped + 2 ^ k → leb (2 ^ k) (sub_size r.tail r.head) ≡ true
      full e = le→leb (2 ^ k) _ (omega (arith, used, e))

  -- On a well-formed ring `try_pop` returns the oldest waiting item exactly when one waits; otherwise
  -- it returns false and changes nothing.
  pub try_pop-Popped : Shape k d r pushed popped → Popped k d r pushed popped
  unfolding try_pop
  try_pop-Popped v = elim (dec_lt (length popped) (length pushed)) [
    | yes waiting ↦ inl (
      waiting,
      rw (different waiting) (ap some (item_at waiting)),
      rw (different waiting) (Shape-store_head k d small _ r.head v v.head_at waiting refl),
    )
    | no nothing ↦ inr (omega (arith, v.ahead), rw (same (omega (arith, v.ahead))))
  ]
    where
      different : length popped < length pushed → (r.head == r.tail) ≡ false
      different lt =
          ne→==_false _ _ (omega (arith, v.head_at, v.tail_at, v.fits, lt, capacity-le k small))

      same : length popped ≡ length pushed → (r.head == r.tail) ≡ true
      same e = (==_iff r.head r.tail).1 (omega (arith, v.head_at, v.tail_at, e))

      item_at :
          length popped < length pushed
          → get_or r.storage (slot_of k r.head) d ≡ get_or pushed (length popped) d
      item_at lt =
          ap (λ i. get_or r.storage i d)
            (ap (slot_of k) v.head_at ∙ slot_of-counter k (length popped) (omega arith))
          ∙ v.holds (length popped) (le_refl _) lt
