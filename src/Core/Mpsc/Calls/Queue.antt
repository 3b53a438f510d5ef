-- ===== src/Core/Mpsc/Calls/Queue.antt =====
-- include/core/ring_buffer.hpp: MpscRingBuffer's calls against the queue of what was pushed.
use jisa.Prelude.{
  ℕ, zero, suc, ◌&&◌, Bool-cases, ◌+◌, ◌^◌, ◌≤◌, ◌<◌, ◌≡◌, refl, sym, ap, subst, ◌∙◌, ◌⊎◌, inl, inr,
  Bool, true, false, Option, none, some, List, [], ◌∷◌, ◌++◌, arith, ltb, leb, ◌==◌, ==_iff, lt→ltb,
  le→leb, le→leb_false, ne→==_false, length, get_or, take, length-append, take-append_left,
  take-add-one, update_here, update_other,
}
use jisa.Prelude.Int.{pos, ltb_ℤ, leb_ℤ, -ℤ_parts, of_u64}
use native.Mathlib.Nat.{le_refl, pow-le-pow_right}
use native.Mathlib.Decide.{dec_lt, ℕ_discrete}
use jisa.Core.Spsc.{slot_of, next_size}
use jisa.Core.Mpsc.{Ring, diff_of, store_seq, write_content, next_lap}
use jisa.Core.Mpsc.Positions.{slot_of-lap, slot_of-apart}
use jisa.Core.Mpsc.Invariant.{Shared, Mine}
use jisa.Core.Mpsc.Invariant.Moves.{
  Shared-claim, Mine-own, Shared-write, Placed-own, Shared-publish,
}
use jisa.Core.Mpsc.Invariant.Recycle.{Shared-recycle}
use jisa.Core.Mpsc.Invariant.Pushes.{InRange}
use jisa.Core.Mpsc.Calls.{fill, push_loop, try_push, take_item, try_pop}

-- A ring that no call is in the middle of: `pushed` went in and `popped` came out.
pub record Queue {T : Type 0} (k : ℕ) (d : T) (r : Ring T) (pushed popped : List T) : Type 0 where
  pub shared : Shared k d pushed r (length popped)
  pub ready : (p : ℕ) → length popped ≤ p → p < length pushed → r.sequence (slot_of k p) ≡ p + 1
  pub read_at : r.read_cursor ≡ length popped
  pub order : popped ≡ take (length popped) pushed

-- The difference of two numbers that fit `ptrdiff_t`.
diff_tests :
    (seq p : ℕ)
    → seq < 2 ^ 63
    → p < 2 ^ 63
    → (leb_ℤ (diff_of seq p) (pos 0) ≡ leb seq p)
      × (leb_ℤ (pos 0) (diff_of seq p) ≡ leb p seq)
      × (ltb_ℤ (diff_of seq p) (pos 0) ≡ ltb seq p)
diff_tests seq p a b = ground (arith, -ℤ_parts (of_u64 seq) (of_u64 p))

module _ {T : Type 0} (k : ℕ) (d : T) (r : Ring T) (pushed popped : List T) where
  -- What `try_push` has done: the item is behind the others, or the buffer is full and unchanged.
  abbrev pub Pushed : T → Option (Ring T × Bool) → Type 0
  Pushed item result =
      ((length pushed < length popped + 2 ^ k)
        × (result ≡ some (fill k (length pushed) item r, true))
        × Queue k d (fill k (length pushed) item r) (pushed ++ (item ∷ [])) popped)
      ⊎ ((length pushed ≡ length popped + 2 ^ k) × (result ≡ some (r, false)))

  -- What `try_pop` has done: the oldest item is out, or the buffer is empty and unchanged.
  abbrev pub Popped : Ring T × Option T → Type 0
  Popped result =
      ((length popped < length pushed)
        × (result.1 ≡ some (get_or pushed (length popped) d))
        × Queue k d result.0 pushed (popped ++ (get_or pushed (length popped) d ∷ [])))
      ⊎ ((length popped ≡ length pushed) × (result ≡ (r, none)))

module _ {T : Type 0} (k : ℕ) (d : T) (many : 1 ≤ k) (r : Ring T) (pushed popped : List T)
    (v : Queue k d r pushed popped) where
  two : 1 < 2 ^ k
  two = let bound : 2 ^ 1 ≤ 2 ^ k = pow-le-pow_right (omega arith) many in omega (arith, bound)

  fill-Queue :
      (item : T)
      → next_size (length pushed) ≡ length pushed + 1
      → length pushed < length popped + 2 ^ k
      → Queue k d (fill k (length pushed) item r) (pushed ++ (item ∷ [])) popped
  fill-Queue item next room =
      let n = length pushed in
      let lo = length popped in
      let r1 : Ring T = record r { write_cursor = next_size n } in
      let grown = Shared-claim k d pushed r lo item (next_size n) next room v.shared in
      let mine : Mine k d (pushed ++ (item ∷ [])) r1 lo item n =
        Mine-own k d pushed r lo item (next_size n) room v.shared in
      let written = Shared-write k d (pushed ++ (item ∷ [])) r1 lo item n grown mine in
      let own = Placed-own k d (pushed ++ (item ∷ [])) r1 lo item n grown mine in
      record {
        shared =
            Shared-publish k d (pushed ++ (item ∷ [])) (write_content k r1 n item) lo item n written
              own.0 (next_size n) next own.1;
        ready = λ p a b. elim (ℕ_discrete n p) [
          | yes same ↦
              subst (λ m. (fill k n item r).sequence (slot_of k m) ≡ m + 1) same
                (update_here r.sequence (slot_of k n) (next_size n) ∙ next)
          | no ne ↦
              update_other r.sequence (slot_of k n) (slot_of k p) (next_size n) (
                slot_of-apart k lo n p v.shared.low room a
                  (omega (arith, b, ne, room, length-append pushed (item ∷ []))) ne)
              ∙ v.ready p a (omega (arith, b, ne, length-append pushed (item ∷ [])))
        ];
        read_at = v.read_at;
        order =
            v.order
            ∙ sym
                (take-append_left (length popped) pushed (item ∷ []) (omega (arith, v.shared.low)));
      }

  -- A push into a slot that is free takes as many rounds more as exchanges fail spuriously.
  push_loop-fails :
      (item : T) (fuel tries : ℕ) (fails : ℕ → Bool)
      → tries < fuel
      → r.sequence (slot_of k (length pushed)) ≡ length pushed
      → length pushed < 2 ^ 63
      → fails tries ≡ false
      → push_loop k fuel fails (length pushed) item r ≡ some (fill k (length pushed) item r, true)
  unfolding push_loop
  push_loop-fails item zero tries fails lt seen small stop = absurd (omega (arith, lt))
  push_loop-fails item (suc fuel) zero fails lt seen small stop =
      let n = length pushed in
      let tests = diff_tests n n small small in
      let at_end : (r.write_cursor == n) ≡ true = (==_iff r.write_cursor n).1 v.shared.write_at in
      rw (seen, tests.0, tests.1, le→leb n n (le_refl n), at_end, stop) refl
  push_loop-fails item (suc fuel) (suc t) fails lt seen small stop =
      let n = length pushed in
      let tests = diff_tests n n small small in
      let at_end : (r.write_cursor == n) ≡ true = (==_iff r.write_cursor n).1 v.shared.write_at in
      elim (Bool-cases (fails 0)) [
        | inr wins ↦ rw (seen, tests.0, tests.1, le→leb n n (le_refl n), at_end, wins) refl
        | inl spurious ↦
            rw (seen, tests.0, tests.1, le→leb n n (le_refl n), at_end, spurious)
              (subst
                (λ m.
                  push_loop k fuel (λ i. fails (suc i)) m item r
                  ≡ some (fill k (length pushed) item r, true))
                (sym v.shared.write_at)
                (push_loop-fails item fuel t (λ i. fails (suc i)) (omega (arith, lt)) seen small
                  stop))
      ]

  push_loop-full :
      (item : T) (fuel tries : ℕ) (fails : ℕ → Bool)
      → tries < fuel
      → (leb_ℤ (diff_of (r.sequence (slot_of k (length pushed))) (length pushed)) (pos 0)
          && leb_ℤ (pos 0) (diff_of (r.sequence (slot_of k (length pushed))) (length pushed)))
        ≡ false
      → ltb_ℤ (diff_of (r.sequence (slot_of k (length pushed))) (length pushed)) (pos 0) ≡ true
      → push_loop k fuel fails (length pushed) item r ≡ some (r, false)
  unfolding push_loop
  push_loop-full item zero tries fails lt apart behind = absurd (omega (arith, lt))
  push_loop-full item (suc fuel) tries fails lt apart behind = rw (apart, behind) refl

  -- On a buffer of two slots or more that rests, with its counters in range, and if one of the exchanges does
  -- not fail spuriously, `try_push` returns, in that round at the latest: with true, the item behind the
  -- others, if fewer than 2 ^ k items wait; otherwise with false, and nothing is changed.
  pub try_push-Queued :
      (item : T) (tries fuel : ℕ) (fails : ℕ → Bool)
      → InRange k (pushed ++ (item ∷ []))
      → tries < fuel
      → fails tries ≡ false
      → Pushed k d r pushed popped item (try_push k fuel fails item r)
  unfolding try_push
  try_push-Queued item tries fuel fails b enough stop =
      elim (dec_lt (length pushed) (length popped + 2 ^ k)) [
        | yes room ↦
            let seen : r.sequence (slot_of k n) ≡ n = v.shared.free n (le_refl n) room in
            inl (
              room,
              subst (λ m. push_loop k fuel fails m item r ≡ some (fill k n item r, true))
                  (sym v.shared.write_at)
                  (push_loop-fails item fuel tries fails enough seen (omega (arith, b, one_more))
                    stop),
              fill-Queue item (omega (arith, b, one_more)) room,
            )
        | no full ↦
            let last : n ≡ length popped + 2 ^ k = omega (arith, full, v.shared.high) in
            let seen : r.sequence (slot_of k n) ≡ length popped + 1 =
              ap r.sequence (ap (slot_of k) last ∙ slot_of-lap k (length popped))
              ∙ v.ready (length popped) (le_refl _) (omega (arith, last, two)) in
            let tests =
              diff_tests (length popped + 1) n (omega (arith, b, one_more, last, two))
                (omega (arith, b, one_more)) in
            inr (
              last,
              subst (λ m. push_loop k fuel fails m item r ≡ some (r, false)) (sym v.shared.write_at)
                  (push_loop-full item fuel tries fails enough
                    (rw
                      (
                        seen,
                        tests.0,
                        tests.1,
                        le→leb_false n (length popped + 1) (omega (arith, last, two)),
                        le→leb (length popped + 1) n (omega (arith, last, two)),
                      )
                      refl)
                    (rw (seen, tests.2, lt→ltb (length popped + 1) n (omega (arith, last, two)))
                      refl)),
            )
      ]
    where
      n : ℕ
      n = length pushed

      one_more : length (pushed ++ (item ∷ [])) ≡ length pushed + 1
      one_more = length-append pushed (item ∷ [])

  take_item-Queue :
      (p : ℕ)
      → p ≡ length popped
      → next_size p ≡ length popped + 1
      → next_lap k p ≡ length popped + 2 ^ k
      → length popped < length pushed
      → Queue k d (take_item k p r) pushed (popped ++ (get_or pushed (length popped) d ∷ []))
  take_item-Queue p here next lap lt =
      let n = length popped in
      let out = popped ++ (get_or pushed n d ∷ []) in
      let longer' : length out ≡ n + 1 = length-append popped (get_or pushed n d ∷ []) in
      let moved : Shared k d pushed (store_seq k r n (next_lap k p)) (n + 1) =
        Shared-recycle k d pushed r n (next_lap k p) lap v.shared lt in
      let shared : Shared k d pushed (store_seq k r p (next_lap k p)) (length out) =
        subst (λ m. Shared k d pushed (store_seq k r p (next_lap k p)) m) (sym longer')
          (subst (λ m. Shared k d pushed (store_seq k r m (next_lap k p)) (n + 1)) (sym here)
            moved) in
      record {
        shared = record {
          write_at = shared.write_at;
          low = shared.low;
          high = shared.high;
          bounded = shared.bounded;
          free = shared.free;
          used = shared.used;
        };
        ready = λ q a b.
            subst (λ m. (take_item k m r).sequence (slot_of k q) ≡ q + 1) {x = n} (sym here)
              (update_other r.sequence (slot_of k n) (slot_of k q) (next_lap k n) (
                  slot_of-apart k n n q (le_refl n) (omega (arith, two)) (omega (arith, a, longer'))
                    (omega (arith, b, v.shared.high)) (omega (arith, a, longer')))
                ∙ v.ready q (omega (arith, a, longer')) b);
        read_at = next ∙ sym longer';
        order =
            ap (λ l. l ++ (get_or pushed n d ∷ [])) v.order
            ∙ sym (take-add-one n pushed d lt)
            ∙ ap (λ m. take m pushed) (sym longer');
      }

  -- On such a buffer `try_pop` returns the oldest waiting item exactly when one waits; otherwise it
  -- returns nothing, and changes nothing.
  pub try_pop-Queued : InRange k pushed → Popped k d r pushed popped (try_pop k r)
  unfolding try_pop
  try_pop-Queued b = elim (dec_lt (length popped) (length pushed)) [
    | yes lt ↦
        let seen = seq_of (length popped + 1) (v.ready (length popped) (le_refl _) lt) in
        let next : next_size r.read_cursor ≡ length popped + 1 = omega (arith, v.read_at, lt, b) in
        let lap : next_lap k r.read_cursor ≡ length popped + 2 ^ k =
          omega (arith, v.read_at, lt, b) in
        let test : (r.sequence (slot_of k r.read_cursor) == next_size r.read_cursor) ≡ true =
          (==_iff (r.sequence (slot_of k r.read_cursor)) (next_size r.read_cursor)).1
            (seen ∙ sym next) in
        inl (
          lt,
          rw test (ap some (item_at lt)),
          rw test (take_item-Queue r.read_cursor v.read_at next lap lt),
        )
    | no nothing ↦
        let same : length popped ≡ length pushed = omega (arith, nothing, v.shared.low) in
        let seen =
          seq_of (length popped)
            (v.shared.free (length popped) (omega (arith, same)) (omega (arith, two))) in
        let test : (r.sequence (slot_of k r.read_cursor) == next_size r.read_cursor) ≡ false =
          ne→==_false (r.sequence (slot_of k r.read_cursor)) (next_size r.read_cursor)
            (omega (arith, seen, v.read_at, same, b)) in
        inr (same, rw test refl)
  ]
    where
      seq_of :
          (w : ℕ)
          → r.sequence (slot_of k (length popped)) ≡ w
          → r.sequence (slot_of k r.read_cursor) ≡ w
      seq_of w e = ap (λ m. r.sequence (slot_of k m)) v.read_at ∙ e

      item_at :
          length popped < length pushed
          → r.content (slot_of k r.read_cursor) ≡ get_or pushed (length popped) d
      item_at lt = elim (v.shared.used (length popped) (le_refl _) lt) [
        | inl old ↦ absurd (omega (arith, old, v.ready (length popped) (le_refl _) lt))
        | inr found ↦ ap (λ m. r.content (slot_of k m)) v.read_at ∙ found.1
      ]
