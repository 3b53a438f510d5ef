-- ===== src/Core/Mpsc/Calls/Single.antt =====
-- include/core/ring_buffer.hpp: an MpscRingBuffer of one slot, which its assertions allow.
use jisa.Prelude.{
  ℕ, ◌+◌, ◌^◌, ◌≤◌, ◌<◌, ◌≡◌, refl, sym, ap, subst, ◌∙◌, Bool, true, false, Option, none, some,
  List, [], ◌∷◌, arith, length, ==_iff, ne→==_false, update_here, All,
}
use jisa.Prelude.Int.{pos, leb_ℤ, ◌-ℤ◌, -ℤ_parts, of_u64}
use jisa.Core.Spsc.{next_size, slot_of}
use jisa.Core.Mpsc.{Ring, diff_of, new_ring}
use jisa.Core.Mpsc.Positions.{slot_of-lt}
use jisa.Core.Mpsc.Calls.{fill, try_push, try_pop}

-- A call on the buffer.
pub data Call (T : Type 0) : Type 0 where
  push : (item : T) → Call T
  pop : Call T

-- What a call returns: `try_push` whether it pushed, `try_pop` what it popped.
pub data Returned (T : Type 0) : Type 0 where
  pushed : (done : Bool) → Returned T
  popped : (out : Option T) → Returned T
  endless : Returned T

module _ {T : Type 0} (k : ℕ) where
  abbrev pushing : Ring T → Option (Ring T × Bool) → Ring T × Returned T
  pushing r none = (r, endless)
  pushing r (some (r', done)) = (r', pushed done)

  unfoldable pub call : Call T → Ring T → Ring T × Returned T
  call (push item) r = pushing r (try_push k 1 (λ i. false) item r)
  call pop r = let (r', out) = try_pop k r in (r', popped out)

  -- What a run of calls returns.
  unfoldable pub calls : List (Call T) → Ring T → List (Returned T)
  calls [] r = []
  calls (c ∷ cs) r = let (r', out) = call c r in out ∷ calls cs r'

-- A buffer of one slot that two or more pushes went into, and nothing came out of.
record Stuck {T : Type 0} (w : ℕ) (r : Ring T) : Type 0 where
  at : r.write_cursor ≡ w
  marked : r.sequence 0 ≡ w
  unread : r.read_cursor ≡ 0
  many : 2 ≤ w

-- A push that says it is done, and a pop that gives nothing.
abbrev pub Lost : {T : Type 0} → Returned T → Type 0
Lost (pushed done) = done ≡ true
Lost (popped out) = out ≡ none
Lost endless = ⊥

one_slot : (p : ℕ) → slot_of 0 p ≡ 0
one_slot p = omega (arith, slot_of-lt 0 p)

same_diff : (p : ℕ) → (leb_ℤ (diff_of p p) (pos 0) ≡ true) × (leb_ℤ (pos 0) (diff_of p p) ≡ true)
same_diff p = ground (arith, -ℤ_parts (of_u64 p) (of_u64 p))

module _ {T : Type 0} where
  push-Stuck :
      (w : ℕ) (item : T) (r : Ring T)
      → Stuck w r
      → w + 1 < 2 ^ 64
      → (try_push 0 1 (λ i. false) item r ≡ some (fill 0 w item r, true))
        × Stuck (w + 1) (fill 0 w item r)
  unfolding try_push
  push-Stuck w item r v few =
      let seen : r.sequence (slot_of 0 w) ≡ w = ap r.sequence (one_slot w) ∙ v.marked in
      let next : next_size w ≡ w + 1 = omega (arith, few) in
      (
        rw (v.at, seen, (same_diff w).0, (same_diff w).1, (==_iff w w).1 refl) refl,
        record {
          at = next;
          marked =
              ap (fill 0 w item r).sequence (sym (one_slot w))
              ∙ update_here r.sequence (slot_of 0 w) (next_size w)
              ∙ next;
          unread = v.unread;
          many = omega (arith, v.many);
        },
      )

  pop-Stuck : (w : ℕ) (r : Ring T) → Stuck w r → try_pop 0 r ≡ (r, none)
  unfolding try_pop
  pop-Stuck w r v =
      let seen : r.sequence (slot_of 0 r.read_cursor) ≡ w =
        ap r.sequence (one_slot r.read_cursor) ∙ v.marked in
      rw
        (ne→==_false (r.sequence (slot_of 0 r.read_cursor)) (next_size r.read_cursor)
          (omega (arith, seen, v.unread, v.many)))
        refl

  call-push :
      (item : T) (r r' : Ring T)
      → try_push 0 1 (λ i. false) item r ≡ some (r', true)
      → call 0 (push item) r ≡ (r', pushed true)
  unfolding call
  call-push item r r' e = ap (pushing 0 r) e

  call-pop : (r : Ring T) → try_pop 0 r ≡ (r, none) → call 0 pop r ≡ (r, popped none)
  unfolding call
  call-pop r e = ap (λ (p : Ring T × Option T). (p.0, popped p.1)) e

  abbrev AllLost : List (Call T) → Ring T × Returned T → Type 0
  AllLost cs p = Lost p.1 × All Lost (calls 0 cs p.0)

  calls-Stuck :
      (cs : List (Call T)) (w : ℕ) (r : Ring T)
      → Stuck w r
      → w + length cs < 2 ^ 64
      → All Lost (calls 0 cs r)
  unfolding calls
  calls-Stuck [] w r v few = tt
  calls-Stuck (push item ∷ cs) w r v few =
      let (done, next) = push-Stuck w item r v (omega (arith, few)) in
      subst (AllLost cs) (sym (call-push item r (fill 0 w item r) done))
        (refl, calls-Stuck cs (w + 1) (fill 0 w item r) next (omega (arith, few)))
  calls-Stuck (pop ∷ cs) w r v few =
      subst (AllLost cs) (sym (call-pop r (pop-Stuck w r v)))
        (refl, calls-Stuck cs w r v (omega (arith, few)))

-- After two pushes into a new buffer with one slot, in whatever calls follow, fewer than 2 ^ 64 with the two,
-- and when no exchange fails spuriously: every push returns true, and every pop returns nothing. What is
-- pushed is lost.
pub capacity_one_loses :
    {T : Type 0} (content : ℕ → T) (a b : T) (cs : List (Call T))
    → length cs + 2 < 2 ^ 64
    → All Lost (calls 0 (push a ∷ push b ∷ cs) (new_ring content))
unfolding calls call try_push ◌-ℤ◌
capacity_one_loses content a b cs few = (
  refl,
  (
    refl,
    calls-Stuck cs 2 (fill 0 1 b (fill 0 0 a (new_ring content)))
        (record { at = refl; marked = refl; unread = refl; many = omega arith })
        (omega (arith, few)),
  ),
)
