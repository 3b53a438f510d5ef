-- ===== src/Core/Mpsc/Invariant/Preserved.antt =====
-- include/core/ring_buffer.hpp: MpscRingBuffer keeps its invariant from a new buffer on.
use jisa.Prelude.{ℕ, ◌+◌, ◌^◌, ◌≤◌, ◌<◌, ◌≡◌, refl, ◌∙◌, arith, length, length-append}
use jisa.Core.Spsc.{slot_of}
use jisa.Core.Mpsc.{System, Step, push, pop, Reach, start, later, init}
use jisa.Prelude.Bits.{bit_and_mask}
use native.Mathlib.Nat.{mod-eq_of_lt}
use jisa.Core.Mpsc.Invariant.{Inv}
use jisa.Core.Mpsc.Invariant.Pushes.{InRange, Push-Inv}
use jisa.Core.Mpsc.Invariant.Pops.{Pop-Inv}

module _ {T : Type 0} (k : ℕ) (d : T) (two : 1 < 2 ^ k) (content : ℕ → T) where
  init-Inv : Inv k d (init k content)
  init-Inv = record {
    shared = record {
      write_at = refl;
      low = omega arith;
      high = omega arith;
      bounded = λ j lt. omega (arith, lt);
      free = first_lap;
      used = λ p a b. absurd (omega (arith, b));
    };
    placed = λ i. tt;
    unique = λ i j p e f. absurd (ground (arith, e));
    read_at = refl;
    taking = tt;
    order = refl;
  }
    where
      first_lap : (p : ℕ) → 0 ≤ p → p < 0 + 2 ^ k → slot_of k p ≡ p
      first_lap p _ lt = bit_and_mask k p ∙ mod-eq_of_lt (omega (arith, lt))

  Step-claimed : {s t : System T} → Step k s t → length s.claimed ≤ length t.claimed
  Step-claimed {s} (push i {won} _) = omega (arith, length-append s.claimed won)
  Step-claimed (pop _) = omega arith

  pub Reach-Inv : {s : System T} → Reach k content s → InRange k s.claimed → Inv k d s
  Reach-Inv start b = init-Inv
  Reach-Inv (later {s} {t} r st) b =
      Step-Inv s st (Reach-Inv r (omega (arith, Step-claimed st, b))) b
    where
      Step-Inv :
          (s : System T) {t : System T} → Step k s t → Inv k d s → InRange k t.claimed → Inv k d t
      Step-Inv s (push i p) v b = Push-Inv k d two s v i _ _ _ _ p refl b
      Step-Inv s (pop p) v b = Pop-Inv k d two s v _ _ _ _ p refl b
