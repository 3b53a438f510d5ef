-- ===== src/Core/Mpsc/Invariant/Recycle.antt =====
-- include/core/ring_buffer.hpp: the consumer gives a slot back, and the loads of a sequence number.
use jisa.Prelude.{
  ℕ, ◌+◌, ◌^◌, ◌≤◌, ◌<◌, ◌≡◌, refl, sym, ap, subst, ◌∙◌, ◌≢◌, inl, inr, List, arith, length, get_or,
  update_here, update_other,
}
use native.Mathlib.Nat.{le_refl}
use native.Mathlib.Decide.{dec_lt}
use jisa.Core.Spsc.{slot_of}
use jisa.Core.Mpsc.{Producer, Ring, store_seq}
use jisa.Core.Mpsc.Positions.{slot_of-lt, slot_of-apart, slot_of-lap}
use jisa.Core.Mpsc.Invariant.{seq_at, Shared, Mine, Placed, Ready}

-- The slot of the oldest position `r` goes to the next lap.
module _ {T : Type 0} (k : ℕ) (d : T) (items : List T) (ring : Ring T) (r w : ℕ)
    (lap : w ≡ r + 2 ^ k) where
  abbrev pub back : Ring T
  back = store_seq k ring r w

  pub seq_later :
      (q : ℕ) → r + 1 ≤ q → q < r + 2 ^ k → seq_at k d items back r q ≡ seq_at k d items ring r q
  seq_later q a b =
      update_other ring.sequence (slot_of k r) (slot_of k q) w
        (slot_of-apart k r r q (le_refl r) (omega arith) (omega arith) b (omega arith))

  module _ (v : Shared k d items ring r) (lt : r < length items) where
    pub Shared-recycle : Shared k d items back (r + 1)
    Shared-recycle = record {
      write_at = v.write_at;
      low = omega (arith, lt);
      high = omega (arith, v.high);
      bounded = λ j below. ground (arith, v.bounded j below, lap, lt);
      free = λ q a b. elim (dec_lt q (r + 2 ^ k)) [
        | yes near ↦ seq_later q (omega (arith, a, lt)) near ∙ v.free q a near
        | no far ↦
            let end : r + 2 ^ k ≡ q = omega arith in
            subst (λ n. seq_at k d items back r n ≡ n) end
              (rw (slot_of-lap k r) (update_here ring.sequence (slot_of k r) w ∙ lap))
      ];
      used = λ q a b. rw (seq_later q a (omega (arith, b, v.high))) (v.used q (omega arith) b);
    }

    Mine-recycle :
        (x : T) (q : ℕ)
        → seq_at k d items ring r r ≡ r + 1
        → Mine k d items ring r x q
        → Mine k d items back (r + 1) x q
    Mine-recycle x q ready m =
        let other : r ≢ q = λ e.
          absurd
            (omega (arith, ready, subst (λ n. seq_at k d items ring r n ≡ n) (sym e) m.unready)) in
        let later : r + 1 ≤ q = omega (arith, m.from, other) in
        record {
          from = later;
          below = m.below;
          unready = seq_later q later (omega (arith, m.below, v.high)) ∙ m.unready;
          claim = m.claim;
        }

    pub Placed-recycle :
        (q : Producer T)
        → seq_at k d items ring r r ≡ r + 1
        → Placed k d items ring r q
        → Placed k d items back (r + 1) q
    Placed-recycle Producer.idle ready g = tt
    Placed-recycle (Producer.got_pos x q) ready g = g
    Placed-recycle (Producer.got_seq x q seq) ready g = (g.0, g.1, λ e h. omega (arith, g.2 e h))
    Placed-recycle (Producer.claimed x q) ready g = Mine-recycle x q ready g
    Placed-recycle (Producer.wrote x q) ready g = (Mine-recycle x q ready g.0, g.1)

module _ {T : Type 0} (k : ℕ) (d : T) (items : List T) (ring : Ring T) (lo : ℕ)
    (v : Shared k d items ring lo) where
  -- A producer that loads a sequence number equal to its position has found room there, or came too
  -- late for it.
  pub Placed-load_seq :
      (x : T) (p : ℕ)
      → 1 < 2 ^ k
      → p ≤ length items
      → Placed k d items ring lo (Producer.got_seq x p (ring.sequence (slot_of k p)))
  Placed-load_seq x p two le = (
    le,
    v.bounded (slot_of k p) (slot_of-lt k p),
    λ e h. elim (dec_lt (length items) (lo + 2 ^ k)) [
      | yes room ↦ room
      | no full ↦ absurd (occupied e (omega (arith, h, le, full, v.high)))
    ],
  )
    where
      occupied : seq_at k d items ring lo p ≡ p → p ≡ lo + 2 ^ k → ⊥
      occupied e last =
          let seen : seq_at k d items ring lo lo ≡ lo + 2 ^ k =
            ap ring.sequence (sym (slot_of-lap k lo) ∙ ap (slot_of k) (sym last)) ∙ e ∙ last in
          elim (v.used lo (le_refl lo) (omega (arith, last, le, two))) [
            | inl old ↦ omega (arith, old, seen, two)
            | inr ready ↦ omega (arith, ready.0, seen, two)
          ]

  -- A consumer that loads the sequence number after its position has an item.
  pub Taking-load_seq :
      ring.sequence (slot_of k lo) ≡ lo + 1
      → 1 < 2 ^ k
      → Ready k d items ring lo lo (get_or items lo d)
  Taking-load_seq e two = elim (dec_lt lo (length items)) [
    | yes lt ↦ elim (v.used lo (le_refl lo) lt) [
      | inl old ↦ absurd (omega (arith, old, e))
      | inr ready ↦ record { below = lt; ready = e; content = ready.1; claim = refl }
    ]
    | no none_left ↦
        absurd (omega (arith, e, v.free lo (omega (arith, none_left)) (omega (arith, two))))
  ]
