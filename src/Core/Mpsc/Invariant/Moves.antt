-- ===== src/Core/Mpsc/Invariant/Moves.antt =====
-- include/core/ring_buffer.hpp: what each access to MpscRingBuffer does to the facts of the others.
use jisa.Prelude.{
  ℕ, ◌+◌, ◌^◌, ◌≤◌, ◌<◌, ◌≡◌, sym, ap, subst, ◌∙◌, ◌≢◌, inl, inr, some, List, [], ◌∷◌, ◌++◌, arith,
  length, get_or, length-append, get_or-append_left, get_or-append_length, update_here,
  update_other,
}
use native.Mathlib.Nat.{le_refl}
use native.Mathlib.Decide.{dec_lt, ℕ_discrete}
use jisa.Core.Spsc.{slot_of}
use jisa.Core.Mpsc.{Producer, Consumer, Ring, write_content, store_seq}
use jisa.Core.Mpsc.Positions.{slot_of-apart}
use jisa.Core.Mpsc.Invariant.{
  released, position, seq_at, content_at, Shared, Mine, Placed, Ready, Taking,
}

-- The exchange that claims position `length items` for `item`, where a slot is free.
module _ {T : Type 0} (k : ℕ) (d : T) (items : List T) (ring : Ring T) (lo : ℕ) (item : T) where
  abbrev pub more : List T
  more = items ++ (item ∷ [])

  pub longer : length more ≡ length items + 1
  longer = length-append items (item ∷ [])

  older : (p : ℕ) → p < length items → get_or more p d ≡ get_or items p d
  older p lt = get_or-append_left items (item ∷ []) p d lt

  abbrev pub moved : ℕ → Ring T
  moved w = record ring { write_cursor = w }

  pub Shared-claim :
      (w : ℕ)
      → w ≡ length items + 1
      → length items < lo + 2 ^ k
      → Shared k d items ring lo
      → Shared k d more (moved w) lo
  Shared-claim w e room v = record {
    write_at = e ∙ sym longer;
    low = omega (arith, longer, v.low);
    high = omega (arith, longer, room);
    bounded = λ j lt. omega (arith, longer, v.bounded j lt);
    free = λ p a b. v.free p (omega (arith, longer, a)) b;
    used = λ p a b. elim (dec_lt p (length items)) [
      | yes old ↦ rw (older p old) (v.used p a old)
      | no new ↦ inl (v.free p (omega arith) (omega (arith, longer, room, b)))
    ];
  }

  Mine-claim : (w : ℕ) (x : T) (p : ℕ) → Mine k d items ring lo x p → Mine k d more (moved w) lo x p
  Mine-claim w x p m = record {
    from = m.from;
    below = omega (arith, longer, m.below);
    unready = m.unready;
    claim = older p m.below ∙ m.claim;
  }

  pub Placed-claim :
      (w : ℕ) (q : Producer T) → Placed k d items ring lo q → Placed k d more (moved w) lo q
  Placed-claim w Producer.idle v = tt
  Placed-claim w (Producer.got_pos x p) v = omega (arith, longer, v)
  Placed-claim w (Producer.got_seq x p seq) v = (
    omega (arith, longer, v.0),
    omega (arith, longer, v.1),
    λ _ h. absurd (omega (arith, longer, v.0, h)),
  )
  Placed-claim w (Producer.claimed x p) v = Mine-claim w x p v
  Placed-claim w (Producer.wrote x p) v = (Mine-claim w x p v.0, v.1)

  Ready-claim : (w p : ℕ) (x : T) → Ready k d items ring lo p x → Ready k d more (moved w) lo p x
  Ready-claim w p x v = record {
    below = omega (arith, longer, v.below);
    ready = v.ready;
    content = v.content;
    claim = older p v.below ∙ v.claim;
  }

  pub Mine-own :
      (w : ℕ)
      → length items < lo + 2 ^ k
      → Shared k d items ring lo
      → Mine k d more (moved w) lo item (length items)
  Mine-own w room v = record {
    from = v.low;
    below = omega (arith, longer);
    unready = v.free (length items) (omega arith) room;
    claim = get_or-append_length items item [] d;
  }

module _ {T : Type 0} (k : ℕ) (d : T) (items : List T) (ring : Ring T) (item : T) where
  pub Taking-claim :
      (r w : ℕ) (c : Consumer T)
      → released c r ≤ length items
      → Taking k d items ring r c
      → Taking k d (items ++ (item ∷ [])) (record ring { write_cursor = w }) r c
  Taking-claim r w Consumer.idle lt v = tt
  Taking-claim r w (Consumer.got_pos p) lt v = v
  Taking-claim r w (Consumer.got_seq p seq) lt v = (
    v.0,
    λ e.
        rw (older k d items ring r item r (v.1 e).below)
          (Ready-claim k d items ring r item w r _ (v.1 e)),
  )
  Taking-claim r w (Consumer.got_item p x) lt v = (v.0, Ready-claim k d items ring r item w r x v.1)
  Taking-claim r w (Consumer.recycled p x) lt v =
      (v.0, older k d items ring r item r (omega (arith, lt)) ∙ v.1)

-- A producer's accesses to the slot that is its own.
module _ {T : Type 0} (k : ℕ) (d : T) (items : List T) (ring : Ring T) (lo : ℕ) (item : T)
    (p : ℕ) where
  module _ (v : Shared k d items ring lo) (m : Mine k d items ring lo item p) where
    -- Other positions of the lap have other slots.
    apart : (q : ℕ) → lo ≤ q → q < lo + 2 ^ k → p ≢ q → slot_of k p ≢ slot_of k q
    apart q a b ne = slot_of-apart k lo p q m.from (omega (arith, m.below, v.high)) a b ne

    content_other :
        (q : ℕ)
        → lo ≤ q
        → q < lo + 2 ^ k
        → p ≢ q
        → content_at k d items (write_content k ring p item) lo q ≡ content_at k d items ring lo q
    content_other q a b ne =
        update_other ring.content (slot_of k p) (slot_of k q) item (apart q a b ne)

    pub seq_other :
        (w q : ℕ)
        → lo ≤ q
        → q < lo + 2 ^ k
        → p ≢ q
        → seq_at k d items (store_seq k ring p w) lo q ≡ seq_at k d items ring lo q
    seq_other w q a b ne = update_other ring.sequence (slot_of k p) (slot_of k q) w (apart q a b ne)

    pub Shared-write : Shared k d items (write_content k ring p item) lo
    Shared-write = record {
      write_at = v.write_at;
      low = v.low;
      high = v.high;
      bounded = v.bounded;
      free = v.free;
      used = λ q a b. elim (ℕ_discrete p q) [
        | yes same ↦ inl (subst (λ n. seq_at k d items ring lo n ≡ n) same m.unready)
        | no ne ↦ rw (content_other q a (omega (arith, b, v.high)) ne) (v.used q a b)
      ];
    }

    pub Placed-write :
        (q : Producer T)
        → position q ≢ some p
        → Placed k d items ring lo q
        → Placed k d items (write_content k ring p item) lo q
    Placed-write Producer.idle ne g = tt
    Placed-write (Producer.got_pos x q) ne g = g
    Placed-write (Producer.got_seq x q seq) ne g = g
    Placed-write (Producer.claimed x q) ne g = record {
      from = g.from;
      below = g.below;
      unready = g.unready;
      claim = g.claim;
    }
    Placed-write (Producer.wrote x q) ne g = (
      record { from = g.0.from; below = g.0.below; unready = g.0.unready; claim = g.0.claim },
      content_other q g.0.from (omega (arith, g.0.below, v.high)) (λ e. ne (ap some (sym e))) ∙ g.1,
    )

    pub Placed-own : Placed k d items (write_content k ring p item) lo (Producer.wrote item p)
    Placed-own = (
      record { from = m.from; below = m.below; unready = m.unready; claim = m.claim },
      update_here ring.content (slot_of k p) item,
    )

    pub Shared-publish :
        (w : ℕ)
        → w ≡ p + 1
        → content_at k d items ring lo p ≡ item
        → Shared k d items (store_seq k ring p w) lo
    Shared-publish w e written = record {
      write_at = v.write_at;
      low = v.low;
      high = v.high;
      bounded = λ j lt. ground (arith, v.bounded j lt, e, m.below);
      free = λ q a b.
          seq_other w q (omega (arith, a, v.low)) b (omega (arith, a, m.below)) ∙ v.free q a b;
      used = λ q a b. elim (ℕ_discrete p q) [
        | yes same ↦ inr (
            subst
              (λ n.
                (seq_at k d items (store_seq k ring p w) lo n ≡ n + 1)
                × (content_at k d items ring lo n ≡ get_or items n d))
              same (update_here ring.sequence (slot_of k p) w ∙ e, written ∙ sym m.claim))
        | no ne ↦ rw (seq_other w q a (omega (arith, b, v.high)) ne) (v.used q a b)
      ];
    }

    Mine-publish :
        (w : ℕ) (x : T) (q : ℕ)
        → p ≢ q
        → Mine k d items ring lo x q
        → Mine k d items (store_seq k ring p w) lo x q
    Mine-publish w x q ne g = record {
      from = g.from;
      below = g.below;
      unready = seq_other w q g.from (omega (arith, g.below, v.high)) ne ∙ g.unready;
      claim = g.claim;
    }

    pub Placed-publish :
        (w : ℕ) (q : Producer T)
        → position q ≢ some p
        → Placed k d items ring lo q
        → Placed k d items (store_seq k ring p w) lo q
    Placed-publish w Producer.idle ne g = tt
    Placed-publish w (Producer.got_pos x q) ne g = g
    Placed-publish w (Producer.got_seq x q seq) ne g = g
    Placed-publish w (Producer.claimed x q) ne g = Mine-publish w x q (λ e. ne (ap some (sym e))) g
    Placed-publish w (Producer.wrote x q) ne g =
        (Mine-publish w x q (λ e. ne (ap some (sym e))) g.0, g.1)

    -- A position that is ready is not the producer's.
    ready_other : (q : ℕ) → seq_at k d items ring lo q ≡ q + 1 → p ≢ q
    ready_other q e same =
        absurd
          (omega (arith, m.unready, subst (λ n. seq_at k d items ring lo n ≡ n + 1) (sym same) e))

    Ready-write :
        (q : ℕ) (x : T)
        → lo ≤ q
        → Ready k d items ring lo q x
        → Ready k d items (write_content k ring p item) lo q x
    Ready-write q x a g = record {
      below = g.below;
      ready = g.ready;
      content =
          content_other q a (omega (arith, g.below, v.high)) (ready_other q g.ready) ∙ g.content;
      claim = g.claim;
    }

    Ready-publish :
        (w q : ℕ) (x : T)
        → lo ≤ q
        → Ready k d items ring lo q x
        → Ready k d items (store_seq k ring p w) lo q x
    Ready-publish w q x a g = record {
      below = g.below;
      ready = seq_other w q a (omega (arith, g.below, v.high)) (ready_other q g.ready) ∙ g.ready;
      content = g.content;
      claim = g.claim;
    }

module _ {T : Type 0} (k : ℕ) (d : T) (items : List T) (ring : Ring T) (item : T) (p r : ℕ) where
  pub Taking-write :
      (c : Consumer T)
      → Shared k d items ring (released c r)
      → Mine k d items ring (released c r) item p
      → Taking k d items ring r c
      → Taking k d items (write_content k ring p item) r c
  Taking-write Consumer.idle v m g = tt
  Taking-write (Consumer.got_pos q) v m g = g
  Taking-write (Consumer.got_seq q seq) v m g =
      (g.0, λ e. Ready-write k d items ring r item p v m r _ (le_refl r) (g.1 e))
  Taking-write (Consumer.got_item q x) v m g =
      (g.0, Ready-write k d items ring r item p v m r x (le_refl r) g.1)
  Taking-write (Consumer.recycled q x) v m g = g

  pub Taking-publish :
      (w : ℕ) (c : Consumer T)
      → Shared k d items ring (released c r)
      → Mine k d items ring (released c r) item p
      → Taking k d items ring r c
      → Taking k d items (store_seq k ring p w) r c
  Taking-publish w Consumer.idle v m g = tt
  Taking-publish w (Consumer.got_pos q) v m g = g
  Taking-publish w (Consumer.got_seq q seq) v m g =
      (g.0, λ e. Ready-publish k d items ring r item p v m w r _ (le_refl r) (g.1 e))
  Taking-publish w (Consumer.got_item q x) v m g =
      (g.0, Ready-publish k d items ring r item p v m w r x (le_refl r) g.1)
  Taking-publish w (Consumer.recycled q x) v m g = g
