-- ===== src/Core/Mpsc/Invariant/Pushes.antt =====
-- include/core/ring_buffer.hpp: every step of a producer of MpscRingBuffer keeps the invariant.
use jisa.Prelude.{
  ℕ, ◌+◌, ◌^◌, ◌≤◌, ◌<◌, ◌≡◌, refl, sym, ap, subst, ◌∙◌, some, List, [], ◌∷◌, ◌++◌, append-nil,
  arith, length, length-append, update,
}
use jisa.Core.Spsc.{next_size}
use jisa.Core.Mpsc.{Producer, Ring, System, Push, store_seq, write_content}
use jisa.Core.Mpsc.Positions.{diff_of-zero}
use jisa.Core.Mpsc.Invariant.{released, position, Mine, Placed, Inv}
use jisa.Core.Mpsc.Invariant.Moves.{
  Shared-write, Placed-write, Placed-own, Taking-write, Shared-publish, Placed-publish,
  Taking-publish,
}
use jisa.Core.Mpsc.Invariant.Recycle.{Placed-load_seq}
use jisa.Core.Mpsc.Invariant.Steps.{update-All, unique-update, local-Inv, won-Inv}

-- The counters have not come near the end of `ptrdiff_t`.
abbrev pub InRange : {T : Type 0} → ℕ → List T → Type 0
InRange k items = length items + 2 ^ k < 2 ^ 63

module _ {T : Type 0} (k : ℕ) (d : T) (s : System T) (inv : Inv k d s) where
  write-Inv :
      (i : ℕ) (item : T) (p : ℕ)
      → s.producers i ≡ Producer.claimed item p
      → Inv k d (record s {
        ring = write_content k s.ring p item;
        producers = update s.producers i (Producer.wrote item p);
        claimed = s.claimed;
      })
  write-Inv i item p e =
      let from = released s.consumer (length s.popped) in
      let mine : Mine k d s.claimed s.ring from item p =
        subst (Placed k d s.claimed s.ring from) e (inv.placed i) in
      let own : position (s.producers i) ≡ some p = ap position e in
      record {
        shared = Shared-write k d s.claimed s.ring from item p inv.shared mine;
        placed =
            update-All (Placed k d s.claimed (write_content k s.ring p item) from) s.producers i
              (Producer.wrote item p) (Placed-own k d s.claimed s.ring from item p inv.shared mine)
              (λ j ne.
                Placed-write k d s.claimed s.ring from item p inv.shared mine (s.producers j)
                  (λ h. ne (inv.unique i j p own h)) (inv.placed j));
        unique =
            unique-update s.producers i (Producer.wrote item p) inv.unique
              (λ j q ne same h. ne (inv.unique i j q (own ∙ same) h));
        read_at = inv.read_at;
        taking =
            Taking-write k d s.claimed s.ring item p (length s.popped) s.consumer inv.shared mine
              inv.taking;
        order = inv.order;
      }

  publish-Inv :
      (i : ℕ) (item : T) (p : ℕ)
      → s.producers i ≡ Producer.wrote item p
      → (p < length s.claimed → next_size p ≡ p + 1)
      → Inv k d (record s {
        ring = store_seq k s.ring p (next_size p);
        producers = update s.producers i Producer.idle;
        claimed = s.claimed;
      })
  publish-Inv i item p e next =
      let from = released s.consumer (length s.popped) in
      let here : Placed k d s.claimed s.ring from (Producer.wrote item p) =
        subst (Placed k d s.claimed s.ring from) e (inv.placed i) in
      let own : position (s.producers i) ≡ some p = ap position e in
      record {
        shared =
            Shared-publish k d s.claimed s.ring from item p inv.shared here.0 (next_size p)
              (next here.0.below) here.1;
        placed =
            update-All (Placed k d s.claimed (store_seq k s.ring p (next_size p)) from) s.producers
              i Producer.idle tt
              (λ j ne.
                Placed-publish k d s.claimed s.ring from item p inv.shared here.0 (next_size p)
                  (s.producers j) (λ h. ne (inv.unique i j p own h)) (inv.placed j));
        unique =
            unique-update s.producers i Producer.idle inv.unique
              (λ j q ne same h. absurd (ground (arith, same)));
        read_at = inv.read_at;
        taking =
            Taking-publish k d s.claimed s.ring item p (length s.popped) (next_size p) s.consumer
              inv.shared here.0 inv.taking;
        order = inv.order;
      }

module _ {T : Type 0} (k : ℕ) (d : T) (two : 1 < 2 ^ k) (s : System T) (inv : Inv k d s) where
  in_range : InRange k (s.claimed ++ []) → InRange k s.claimed
  in_range b = subst (λ l. InRange k l) (append-nil s.claimed) b

  pub Push-Inv :
      (i : ℕ) (p q : Producer T) (r : Ring T) (won : List T)
      → Push k s.ring p q r won
      → s.producers i ≡ p
      → InRange k (s.claimed ++ won)
      → Inv k d
          (record s { ring = r; producers = update s.producers i q; claimed = s.claimed ++ won })
  Push-Inv i _ _ _ _ (Push.load_cursor item) e b =
      local-Inv k d two s inv i _ refl (omega (arith, inv.shared.write_at))
  Push-Inv i _ _ _ _ (Push.load_seq {item} {p}) e b =
      let from = released s.consumer (length s.popped) in
      let here : p ≤ length s.claimed = subst (Placed k d s.claimed s.ring from) e (inv.placed i) in
      local-Inv k d two s inv i _ refl
        (Placed-load_seq k d s.claimed s.ring from inv.shared item p two here)
  Push-Inv i _ _ _ _ (Push.full _) e b = local-Inv k d two s inv i Producer.idle refl tt
  Push-Inv i _ _ _ _ (Push.reload _) e b =
      local-Inv k d two s inv i _ refl (omega (arith, inv.shared.write_at))
  Push-Inv i _ _ _ _ (Push.lost _) e b =
      local-Inv k d two s inv i _ refl (omega (arith, inv.shared.write_at))
  Push-Inv i _ _ _ _ (Push.won {item} {p} {seq} zero_diff cursor) e b =
      let from = released s.consumer (length s.popped) in
      let here : Placed k d s.claimed s.ring from (Producer.got_seq item p seq) =
        subst (Placed k d s.claimed s.ring from) e (inv.placed i) in
      let longer = length-append s.claimed (item ∷ []) in
      let same : seq ≡ p =
        diff_of-zero seq p (omega (arith, here.1, b, longer)) (omega (arith, here.0, b, longer))
          zero_diff in
      let last : p ≡ length s.claimed = sym cursor ∙ inv.shared.write_at in
      won-Inv k d two s inv i item p (here.2 same (omega (arith, last))) last
        (omega (arith, last, b, longer))
  Push-Inv i _ _ _ _ (Push.write {item} {p}) e b =
      subst
        (λ l. Inv k d (record s {
          ring = write_content k s.ring p item;
          producers = update s.producers i (Producer.wrote item p);
          claimed = l;
        }))
        (sym (append-nil s.claimed)) (write-Inv k d s inv i item p e)
  Push-Inv i _ _ _ _ (Push.publish {item} {p}) e b =
      subst
        (λ l. Inv k d (record s {
          ring = store_seq k s.ring p (next_size p);
          producers = update s.producers i Producer.idle;
          claimed = l;
        }))
        (sym (append-nil s.claimed))
        (publish-Inv k d s inv i item p e (λ lt. omega (arith, lt, in_range b)))
