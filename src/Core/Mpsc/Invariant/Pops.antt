-- ===== src/Core/Mpsc/Invariant/Pops.antt =====
-- include/core/ring_buffer.hpp: every step of the consumer of MpscRingBuffer keeps the invariant.
use jisa.Prelude.{
  ℕ, ◌+◌, ◌^◌, ◌≤◌, ◌<◌, ◌≡◌, refl, sym, ap, subst, ◌∙◌, List, [], ◌∷◌, ◌++◌, append-nil, arith,
  length, get_or, take, length-append, take-add-one,
}
use jisa.Core.Spsc.{slot_of, next_size}
use jisa.Core.Mpsc.{Producer, Consumer, Ring, System, Pop, store_seq, next_lap}
use jisa.Core.Mpsc.Invariant.{released, Shared, Placed, Ready, Taking, Inv}
use jisa.Core.Mpsc.Invariant.Recycle.{Shared-recycle, Placed-recycle, Taking-load_seq}
use jisa.Core.Mpsc.Invariant.Pushes.{InRange}

module _ {T : Type 0} (k : ℕ) (d : T) (two : 1 < 2 ^ k) (s : System T) (inv : Inv k d s) where
  -- A step of the consumer that changes its place only.
  look-Inv :
      (q : Consumer T)
      → released q (length s.popped) ≡ released s.consumer (length s.popped)
      → Taking k d s.claimed s.ring (length s.popped) q
      → Inv k d (record s { consumer = q; popped = s.popped ++ [] })
  look-Inv q same knows =
      subst (λ l. Inv k d (record s { consumer = q; popped = l })) (sym (append-nil s.popped))
        (record {
          shared = subst (Shared k d s.claimed s.ring) (sym same) inv.shared;
          placed = λ i.
              subst (λ n. Placed k d s.claimed s.ring n (s.producers i)) (sym same) (inv.placed i);
          unique = inv.unique;
          read_at = inv.read_at;
          taking = knows;
          order = inv.order;
        })

  recycle-Inv :
      (item : T) (w : ℕ)
      → w ≡ length s.popped + 2 ^ k
      → s.consumer ≡ Consumer.got_item (length s.popped) item
      → Ready k d s.claimed s.ring (length s.popped) (length s.popped) item
      → Inv k d (record s {
        ring = store_seq k s.ring (length s.popped) w;
        consumer = Consumer.recycled (length s.popped) item;
        popped = s.popped ++ [];
      })
  recycle-Inv item w lap e ready =
      let n = length s.popped in
      let at_n : released s.consumer n ≡ n = ap (λ c. released c n) e in
      let shared : Shared k d s.claimed s.ring n =
        subst (Shared k d s.claimed s.ring) at_n inv.shared in
      subst
        (λ l. Inv k d (record s {
          ring = store_seq k s.ring n w;
          consumer = Consumer.recycled n item;
          popped = l;
        }))
        (sym (append-nil s.popped))
        (record {
          shared = Shared-recycle k d s.claimed s.ring n w lap shared ready.below;
          placed = λ i.
              Placed-recycle k d s.claimed s.ring n w lap shared ready.below (s.producers i)
                ready.ready
                (subst (λ m. Placed k d s.claimed s.ring m (s.producers i)) at_n (inv.placed i));
          unique = inv.unique;
          read_at = inv.read_at;
          taking = (refl, ready.claim);
          order = inv.order;
        })

  store_cursor-Inv :
      (p : ℕ) (item : T)
      → next_size p ≡ length s.popped + 1
      → s.consumer ≡ Consumer.recycled p item
      → get_or s.claimed (length s.popped) d ≡ item
      → Inv k d (record s {
        ring = record (s.ring) { read_cursor = next_size p };
        consumer = Consumer.idle;
        popped = s.popped ++ (item ∷ []);
      })
  store_cursor-Inv p item next e claim =
      let n = length s.popped in
      let longer : length (s.popped ++ (item ∷ [])) ≡ n + 1 = length-append s.popped (item ∷ []) in
      let at_n : released s.consumer n ≡ length (s.popped ++ (item ∷ [])) =
        ap (λ c. released c n) e ∙ sym longer in
      let shared : Shared k d s.claimed s.ring (length (s.popped ++ (item ∷ []))) =
        subst (Shared k d s.claimed s.ring) at_n inv.shared in
      record {
        shared = record {
          write_at = shared.write_at;
          low = shared.low;
          high = shared.high;
          bounded = shared.bounded;
          free = shared.free;
          used = shared.used;
        };
        placed = λ i.
            Placed-cursor (length (s.popped ++ (item ∷ []))) (s.producers i)
              (subst (λ m. Placed k d s.claimed s.ring m (s.producers i)) at_n (inv.placed i));
        unique = inv.unique;
        read_at = next ∙ sym longer;
        taking = tt;
        order =
            ap (λ l. l ++ (item ∷ [])) inv.order
            ∙ ap (λ x. take n s.claimed ++ (x ∷ [])) (sym claim)
            ∙ sym (take-add-one n s.claimed d (omega (arith, shared.low, longer)))
            ∙ ap (λ m. take m s.claimed) (sym longer);
      }
    where
      Placed-cursor :
          (m : ℕ) (q : Producer T)
          → Placed k d s.claimed s.ring m q
          → Placed k d s.claimed (record (s.ring) { read_cursor = next_size p }) m q
      Placed-cursor m Producer.idle v = tt
      Placed-cursor m (Producer.got_pos x a) v = v
      Placed-cursor m (Producer.got_seq x a b) v = v
      Placed-cursor m (Producer.claimed x a) v = record {
        from = v.from;
        below = v.below;
        unready = v.unready;
        claim = v.claim;
      }
      Placed-cursor m (Producer.wrote x a) v = (
        record { from = v.0.from; below = v.0.below; unready = v.0.unready; claim = v.0.claim },
        v.1,
      )

  pub Pop-Inv :
      (c q : Consumer T) (r : Ring T) (out : List T)
      → Pop k s.ring c q r out
      → s.consumer ≡ c
      → InRange k s.claimed
      → Inv k d (record s { ring = r; consumer = q; popped = s.popped ++ out })
  Pop-Inv _ _ _ _ Pop.load_cursor e b =
      look-Inv _ (sym (ap (λ c. released c (length s.popped)) e)) inv.read_at
  Pop-Inv _ _ _ _ (Pop.load_seq {p}) e b =
      let n = length s.popped in
      let here : p ≡ n = subst (Taking k d s.claimed s.ring n) e inv.taking in
      let at_n : released s.consumer n ≡ n = ap (λ c. released c n) e in
      look-Inv _ (sym at_n) (
        here,
        λ seen.
            Taking-load_seq k d s.claimed s.ring n
              (subst (Shared k d s.claimed s.ring) at_n inv.shared)
              (ap (λ m. s.ring.sequence (slot_of k m)) (sym here) ∙ seen) two,
      )
  Pop-Inv _ _ _ _ (Pop.not_ready _) e b =
      look-Inv _ (sym (ap (λ c. released c (length s.popped)) e)) tt
  Pop-Inv _ _ _ _ (Pop.read {p} {seq} found) e b =
      let n = length s.popped in
      let here : Taking k d s.claimed s.ring n (Consumer.got_seq p seq) =
        subst (Taking k d s.claimed s.ring n) e inv.taking in
      let at_n : released s.consumer n ≡ n = ap (λ c. released c n) e in
      let low : n ≤ length s.claimed = omega (arith, at_n, inv.shared.low) in
      let ready = here.1 (found ∙ omega (arith, here.0, low, b)) in
      let got : s.ring.content (slot_of k p) ≡ get_or s.claimed n d =
        ap (λ m. s.ring.content (slot_of k m)) here.0 ∙ ready.content in
      look-Inv _ (sym at_n) (here.0, subst (Ready k d s.claimed s.ring n n) (sym got) ready)
  Pop-Inv _ _ _ _ (Pop.recycle {p} {item}) e b =
      let n = length s.popped in
      let here : Taking k d s.claimed s.ring n (Consumer.got_item p item) =
        subst (Taking k d s.claimed s.ring n) e inv.taking in
      subst
        (λ m. Inv k d (record s {
          ring = store_seq k s.ring m (next_lap k m);
          consumer = Consumer.recycled m item;
          popped = s.popped ++ [];
        }))
        (sym here.0)
        (recycle-Inv item (next_lap k n) (omega (arith, here.1.below, b))
          (e ∙ ap (λ m. Consumer.got_item m item) here.0) here.1)
  Pop-Inv _ _ _ _ (Pop.store_cursor {p} {item}) e b =
      let n = length s.popped in
      let here : Taking k d s.claimed s.ring n (Consumer.recycled p item) =
        subst (Taking k d s.claimed s.ring n) e inv.taking in
      let low : n + 1 ≤ length s.claimed =
        omega (arith, ap (λ c. released c n) e, inv.shared.low) in
      store_cursor-Inv p item (omega (arith, here.0, low, b)) e here.1
