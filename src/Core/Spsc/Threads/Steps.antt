-- ===== src/Core/Spsc/Threads/Steps.antt =====
-- A step of either thread keeps the invariant.
use jisa.Prelude.{
  ℕ, ◌+◌, ◌%◌, ◌^◌, ◌≡◌, ◌∙◌, ap, sym, ◌≤◌, ◌<◌, List, [], ◌∷◌, ◌++◌, arith, get_or, set, take,
  length, length-append, length-set, get_or-set_self, get_or-set_ne, get_or-append_left,
  get_or-append_length, take-append_left, take-add-one,
}
use jisa.Core.Spsc.{Ring, size_mod, next_size, slot_of}
use jisa.Core.Spsc.Counters.{slot_of-counter, capacity-le, capacity_pos, position-ne}
use jisa.Core.Spsc.Threads.{Producer, Consumer, System, Push, Pop}
use native.Mathlib.Nat.{mod-lt, le_refl}
use native.Mathlib.Decide.{dec_lt}

module _ {T : Type 0} (k : ℕ) (d : T) where
  -- The ring holds what was pushed and not popped yet, the oldest at `head`.
  pub record Shape (r : Ring T) (pushed popped : List T) : Type 0 where
    pub room : length r.storage ≡ 2 ^ k
    pub head_at : r.head ≡ length popped % size_mod
    pub tail_at : r.tail ≡ length pushed % size_mod
    pub ahead : length popped ≤ length pushed
    pub fits : length pushed ≤ length popped + 2 ^ k
    pub holds :
        (i : ℕ)
        → length popped ≤ i
        → i < length pushed
        → get_or r.storage (i % 2 ^ k) d ≡ get_or pushed i d
    pub order : popped ≡ take (length popped) pushed

  -- What the locals of a thread say about shared memory. A loaded counter may be out of date.
  abbrev pub ProducerOk : Ring T → List T → List T → Producer T → Type 0
  ProducerOk r pushed popped Producer.idle = Unit
  ProducerOk r pushed popped (Producer.got_tail item t) = t ≡ length pushed % size_mod
  ProducerOk r pushed popped (Producer.got_head item t h) =
      (seen : ℕ) × (t ≡ length pushed % size_mod)
      × (h ≡ seen % size_mod)
      × (seen ≤ length popped)
      × (length pushed ≤ seen + 2 ^ k)
  ProducerOk r pushed popped (Producer.wrote item t) =
      (t ≡ length pushed % size_mod)
      × (length pushed < length popped + 2 ^ k)
      × (get_or r.storage (length pushed % 2 ^ k) d ≡ item)

  abbrev pub ConsumerOk : List T → List T → Consumer T → Type 0
  ConsumerOk pushed popped Consumer.idle = Unit
  ConsumerOk pushed popped (Consumer.got_head h) = h ≡ length popped % size_mod
  ConsumerOk pushed popped (Consumer.got_tail h t) =
      (seen : ℕ) × (h ≡ length popped % size_mod)
      × (t ≡ seen % size_mod)
      × (length popped ≤ seen)
      × (seen ≤ length pushed)
  ConsumerOk pushed popped (Consumer.got_item h x) =
      (h ≡ length popped % size_mod)
      × (length popped < length pushed)
      × (x ≡ get_or pushed (length popped) d)

  pub record Inv (s : System T) : Type 0 where
    pub shape : Shape s.ring s.pushed s.popped
    pub producer : ProducerOk s.ring s.pushed s.popped s.producer
    pub consumer : ConsumerOk s.pushed s.popped s.consumer

module _ {T : Type 0} (k : ℕ) (d : T) (small : k ≤ 63) {r : Ring T} {pushed popped : List T} where
  -- A write at the tail is past everything that the ring holds.
  pub Shape-store_item :
      (item : T) (t : ℕ)
      → Shape k d r pushed popped
      → t ≡ length pushed % size_mod
      → length pushed < length popped + 2 ^ k
      → Shape k d (record r { storage = set r.storage (slot_of k t) item }) pushed popped
        × (get_or (set r.storage (slot_of k t) item) (length pushed % 2 ^ k) d ≡ item)
  Shape-store_item item t v e lt = rw at_tail (
    record {
      room = length-set r.storage here item ∙ v.room;
      head_at = v.head_at;
      tail_at = v.tail_at;
      ahead = v.ahead;
      fits = v.fits;
      holds = λ i p q.
          get_or-set_ne r.storage here (i % 2 ^ k) item d
            (λ same. position-ne (2 ^ k) i (length pushed) q (omega (arith, p)) (sym same))
          ∙ v.holds i p q;
      order = v.order;
    },
    get_or-set_self r.storage here item d
        (omega (arith, v.room, mod-lt (length pushed) (capacity_pos k))),
  )
    where
      here : ℕ
      here = length pushed % 2 ^ k

      at_tail : slot_of k t ≡ here
      at_tail = ap (slot_of k) e ∙ slot_of-counter k (length pushed) (omega arith)

  pub Shape-store_tail :
      (item : T) (t : ℕ)
      → Shape k d r pushed popped
      → t ≡ length pushed % size_mod
      → length pushed < length popped + 2 ^ k
      → get_or r.storage (length pushed % 2 ^ k) d ≡ item
      → Shape k d (record r { tail = next_size t }) (pushed ++ (item ∷ [])) popped
  Shape-store_tail item t v e lt x = record {
    room = v.room;
    head_at = v.head_at;
    tail_at = omega (arith, e, length-append pushed (item ∷ []));
    ahead = omega (arith, v.ahead, length-append pushed (item ∷ []));
    fits = omega (arith, lt, length-append pushed (item ∷ []));
    holds = λ i p q. elim (dec_lt i (length pushed)) [
      | yes old ↦ v.holds i p old ∙ sym (get_or-append_left pushed (item ∷ []) i d old)
      | no new ↦
          let newest : i ≡ length pushed = omega (arith, q, length-append pushed (item ∷ [])) in
          rw newest (x ∙ sym (get_or-append_length pushed item [] d))
    ];
    order = v.order ∙ sym (take-append_left (length popped) pushed (item ∷ []) v.ahead);
  }

  pub Shape-store_head :
      (item : T) (h : ℕ)
      → Shape k d r pushed popped
      → h ≡ length popped % size_mod
      → length popped < length pushed
      → item ≡ get_or pushed (length popped) d
      → Shape k d (record r { head = next_size h }) pushed (popped ++ (item ∷ []))
  Shape-store_head item h v e lt x = record {
    room = v.room;
    head_at = omega (arith, e, length-append popped (item ∷ []));
    tail_at = v.tail_at;
    ahead = omega (arith, lt, length-append popped (item ∷ []));
    fits = omega (arith, v.fits, length-append popped (item ∷ []));
    holds = λ i p q. v.holds i (omega (arith, length-append popped (item ∷ []))) q;
    order = rw (length-append popped (item ∷ [])) (
        ap (λ p. p ++ (item ∷ [])) v.order
        ∙ ap (λ y. take (length popped) pushed ++ (y ∷ [])) x
        ∙ sym (take-add-one (length popped) pushed d lt));
  }

module _ {T : Type 0} (k : ℕ) (d : T) (small : k ≤ 63) where
  -- The consumer's locals stay true while the producer publishes an item, and the other way round.
  ConsumerOk-pushed :
      (pushed popped : List T) (item : T) (c : Consumer T)
      → length popped ≤ length pushed
      → ConsumerOk k d pushed popped c
      → ConsumerOk k d (pushed ++ (item ∷ [])) popped c
  ConsumerOk-pushed pushed popped item Consumer.idle h v = tt
  ConsumerOk-pushed pushed popped item (Consumer.got_head _) h v = v
  ConsumerOk-pushed pushed popped item (Consumer.got_tail _ _) h (seen, a, b, lo, hi) =
      (seen, a, b, lo, omega (arith, hi, length-append pushed (item ∷ [])))
  ConsumerOk-pushed pushed popped item (Consumer.got_item _ _) h (a, b, x) = (
    a,
    omega (arith, b, length-append pushed (item ∷ [])),
    x ∙ sym (get_or-append_left pushed (item ∷ []) (length popped) d b),
  )

  ProducerOk-popped :
      (r : Ring T) (head : ℕ) (pushed popped : List T) (item : T) (c : Producer T)
      → ProducerOk k d r pushed popped c
      → ProducerOk k d (record r { head = head }) pushed (popped ++ (item ∷ [])) c
  ProducerOk-popped r head pushed popped item Producer.idle v = tt
  ProducerOk-popped r head pushed popped item (Producer.got_tail _ _) v = v
  ProducerOk-popped r head pushed popped item (Producer.got_head _ _ _) (seen, a, b, lo, hi) =
      (seen, a, b, omega (arith, lo, length-append popped (item ∷ [])), hi)
  ProducerOk-popped r head pushed popped item (Producer.wrote _ _) (a, b, x) =
      (a, omega (arith, b, length-append popped (item ∷ [])), x)

  pub Push-Inv :
      {s t : System T}
      → {p : Producer T} → Push k d s p t
      → Shape k d s.ring s.pushed s.popped
      → ProducerOk k d s.ring s.pushed s.popped p
      → ConsumerOk k d s.pushed s.popped s.consumer
      → Inv k d t
  Push-Inv {s} (Push.load_tail item) v p c = record {
    shape = v;
    producer = v.tail_at;
    consumer = c;
  }
  Push-Inv {s} Push.load_head v p c = record {
    shape = v;
    producer = (length s.popped, p, v.head_at, le_refl _, v.fits);
    consumer = c;
  }
  Push-Inv {s} (Push.full h) v p c = record { shape = v; producer = tt; consumer = c }
  Push-Inv {s} (Push.store_item {item} {tail} {head} h) v (seen, a, b, lo, hi) c =
      let room : length s.pushed < length s.popped + 2 ^ k =
        omega (arith, h, capacity-le k small) in
      let (shape, written) = Shape-store_item k d small item tail v a room in
      record { shape = shape; producer = (a, room, written); consumer = c }
  Push-Inv {s} (Push.store_tail {item} {tail}) v (a, room, x) c = record {
    shape = Shape-store_tail k d small item tail v a room x;
    producer = tt;
    consumer = ConsumerOk-pushed s.pushed s.popped item s.consumer v.ahead c;
  }

  pub Pop-Inv :
      {s t : System T}
      → {c : Consumer T} → Pop k d s c t
      → Shape k d s.ring s.pushed s.popped
      → ProducerOk k d s.ring s.pushed s.popped s.producer
      → ConsumerOk k d s.pushed s.popped c
      → Inv k d t
  Pop-Inv {s} Pop.load_head v p c = record { shape = v; producer = p; consumer = v.head_at }
  Pop-Inv {s} Pop.load_tail v p c = record {
    shape = v;
    producer = p;
    consumer = (length s.pushed, c, v.tail_at, v.ahead, le_refl _);
  }
  Pop-Inv {s} (Pop.empty h) v p c = record { shape = v; producer = p; consumer = tt }
  Pop-Inv {s} (Pop.load_item {head} {tail} ne) v p (seen, a, b, lo, hi) =
      let waiting : length s.popped < length s.pushed = ground (arith, a, b) in
      record {
        shape = v;
        producer = p;
        consumer = (
          a,
          waiting,
          ap (λ i. get_or s.ring.storage i d)
                (ap (slot_of k) a ∙ slot_of-counter k (length s.popped) (omega arith))
              ∙ v.holds (length s.popped) (le_refl _) waiting,
        );
      }
  Pop-Inv {s} (Pop.store_head {head} {item}) v p (a, lt, x) = record {
    shape = Shape-store_head k d small item head v a lt x;
    producer = ProducerOk-popped s.ring (next_size head) s.pushed s.popped item s.producer p;
    consumer = tt;
  }
