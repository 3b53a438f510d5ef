-- ===== src/Core/Mpsc/Invariant/Steps.antt =====
-- include/core/ring_buffer.hpp: every access to MpscRingBuffer keeps the invariant.
use jisa.Prelude.{
  ℕ, ◌+◌, ◌^◌, ◌≤◌, ◌<◌, ◌≡◌, refl, sym, ap, subst, ◌∙◌, ◌≢◌, none, some, [], ◌∷◌, ◌++◌, append-nil,
  arith, length, take-append_left, update, update_here, update_other,
}
use native.Mathlib.Decide.{ℕ_discrete}
use jisa.Core.Spsc.{next_size}
use jisa.Core.Mpsc.{Producer, Consumer, System}
use jisa.Core.Mpsc.Invariant.{released, position, Mine, Placed, Inv}
use jisa.Core.Mpsc.Invariant.Moves.{Shared-claim, Placed-claim, Mine-own, Taking-claim}

pub update-All {ℓ κ} :
    {A : Type ℓ} (P : A → Type κ) (f : ℕ → A) (i : ℕ) (v : A)
    → P v
    → ((j : ℕ) → i ≢ j → P (f j))
    → (j : ℕ) → P (update f i v j)
update-All P f i v here there j = elim (ℕ_discrete i j) [
  | yes same ↦ subst (λ n. P (update f i v n)) same (subst P (sym (update_here f i v)) here)
  | no ne ↦ subst P (sym (update_other f i j v ne)) (there j ne)
]

module _ {T : Type 0} (f : ℕ → Producer T) where
  -- No two producers have one position after `i` moves to a place whose position no other has.
  pub unique-update :
      (i : ℕ) (q : Producer T)
      → ((a b p : ℕ) → position (f a) ≡ some p → position (f b) ≡ some p → a ≡ b)
      → ((j p : ℕ) → i ≢ j → position q ≡ some p → position (f j) ≢ some p)
      → (a b p : ℕ) → position (update f i q a) ≡ some p
      → position (update f i q b) ≡ some p
      → a ≡ b
  unique-update i q old new a b p = elim (ℕ_discrete i a) [
    | yes ia ↦ elim (ℕ_discrete i b) [
      | yes ib ↦ λ _ _. sym ia ∙ ib
      | no ib ↦ λ ha hb. absurd (new b p ib (at_i a ia ha) (at_other b ib hb))
    ]
    | no ia ↦ elim (ℕ_discrete i b) [
      | yes ib ↦ λ ha hb. absurd (new a p ia (at_i b ib hb) (at_other a ia ha))
      | no ib ↦ λ ha hb. old a b p (at_other a ia ha) (at_other b ib hb)
    ]
  ]
    where
      at_i : (j : ℕ) → i ≡ j → position (update f i q j) ≡ some p → position q ≡ some p
      at_i j e h = ap position (sym (update_here f i q)) ∙ ap (λ n. position (update f i q n)) e ∙ h

      at_other : (j : ℕ) → i ≢ j → position (update f i q j) ≡ some p → position (f j) ≡ some p
      at_other j ne h = ap position (sym (update_other f i j q ne)) ∙ h

module _ {T : Type 0} (k : ℕ) (d : T) (two : 1 < 2 ^ k) (s : System T) (inv : Inv k d s) where
  abbrev pub lo : ℕ
  lo = released s.consumer (length s.popped)

  -- A producer's step that changes its place only.
  pub local-Inv :
      (i : ℕ) (q : Producer T)
      → position q ≡ none
      → Placed k d s.claimed s.ring lo q
      → Inv k d (record s { producers = update s.producers i q; claimed = s.claimed ++ [] })
  local-Inv i q unclaimed here =
      subst (λ l. Inv k d (record s { producers = update s.producers i q; claimed = l }))
        (sym (append-nil s.claimed))
        (record {
          shared = inv.shared;
          placed =
              update-All (Placed k d s.claimed s.ring lo) s.producers i q here
                (λ j _. inv.placed j);
          unique =
              unique-update s.producers i q inv.unique
                (λ j p ne e. absurd (ground (arith, e, unclaimed)));
          read_at = inv.read_at;
          taking = inv.taking;
          order = inv.order;
        })

  pub won-Inv :
      (i : ℕ) (item : T) (p : ℕ)
      → length s.claimed < lo + 2 ^ k
      → p ≡ length s.claimed
      → next_size p ≡ p + 1
      → Inv k d (record s {
        ring = record (s.ring) { write_cursor = next_size p };
        producers = update s.producers i (Producer.claimed item p);
        claimed = s.claimed ++ (item ∷ []);
      })
  won-Inv i item p room last next = record {
    shared =
        Shared-claim k d s.claimed s.ring lo item (next_size p) (omega (arith, next, last)) room
          inv.shared;
    placed =
        update-All
          (Placed k d (s.claimed ++ (item ∷ [])) (record (s.ring) { write_cursor = next_size p })
            lo)
          s.producers i (Producer.claimed item p)
          (subst
            (Mine k d (s.claimed ++ (item ∷ [])) (record (s.ring) { write_cursor = next_size p }) lo
              item)
            (sym last) (Mine-own k d s.claimed s.ring lo item (next_size p) room inv.shared))
          (λ j _.
            Placed-claim k d s.claimed s.ring lo item (next_size p) (s.producers j) (inv.placed j));
    unique =
        unique-update s.producers i (Producer.claimed item p) inv.unique (λ j q ne e h.
          new_position j q (ground (arith, e)) h (s.producers j) refl (inv.placed j));
    read_at = inv.read_at;
    taking =
        Taking-claim k d s.claimed s.ring item (length s.popped) (next_size p) s.consumer
          inv.shared.low inv.taking;
    order =
        inv.order
        ∙ sym (take-append_left (length s.popped) s.claimed (item ∷ []) (omega (arith, popped-le)));
  }
    where
      popped-le : length s.popped ≤ length s.claimed
      popped-le = behind s.consumer inv.shared.low
        where
          behind :
              (c : Consumer T)
              → released c (length s.popped) ≤ length s.claimed
              → length s.popped ≤ length s.claimed
          behind Consumer.idle h = h
          behind (Consumer.got_pos _) h = h
          behind (Consumer.got_seq _ _) h = h
          behind (Consumer.got_item _ _) h = h
          behind (Consumer.recycled _ _) h = omega (arith, h)

      new_position :
          (j q : ℕ)
          → p ≡ q
          → position (s.producers j) ≡ some q
          → (pl : Producer T) → s.producers j ≡ pl
          → Placed k d s.claimed s.ring lo pl
          → ⊥
      new_position j q same h Producer.idle e v = ground (arith, sym (ap position e) ∙ h)
      new_position j q same h (Producer.got_pos _ _) e v = ground (arith, sym (ap position e) ∙ h)
      new_position j q same h (Producer.got_seq _ _ _) e v = ground (arith, sym (ap position e) ∙ h)
      new_position j q same h (Producer.claimed _ x) e v =
          ground (arith, sym (ap position e) ∙ h, v.below, last, same)
      new_position j q same h (Producer.wrote _ x) e v =
          ground (arith, sym (ap position e) ∙ h, v.0.below, last, same)
