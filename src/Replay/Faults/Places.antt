-- ===== src/Replay/Faults/Places.antt =====
-- include/replay/fault_injector.hpp: the places that a fault finds for its stream.
use jisa.Prelude.{
  ℕ, zero, suc, ◌+◌, ◌-◌, ◌≤◌, ◌<◌, ◌≡◌, ap, subst, ◌∙◌, inl, inr, true, List, [], ◌∷◌, arith, ◌==◌,
  if◌then◌else◌, Bool-cases, ==_iff, length, get_or,
}
use jisa.Core.Message.{Message}
use jisa.Replay.Faults.{no_message, indices_of}

-- The places of a stream's messages hold that stream.
pub indices_of-stream :
    (stream_id i : ℕ) (ms : List Message) (j : ℕ)
    → j < length (indices_of stream_id i ms)
    → let g = get_or (indices_of stream_id i ms) j 0 in
      (i ≤ g) × ((get_or ms (g - i) no_message).stream_id ≡ stream_id)
unfolding indices_of
indices_of-stream stream_id i [] j lt = absurd (omega arith)
indices_of-stream stream_id i (m ∷ ms) j lt = elim (Bool-cases (m.stream_id == stream_id)) [
  | inl e ↦ here j e lt (indices_of-stream stream_id (i + 1) ms)
  | inr e ↦
      let h : j < length (indices_of stream_id (i + 1) ms) =
        subst
          (λ b.
            j
            < length (
                if b then i ∷ indices_of stream_id (i + 1) ms else indices_of stream_id (i + 1) ms))
          e lt in
      rw e (
        there (get_or (indices_of stream_id (i + 1) ms) j 0)
          (indices_of-stream stream_id (i + 1) ms j h))
]
  where
    there :
        (g : ℕ)
        → (i + 1 ≤ g) × ((get_or ms (g - (i + 1)) no_message).stream_id ≡ stream_id)
        → (i ≤ g) × ((get_or (m ∷ ms) (g - i) no_message).stream_id ≡ stream_id)
    there g (le, e) = (
      omega (arith, le),
      ap (λ k. (get_or (m ∷ ms) k no_message).stream_id) {y = suc (g - (i + 1))} (omega (arith, le))
          ∙ e,
    )

    here :
        (j : ℕ)
        → (m.stream_id == stream_id) ≡ true
        → j < length (indices_of stream_id i (m ∷ ms))
        → ((k : ℕ)
            → k < length (indices_of stream_id (i + 1) ms)
            → let g = get_or (indices_of stream_id (i + 1) ms) k 0 in
              (i + 1 ≤ g) × ((get_or ms (g - (i + 1)) no_message).stream_id ≡ stream_id))
        → let g = get_or (indices_of stream_id i (m ∷ ms)) j 0 in
          (i ≤ g) × ((get_or (m ∷ ms) (g - i) no_message).stream_id ≡ stream_id)
    here zero e lt rec = rw e (
      omega arith,
      ap (λ k. (get_or (m ∷ ms) k no_message).stream_id) {y = 0} (omega arith)
          ∙ (==_iff m.stream_id stream_id).0 e,
    )
    here (suc j) e lt rec =
        let h : suc j < length (i ∷ indices_of stream_id (i + 1) ms) =
          subst
            (λ b.
              suc j
              < length (
                  if b
                  then i ∷ indices_of stream_id (i + 1) ms
                  else indices_of stream_id (i + 1) ms))
            e lt in
        rw e (there (get_or (indices_of stream_id (i + 1) ms) j 0) (rec j (omega (arith, h))))
