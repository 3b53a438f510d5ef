-- ===== src/Detect/PerStream.antt =====
-- include/detect: what the detectors share. Each keeps a map from stream ids to states, and treats a
-- sample by the state of its own stream alone. The record is that promise; the theorem is what a
-- caller that mixes streams has from it.
use jisa.Prelude.{
  ℕ, ◌≡◌, refl, ap, ◌∙◌, inl, inr, Option, List, [], ◌∷◌, ◌==◌, if◌then◌else◌, Bool-cases, ==_iff,
}
use mathlib.Core.Path.{ap₂}
use jisa.Prelude.Dict.{Dict, nat_key, bytes_key, find}

-- A detector over states `S`, samples `I` and results `O`, and its behaviour on one stream.
pub record PerStream (S I O : Type 0) : Type 0 where
  pub feed : ℕ → I → Dict ℕ S → Dict ℕ S × O
  pub one : Option S → I → Option S × O
  pub feed_result : (k : ℕ) (x : I) (m : Dict ℕ S) → (feed k x m).1 ≡ (one (find k m) x).1
  pub feed_state :
      (k j : ℕ) (x : I) (m : Dict ℕ S)
      → find j (feed k x m).0 ≡ (if k == j then (one (find k m) x).0 else find j m)

-- The samples of stream `s`, in order.
abbrev pub samples_of : {I : Type 0} → ℕ → List (ℕ × I) → List I
samples_of s [] = []
samples_of s ((k, x) ∷ es) = if k == s then x ∷ samples_of s es else samples_of s es

module _ {S I O : Type 0} (p : PerStream S I O) where
  -- The results for stream `s` of a run over samples of any streams.
  unfoldable pub results_of : ℕ → List (ℕ × I) → Dict ℕ S → List O
  results_of s [] m = []
  results_of s ((k, x) ∷ es) m =
      let (m', o) = p.feed k x m in
      let rest = results_of s es m' in if k == s then o ∷ rest else rest

  -- The results of a run over one stream's samples.
  unfoldable pub results : Option S → List I → List O
  results st [] = []
  results st (x ∷ xs) = let (st', o) = p.one st x in o ∷ results st' xs

  pub results_of-results :
      (s : ℕ) (es : List (ℕ × I)) (m : Dict ℕ S)
      → results_of s es m ≡ results (find s m) (samples_of s es)
  unfolding results_of results
  results_of-results s [] m = refl
  results_of-results s ((k, x) ∷ es) m = elim (Bool-cases (k == s)) [
    | inl mine ↦
        let same : k ≡ s = (==_iff k s).0 mine in
        rw mine (
          ap₂ ◌∷◌ (p.feed_result k x m ∙ ap (λ j. (p.one (find j m) x).1) same) (
            results_of-results s es (p.feed k x m).0
            ∙ ap (λ st. results st (samples_of s es))
                (p.feed_state k s x m ∙ rw mine (ap (λ j. (p.one (find j m) x).0) same))))
    | inr other ↦ rw other (
        results_of-results s es (p.feed k x m).0
        ∙ ap (λ st. results st (samples_of s es)) (p.feed_state k s x m ∙ rw other))
  ]
