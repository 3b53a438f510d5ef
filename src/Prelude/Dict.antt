-- ===== src/Prelude/Dict.antt =====
-- The hash maps of the standard library as association lists without repeated keys.
use Prim.Native.Nat.{ℕ}
use mathlib.Core.Path.{◌≡◌, refl}
use mathlib.Core.Logic.{◌↔◌}
use mathlib.Core.Bool.{Bool, true, false, ◌&&◌}
use mathlib.Core.Option.{Option, none, some}
use mathlib.Core.List.{List, [], ◌∷◌}
use native.Mathlib.Omega.{arith}
use jisa.Prelude.Tests.{if◌then◌else◌, ==_iff, ◌==◌}

-- A type of keys with its test of equality.
pub record Key {ℓ} (K : Type ℓ) : Type ℓ where
  pub same : K → K → Bool
  pub same_iff : (a b : K) → (same a b ≡ true) ↔ (a ≡ b)

instance abbrev pub nat_key : Key ℕ
nat_key = record { same = ◌==◌; same_iff = ==_iff }

abbrev pub bytes_same : List ℕ → List ℕ → Bool
bytes_same [] [] = true
bytes_same [] (b ∷ r) = false
bytes_same (a ∷ l) [] = false
bytes_same (a ∷ l) (b ∷ r) = (a == b) && bytes_same l r

pub bytes_same_iff : (a b : List ℕ) → (bytes_same a b ≡ true) ↔ (a ≡ b)
bytes_same_iff [] [] = (λ _. refl, λ _. refl)
bytes_same_iff [] (b ∷ r) = (λ h. cc, λ h. cc)
bytes_same_iff (a ∷ l) [] = (λ h. cc, λ h. cc)
bytes_same_iff (a ∷ l) (b ∷ r) =
    (λ h. ground (arith, bytes_same_iff l r), λ h. ground (arith, bytes_same_iff l r))

instance abbrev pub bytes_key : Key (List ℕ)
bytes_key = record { same = bytes_same; same_iff = bytes_same_iff }

abbrev pub Dict {ℓ κ} : Type ℓ → Type κ → Type (ℓ ⊔ κ)
Dict K V = List (K × V)

module _ {ℓ κ} {K : Type ℓ} {V : Type κ} ⦃e : Key K⦄ where
  unfoldable pub find : K → Dict K V → Option V
  find k [] = none
  find k ((j, v) ∷ m) = if e.same j k then some v else find k m

  -- Replaces the value of a key that is there, and adds a key that is not.
  unfoldable pub put : K → V → Dict K V → Dict K V
  put k v [] = (k, v) ∷ []
  put k v ((j, w) ∷ m) = if e.same j k then (j, v) ∷ m else (j, w) ∷ put k v m

  pub find-put :
      (k j : K) (v : V) (m : Dict K V)
      → find j (put k v m) ≡ (if e.same k j then some v else find j m)
  unfolding find put
  find-put k j v [] = refl
  find-put k j v ((i, w) ∷ m) =
      ground (arith, find-put k j v m, e.same_iff i k, e.same_iff i j, e.same_iff k j)
