-- ===== src/Detect/Conformal/Quantile.antt =====
-- include/detect/conformal.hpp: at which place of the window the threshold stands.
use jisa.Prelude.{
  ℕ, zero, suc, ◌+◌, ◌≤◌, ◌<◌, ◌≡◌, refl, ap, ◌∙◌, inl, inr, false, some, List, [], ◌∷◌, arith,
  if◌then◌else◌, Bool-cases, length, get_or, All, min, max,
}
use jisa.Prelude.Int.{ℤ, pos, negsuc, ◌-ℤ◌}
use jisa.Prelude.Dict.{nat_key, bytes_key, find}
use jisa.Double.{
  Double, Arith, zero_d, one_d, is_nan, rank, lt_d, rank_of_not_lt_d, rank_of_lt_d,
  not_lt_d_of_rank, lt_d_irrefl,
}
use native.Mathlib.Nat.{le_trans}
use jisa.Detect.Conformal.{
  State, Conformal, insert, sort, window, window_from, clamp_index, index_of, threshold,
}

abbrev pub NotNan : Double → Type 0
NotNan x = is_nan x ≡ false

-- The scores of a list that would be anomalous at threshold `t`.
abbrev pub count_above : Double → List Double → ℕ
count_above t [] = 0
count_above t (x ∷ xs) = (if lt_d t x then 1 else 0) + count_above t xs

-- The scores of a list that are below `t`.
abbrev pub count_below : Double → List Double → ℕ
count_below t [] = 0
count_below t (x ∷ xs) = (if lt_d x t then 1 else 0) + count_below t xs

abbrev IsSorted : List Double → Type 0
IsSorted [] = Unit
IsSorted (x ∷ xs) = All (λ y. rank x ≤ rank y) xs × IsSorted xs

count_above-insert :
    (t x : Double) (xs : List Double) → count_above t (insert x xs) ≡ count_above t (x ∷ xs)
unfolding insert
count_above-insert t x [] = refl
count_above-insert t x (y ∷ ys) = elim (Bool-cases (lt_d y x)) [
  | inl e ↦ rw e (omega (arith, count_above-insert t x ys))
  | inr e ↦ rw e
]

count_above-sort : (t : Double) (xs : List Double) → count_above t (sort xs) ≡ count_above t xs
unfolding sort
count_above-sort t [] = refl
count_above-sort t (x ∷ xs) = omega (arith, count_above-insert t x (sort xs), count_above-sort t xs)

count_below-insert :
    (t x : Double) (xs : List Double) → count_below t (insert x xs) ≡ count_below t (x ∷ xs)
unfolding insert
count_below-insert t x [] = refl
count_below-insert t x (y ∷ ys) = elim (Bool-cases (lt_d y x)) [
  | inl e ↦ rw e (omega (arith, count_below-insert t x ys))
  | inr e ↦ rw e
]

count_below-sort : (t : Double) (xs : List Double) → count_below t (sort xs) ≡ count_below t xs
unfolding sort
count_below-sort t [] = refl
count_below-sort t (x ∷ xs) = omega (arith, count_below-insert t x (sort xs), count_below-sort t xs)

length-insert : (x : Double) (xs : List Double) → length (insert x xs) ≡ suc (length xs)
unfolding insert
length-insert x [] = refl
length-insert x (y ∷ ys) = elim (Bool-cases (lt_d y x)) [
  | inl e ↦ rw e (ap suc (length-insert x ys))
  | inr e ↦ rw e
]

length-sort : (xs : List Double) → length (sort xs) ≡ length xs
unfolding sort
length-sort [] = refl
length-sort (x ∷ xs) = length-insert x (sort xs) ∙ ap suc (length-sort xs)

All-insert :
    (P : Double → Type 0) (x : Double) (xs : List Double) → P x → All P xs → All P (insert x xs)
unfolding insert
All-insert P x [] p v = (p, v)
All-insert P x (y ∷ ys) p v = elim (Bool-cases (lt_d y x)) [
  | inl e ↦ rw e (v.0, All-insert P x ys p v.1)
  | inr e ↦ rw e (p, v)
]

All-sort : (P : Double → Type 0) (xs : List Double) → All P xs → All P (sort xs)
unfolding sort
All-sort P [] v = v
All-sort P (x ∷ xs) v = All-insert P x (sort xs) v.0 (All-sort P xs v.1)

All-above :
    (x y : Double) (ys : List Double)
    → rank x ≤ rank y
    → All (λ z. rank y ≤ rank z) ys
    → All (λ z. rank x ≤ rank z) ys
All-above x y [] h v = tt
All-above x y (z ∷ zs) h v = (le_trans h v.0, All-above x y zs h v.1)

insert-IsSorted :
    (x : Double) (xs : List Double)
    → NotNan x
    → All NotNan xs
    → IsSorted xs
    → IsSorted (insert x xs)
unfolding insert
insert-IsSorted x [] p v s = (tt, tt)
insert-IsSorted x (y ∷ ys) p v s = elim (Bool-cases (lt_d y x)) [
  | inl e ↦ rw e (
    All-insert (λ z. rank y ≤ rank z) x ys (rank_of_lt_d y x e) s.0,
    insert-IsSorted x ys p v.1 s.1,
  )
  | inr e ↦
      let below : rank x ≤ rank y = rank_of_not_lt_d y x v.0 p e in
      rw e ((below, All-above x y ys below s.0), s)
]

sort-IsSorted : (xs : List Double) → All NotNan xs → IsSorted (sort xs)
unfolding sort
sort-IsSorted [] v = tt
sort-IsSorted (x ∷ xs) v =
    insert-IsSorted x (sort xs) v.0 (All-sort NotNan xs v.1) (sort-IsSorted xs v.1)

count_above-le : (t : Double) (xs : List Double) → count_above t xs ≤ length xs
count_above-le t [] = omega arith
count_above-le t (x ∷ xs) = elim (Bool-cases (lt_d t x)) [
  | inl e ↦ rw e (omega (arith, count_above-le t xs))
  | inr e ↦ rw e (omega (arith, count_above-le t xs))
]

rank-get_or :
    (x : Double) (xs : List Double) (i : ℕ)
    → All (λ y. rank x ≤ rank y) xs
    → i < length xs
    → lt_d (get_or xs i zero_d) x ≡ false
rank-get_or x [] i v h = absurd (omega arith)
rank-get_or x (y ∷ ys) zero v h = not_lt_d_of_rank y x v.0
rank-get_or x (y ∷ ys) (suc i) v h = rank-get_or x ys i v.1 (omega arith)

-- Nothing at or before position `i` of a sorted list is above what stands there.
count_above_sorted :
    (xs : List Double) (i : ℕ)
    → IsSorted xs
    → i < length xs
    → count_above (get_or xs i zero_d) xs + i < length xs
count_above_sorted [] i s h = absurd (omega arith)
count_above_sorted (x ∷ xs) zero s h = rw (lt_d_irrefl x) (omega (arith, count_above-le x xs))
count_above_sorted (x ∷ xs) (suc i) s h =
    rw (rank-get_or x xs i s.0 (omega arith))
      (omega (arith, count_above_sorted xs i s.1 (omega arith)))

count_below_none :
    (t : Double) (xs : List Double) → All (λ y. rank t ≤ rank y) xs → count_below t xs ≡ 0
count_below_none t [] v = refl
count_below_none t (x ∷ xs) v = rw (not_lt_d_of_rank x t v.0, count_below_none t xs v.1) refl

-- Of a sorted list at most the first `i` are below what stands at position `i`.
count_below_sorted :
    (xs : List Double) (i : ℕ)
    → IsSorted xs
    → i < length xs
    → count_below (get_or xs i zero_d) xs ≤ i
count_below_sorted [] i s h = absurd (omega arith)
count_below_sorted (x ∷ xs) zero s h = rw (lt_d_irrefl x, count_below_none x xs s.0) (omega arith)
count_below_sorted (x ∷ xs) (suc i) s h = elim (Bool-cases (lt_d x (get_or xs i zero_d))) [
  | inl e ↦ rw e (omega (arith, count_below_sorted xs i s.1 (omega arith)))
  | inr e ↦ rw e (omega (arith, count_below_sorted xs i s.1 (omega arith)))
]

length-window_from : (w : ℕ) (st : State) (left i : ℕ) → length (window_from w st left i) ≡ left
unfolding window_from
length-window_from w st zero i = refl
length-window_from w st (suc left) i = ap suc (length-window_from w st left (i + 1))

clamp_index-lt : (z : ℤ) (n : ℕ) → 0 < n → clamp_index z n < n
clamp_index-lt (negsuc _) n h = h
clamp_index-lt (pos i) n h = ground (arith, h)

module _ (fp : Arith) (stream_id : ℕ) (alpha : Double) (c : Conformal) (st : State) where
  threshold-found :
      find stream_id c.state ≡ some st
      → 0 < st.count
      → threshold fp stream_id alpha c
        ≡ get_or (sort (window c.capacity st)) (index_of fp alpha st.count) zero_d
  unfolding threshold
  threshold-found found h = ground (arith, found, h)

  index_of-lt : 0 < st.count → index_of fp alpha st.count < st.count
  unfolding index_of
  index_of-lt h = clamp_index-lt _ st.count h

  length-window : length (window c.capacity st) ≡ st.count
  unfolding window
  length-window = length-window_from c.capacity st st.count 0

  -- The number of scores that the quantile takes, (1 - alpha) * count rounded up.
  abbrev pub quota : Double
  quota = fp.ceil (fp.mul (fp.sub one_d alpha) (fp.of_int (pos st.count)))

  -- The same as a number `q` of ours, of which one can be taken away exactly.
  abbrev pub Counts : ℕ → Type 0
  Counts q = (fp.to_int quota ≡ pos q) × (fp.to_int (fp.sub quota one_d) ≡ pos q -ℤ pos 1)

  -- `q`, but at least one score and at most all of them.
  abbrev pub place : ℕ → ℕ
  place q = max 1 (min q st.count)

  index_of-place : (q : ℕ) → 0 < st.count → Counts q → index_of fp alpha st.count + 1 ≡ place q
  unfolding index_of ◌-ℤ◌
  index_of-place zero h (_, e) = rw e (omega (arith, h))
  index_of-place (suc q) h (_, e) = rw e (ground (arith, h))

  -- If (1 - alpha) * count rounds up to `q` scores: the threshold of a stream that has scores, none of them
  -- NaN, is the one at place max 1 (min q count) of its window in ascending order: fewer scores than that lie
  -- below it, and at least as many do not lie above it.
  pub threshold-place :
      (q : ℕ)
      → find stream_id c.state ≡ some st
      → 0 < st.count
      → All NotNan (window c.capacity st)
      → Counts q
      → (count_below (threshold fp stream_id alpha c) (window c.capacity st) < place q)
        × (count_above (threshold fp stream_id alpha c) (window c.capacity st) + place q ≤ st.count)
  threshold-place q found h numbers counts =
      let i = index_of fp alpha st.count in
      let w = window c.capacity st in
      let t = get_or (sort w) i zero_d in
      let long : length (sort w) ≡ st.count = length-sort w ∙ length-window in
      let below : i < length (sort w) = omega (arith, long, index_of-lt h) in
      let sorted = sort-IsSorted w numbers in
      let at = index_of-place q h counts in
      rw (threshold-found found h) (
        omega (arith, count_below_sorted (sort w) i sorted below, count_below-sort t w, at),
        omega (arith, count_above_sorted (sort w) i sorted below, count_above-sort t w, long, at),
      )
