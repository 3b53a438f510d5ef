-- ===== src/Feed/Gridradar/Time/Same.antt =====
-- include/feed/gridradar.hpp and coinbase.hpp: the two parsers of timestamps agree.
use jisa.Prelude.{
  ℕ, zero, suc, ◌+◌, ◌-◌, ◌*◌, ◌<◌, ◌≡◌, refl, ap, ◌∙◌, inl, inr, Bool, true, false, not, ◌&&◌,
  ◌||◌, Option, none, some, List, arith, ltb, leb, ◌==◌, if◌then◌else◌, Bool-cases, lt→ltb, length,
}
use jisa.Prelude.Int.{ℤ, pos, ◌+ℤ◌, ◌*ℤ◌}
use mathlib.Core.Path.{ap₂}
use jisa.Feed.Time
use jisa.Feed.Time.{
  ◌>>=◌, at, read_digits, read_field, is_digit, read_fraction, scale_fraction, fraction_ns,
}
use jisa.Feed.Gridradar.Time.{
  days_from_civil, digit_loop, read_uint, pass_byte, fraction_loop, scale, fraction_at,
  parse_rfc3339_ns,
}

days_from_civil-same : (y : ℤ) (m d : ℕ) → days_from_civil y m d ≡ Time.days_from_civil y m d
unfolding days_from_civil Time.days_from_civil
days_from_civil-same y m d = refl

not_digit : (c : ℕ) → (ltb c b'0' || ltb b'9' c) ≡ not (is_digit c)
not_digit c = ground arith

digit_loop-read_digits :
    (s : List ℕ) (i left k v : ℕ) → digit_loop s i left k v ≡ read_digits s left (i + k) v
unfolding digit_loop read_digits
digit_loop-read_digits s i zero k v = refl
digit_loop-read_digits s i (suc left) k v =
    let rest = digit_loop-read_digits s i left (k + 1) (v * 10 + (at s (i + k) - b'0')) in
    let next : i + (k + 1) ≡ i + k + 1 = omega arith in
    elim (Bool-cases (is_digit (at s (i + k)))) [
      | inl e ↦
          rw (not_digit (at s (i + k)), e)
            (rest ∙ ap (λ n. read_digits s left n (v * 10 + (at s (i + k) - b'0'))) next)
      | inr e ↦ rw (not_digit (at s (i + k)), e) refl
    ]

abbrev indexed : ℕ → ℕ → Option (ℕ × ℕ)
indexed j v = some (v, j)

read_uint-pair :
    (s : List ℕ) (i count : ℕ)
    → read_uint s i count ≡ (Time.read_uint s i count >>= indexed (i + count))
unfolding read_uint Time.read_uint
read_uint-pair s i count = elim (Bool-cases (ltb (length s) (i + count))) [
  | inl short ↦ rw (read_uint, short) refl
  | inr long ↦
      rw (read_uint, long)
        (ap (λ o. o >>= indexed (i + count))
          (digit_loop-read_digits s i count 0 0
            ∙ ap (λ n. read_digits s count n 0) {x = i + 0} {y = i} (omega arith)))
]

scale-same : (missing frac : ℕ) → scale missing frac ≡ scale_fraction missing frac
unfolding scale scale_fraction
scale-same zero frac = refl
scale-same (suc missing) frac = scale-same missing (frac * 10)

fraction_loop-read_fraction :
    (left fuel : ℕ) (s : List ℕ) (i frac digits : ℕ)
    → left < fuel
    → left + digits ≡ 9
    → ((fraction_loop left s i frac).0 ≡ (read_fraction fuel s i frac digits).0)
      × ((fraction_loop left s i frac).1 + (read_fraction fuel s i frac digits).1 ≡ 9)
unfolding fraction_loop read_fraction
fraction_loop-read_fraction left zero s i frac digits lt e = absurd (omega (arith, lt))
fraction_loop-read_fraction zero (suc fuel) s i frac digits lt e =
    (ground (arith, e), ground (arith, e))
fraction_loop-read_fraction (suc left) (suc fuel) s i frac digits lt e =
    let rest =
      fraction_loop-read_fraction left fuel s (i + 1) (frac * 10 + (at s i - b'0')) (digits + 1)
        (omega (arith, lt)) (omega (arith, e)) in
    let more : ltb digits 9 ≡ true = lt→ltb digits 9 (omega (arith, e)) in
    elim (Bool-cases (ltb i (length s) && is_digit (at s i))) [
      | inl yes_digit ↦ rw (more, yes_digit) rest
      | inr no_digit ↦ rw (more, no_digit) (refl, omega (arith, e))
    ]

fraction_at-fraction_ns : (s : List ℕ) (i : ℕ) → fraction_at s i ≡ fraction_ns s i
unfolding fraction_at fraction_ns
fraction_at-fraction_ns s i =
    let (same, nine) = fraction_loop-read_fraction 9 10 s (i + 1) 0 0 (omega arith) (omega arith) in
    let missing : (fraction_loop 9 s (i + 1) 0).1 ≡ 9 - (read_fraction 10 s (i + 1) 0 0).1 =
      omega (arith, nine) in
    ap (λ n. if ltb i (length s) && at s i == b'.' then n else 0)
      (scale-same (fraction_loop 9 s (i + 1) 0).1 (fraction_loop 9 s (i + 1) 0).0
        ∙ ap₂ scale_fraction missing same)

-- Reading a number and the byte after it, then going on.
read_then :
    {B : Type 0} (s : List ℕ) (i count : ℕ) (ends : ℕ → Bool) (f : ℕ → ℕ → Option B)
    (g : ℕ → Option B)
    → ((v : ℕ) → f v (i + count + 1) ≡ g v)
    → (read_uint s i count >>= (λ p. pass_byte ends s p.1 >>= (λ j. f p.0 j)))
      ≡ (read_field s i count ends >>= g)
unfolding read_field
read_then {B} s i count ends f g h =
    ap (λ o. o >>= (λ p. pass_byte ends s p.1 >>= (λ j. f p.0 j))) (read_uint-pair s i count)
    ∙ go (Time.read_uint s i count)
  where
    go :
        (o : Option ℕ)
        → ((o >>= indexed (i + count)) >>= (λ p. pass_byte ends s p.1 >>= (λ j. f p.0 j))) ≡ (
            elim o as (λ _. Option ℕ) [
              | none ↦ none
              | some v ↦
                  if leb (length s) (i + count)
                  then none
                  else if ends (at s (i + count))
                  then some v
                  else none
            ]
            >>= g)
    go none = refl
    go (some v) = elim (Bool-cases (leb (length s) (i + count))) [
      | inl short ↦ rw short refl
      | inr long ↦ elim (Bool-cases (ends (at s (i + count)))) [
        | inl good ↦ rw (long, good) (h v)
        | inr bad ↦ rw (long, bad) refl
      ]
    ]

read_last :
    {B : Type 0} (s : List ℕ) (i count : ℕ) (f : ℕ → ℕ → Option B) (g : ℕ → Option B)
    → ((v : ℕ) → f v (i + count) ≡ g v)
    → (read_uint s i count >>= (λ p. f p.0 p.1)) ≡ (Time.read_uint s i count >>= g)
read_last {B} s i count f g h =
    ap (λ o. o >>= (λ p. f p.0 p.1)) (read_uint-pair s i count) ∙ go (Time.read_uint s i count)
  where
    go : (o : Option ℕ) → ((o >>= indexed (i + count)) >>= (λ p. f p.0 p.1)) ≡ (o >>= g)
    go none = refl
    go (some v) = h v

checked :
    (bad : Bool) (a b : ℤ)
    → a ≡ b
    → ◌≡◌ {A = Option ℤ} (if bad then none else some a) (if not bad then some b else none)
checked true a b e = refl
checked false a b e = ap some e

-- The timestamp parser of gridradar.hpp and that of coinbase.hpp give the same on every text: both fail,
-- or both read the same time.
pub parse_rfc3339_ns-same : (s : List ℕ) → parse_rfc3339_ns s ≡ Time.parse_rfc3339_ns s
unfolding parse_rfc3339_ns Time.parse_rfc3339_ns
parse_rfc3339_ns-same s =
    read_then s 0 4 (λ c. c == b'-') _ _
      (λ year.
        read_then s 5 2 (λ c. c == b'-') _ _
          (λ mon.
            read_then s 8 2 (λ c. c == b'T' || c == b't' || c == b' ') _ _
              (λ day.
                read_then s 11 2 (λ c. c == b':') _ _
                  (λ hour.
                    read_then s 14 2 (λ c. c == b':') _ _
                      (λ min. read_last s 17 2 _ _ (λ sec.
                        checked (ltb mon 1 || ltb 12 mon || ltb day 1 || ltb 31 day) _ _ (
                          ap₂
                            (λ days frac.
                              (days *ℤ pos 86400 +ℤ pos (hour * 3600) +ℤ pos (min * 60) +ℤ pos sec)
                                *ℤ pos 1000000000
                              +ℤ pos frac)
                            (days_from_civil-same (pos year) mon day)
                            (fraction_at-fraction_ns s 19))))))))
