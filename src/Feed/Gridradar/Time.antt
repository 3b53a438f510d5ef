-- ===== src/Feed/Gridradar/Time.antt =====
-- include/feed/gridradar.hpp, namespace gridradar_detail: the adapter's own parser of timestamps. The index
-- that the source advances is passed along; what is left of a loop is counted down.
pub mod Same
use jisa.Prelude.{
  ℕ, zero, suc, ◌+◌, ◌-◌, ◌*◌, ◌/◌, ◌%◌, ◌^◌, min, Bool, not, ◌&&◌, ◌||◌, Option, none, some, List,
  ltb, leb, ◌==◌, if◌then◌else◌, length,
}
use jisa.Prelude.Int.{ℤ, pos, negsuc, sub_ℕ, ◌+ℤ◌, ◌-ℤ◌, ◌*ℤ◌, leb_ℤ, to_u64}
use jisa.Feed.Time.{at, ◌>>=◌}

-- `unsigned` arithmetic
abbrev pub u32 : ℕ → ℕ
u32 n = n % 2 ^ 32

unfoldable pub days_from_civil : ℤ → ℕ → ℕ → ℤ
days_from_civil y0 m d =
    let y = if leb m 2 then y0 -ℤ pos 1 else y0 in
    let shifted = if leb_ℤ (pos 0) y then y else y -ℤ pos 399 in
    let era = quotient shifted 400 in
    let yoe = u32 (to_u64 (y -ℤ era *ℤ pos 400)) in
    let doy =
      u32 ((153 * u32 (m + (if ltb 2 m then 2 ^ 32 - 3 else 9)) + 2) / 5 + d + 2 ^ 32 - 1) in
    let doe = u32 (yoe * 365 + yoe / 4 + 2 ^ 32 - yoe / 100 + doy) in
    era *ℤ pos 146097 +ℤ pos doe -ℤ pos 719468
  where
    -- Division on `int64_t` is towards zero.
    quotient : ℤ → ℕ → ℤ
    quotient (pos n) k = pos (n / k)
    quotient (negsuc n) k = sub_ℕ 0 (suc n / k)

-- The loop of `read_uint`, in round `k`, with `left` rounds to go.
unfoldable pub digit_loop : List ℕ → ℕ → ℕ → ℕ → ℕ → Option ℕ
digit_loop s i zero k v = some v
digit_loop s i (suc left) k v =
    let c = at s (i + k) in
    let rest = digit_loop s i left (k + 1) (v * 10 + (c - b'0')) in
    if ltb c b'0' || ltb b'9' c then none else rest

-- The number and the index after it.
unfoldable pub read_uint : List ℕ → ℕ → ℕ → Option (ℕ × ℕ)
unfolding digit_loop
read_uint s i count =
    if ltb (length s) (i + count)
    then none
    else digit_loop s i count 0 0 >>= (λ v. some (v, i + count))

-- One more byte that passes a test: the index after it.
abbrev pub pass_byte : (ℕ → Bool) → List ℕ → ℕ → Option ℕ
pass_byte ends s i = if leb (length s) i || not (ends (at s i)) then none else some (i + 1)

-- The loop over the digits of the fraction, of which `left` may come: the fraction, and how many digits
-- short of nine it is. What the source does to the index afterwards has no effect.
unfoldable pub fraction_loop : ℕ → List ℕ → ℕ → ℕ → ℕ × ℕ
fraction_loop zero s i frac = (frac, 0)
fraction_loop (suc left) s i frac =
    let rest = fraction_loop left s (i + 1) (frac * 10 + (at s i - b'0')) in
    if ltb i (length s) && (leb b'0' (at s i) && leb (at s i) b'9') then rest else (frac, suc left)

-- `while (digits < 9)`, as often as digits are missing.
unfoldable pub scale : ℕ → ℕ → ℕ
scale zero frac_ns = frac_ns
scale (suc missing) frac_ns = scale missing (frac_ns * 10)

unfoldable pub fraction_at : List ℕ → ℕ → ℕ
unfolding fraction_loop scale
fraction_at s i =
    let (frac, missing) = fraction_loop 9 s (i + 1) 0 in
    if ltb i (length s) && at s i == b'.' then scale missing frac else 0

-- The integers are exact; the source's `int64_t` overflows for the same texts as that of feed/coinbase.hpp.
unfoldable pub parse_rfc3339_ns : List ℕ → Option ℤ
unfolding read_uint days_from_civil fraction_at
parse_rfc3339_ns s = do
  (year, i1) ← read_uint s 0 4
  i2 ← pass_byte (λ c. c == b'-') s i1
  (mon, i3) ← read_uint s i2 2
  i4 ← pass_byte (λ c. c == b'-') s i3
  (day, i5) ← read_uint s i4 2
  i6 ← pass_byte (λ c. c == b'T' || c == b't' || c == b' ') s i5
  (hour, i7) ← read_uint s i6 2
  i8 ← pass_byte (λ c. c == b':') s i7
  (min, i9) ← read_uint s i8 2
  i10 ← pass_byte (λ c. c == b':') s i9
  (sec, i11) ← read_uint s i10 2
  let days = days_from_civil (pos year) mon day
  let secs = days *ℤ pos 86400 +ℤ pos (hour * 3600) +ℤ pos (min * 60) +ℤ pos sec
  let ns = secs *ℤ pos 1000000000 +ℤ pos (fraction_at s i11)
  if ltb mon 1 || ltb 12 mon || ltb day 1 || ltb 31 day then none else some ns
