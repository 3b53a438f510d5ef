-- ===== src/Feed/Time.antt =====
-- include/feed/coinbase.hpp, namespace detail: timestamps. `int64_t` values are integers and
-- `unsigned` ones are numbers below 2 ^ 32 whose operations wrap. A `string_view` is the list of its
-- bytes; the index that the source advances is carried along with what is read.
pub mod Calendar
pub mod Fields
pub mod Fractions
pub mod Stamps
use jisa.Prelude.{
  ℕ, zero, suc, ◌+◌, ◌-◌, ◌*◌, ◌/◌, ◌%◌, ◌^◌, Bool, true, false, not, ◌&&◌, ◌||◌, Option, none,
  some, List, leb, ltb, ◌==◌, if◌then◌else◌, length, get_or,
}
use jisa.Prelude.Int.{ℤ, pos, negsuc, sub_ℕ, ◌+ℤ◌, ◌-ℤ◌, ◌*ℤ◌, leb_ℤ, to_u64}

-- `a / k` on `int64_t` for positive k: towards zero.
abbrev pub quot_ℤ : ℤ → ℕ → ℤ
quot_ℤ (pos n) k = pos (n / k)
quot_ℤ (negsuc n) k = sub_ℕ 0 (suc n / k)

abbrev u32 : ℕ → ℕ
u32 n = n % 2 ^ 32

-- Steps of `days_from_civil`: the year that starts in March, its era, the year of the era and the
-- day of that year.
abbrev pub march_year : ℤ → ℕ → ℤ
march_year y m = if leb m 2 then y -ℤ pos 1 else y

abbrev pub era_of : ℤ → ℤ
era_of y = quot_ℤ (if leb_ℤ (pos 0) y then y else y -ℤ pos 399) 400

abbrev pub year_of_era : ℤ → ℕ
year_of_era y = u32 (to_u64 (y -ℤ era_of y *ℤ pos 400))

abbrev pub day_of_year : ℕ → ℕ → ℕ
day_of_year m d =
    u32 ((153 * u32 (m + (if ltb 2 m then 2 ^ 32 - 3 else 9)) + 2) / 5 + d + 2 ^ 32 - 1)

abbrev pub day_of_era : ℕ → ℕ → ℕ
day_of_era yoe doy = u32 (yoe * 365 + yoe / 4 + 2 ^ 32 - yoe / 100 + doy)

unfoldable pub days_from_civil : ℤ → ℕ → ℕ → ℤ
days_from_civil y m d =
    let y' = march_year y m in
    era_of y' *ℤ pos 146097 +ℤ pos (day_of_era (year_of_era y') (day_of_year m d)) -ℤ pos 719468

abbrev pub is_digit : ℕ → Bool
is_digit c = leb b'0' c && leb c b'9'

-- `s[i]`; the source reads in range only.
abbrev pub at : List ℕ → ℕ → ℕ
at s i = get_or s i 0

-- The loop of `read_uint` with `left` digits to go.
unfoldable pub read_digits : List ℕ → ℕ → ℕ → ℕ → Option ℕ
read_digits s zero i v = some v
read_digits s (suc left) i v =
    let rest = read_digits s left (i + 1) (v * 10 + (at s i - b'0')) in
    if is_digit (at s i) then rest else none

unfoldable pub read_uint : List ℕ → ℕ → ℕ → Option ℕ
read_uint s i count = if ltb (length s) (i + count) then none else read_digits s count i 0

-- `read_uint(s, i, count, out)` and then one more byte that satisfies the test, each in range.
unfoldable pub read_field : List ℕ → ℕ → ℕ → (ℕ → Bool) → Option ℕ
read_field s i count ends = elim (read_uint s i count) [
  | none ↦ none
  | some v ↦
      if leb (length s) (i + count) then none else if ends (at s (i + count)) then some v else none
]

-- The loop over the fraction's digits, at most 9 of them, on fuel: the fraction and its digits.
unfoldable pub read_fraction : ℕ → List ℕ → ℕ → ℕ → ℕ → ℕ × ℕ
read_fraction zero s i frac digits = (frac, digits)
read_fraction (suc fuel) s i frac digits =
    let rest = read_fraction fuel s (i + 1) (frac * 10 + (at s i - b'0')) (digits + 1) in
    if ltb i (length s) && is_digit (at s i) && ltb digits 9 then rest else (frac, digits)

-- `while (digits < 9) frac_ns *= 10`
unfoldable pub scale_fraction : ℕ → ℕ → ℕ
scale_fraction zero frac = frac
scale_fraction (suc missing) frac = scale_fraction missing (frac * 10)

-- The fraction in nanoseconds, from index `i` on. The loop runs 9 rounds at most.
unfoldable pub fraction_ns : List ℕ → ℕ → ℕ
fraction_ns s i =
    let (frac, digits) = read_fraction 10 s (i + 1) 0 0 in
    if ltb i (length s) && at s i == b'.' then scale_fraction (9 - digits) frac else 0

abbrev pub date_ok : ℕ → ℕ → Bool
date_ok mon day = not (ltb mon 1 || ltb 12 mon || ltb day 1 || ltb 31 day)

infixl 5 ◌>>=◌
abbrev pub ◌>>=◌ : {A B : Type 0} → Option A → (A → Option B) → Option B
none >>= f = none
some a >>= f = f a

-- The integers are exact. Where the products of the source's `int64_t` overflow, from 11 April 2262 on, the
-- standard leaves its result undefined; Stamps says on which days that is.
unfoldable pub parse_rfc3339_ns : List ℕ → Option ℤ
parse_rfc3339_ns s = do
  year ← read_field s 0 4 (λ c. c == b'-')
  mon ← read_field s 5 2 (λ c. c == b'-')
  day ← read_field s 8 2 (λ c. c == b'T' || c == b't' || c == b' ')
  hour ← read_field s 11 2 (λ c. c == b':')
  min ← read_field s 14 2 (λ c. c == b':')
  sec ← read_uint s 17 2
  let days = days_from_civil (pos year) mon day
  let secs = days *ℤ pos 86400 +ℤ pos (hour * 3600) +ℤ pos (min * 60) +ℤ pos sec
  if date_ok mon day then some (secs *ℤ pos 1000000000 +ℤ pos (fraction_ns s 19)) else none
