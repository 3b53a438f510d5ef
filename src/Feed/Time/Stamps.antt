-- ===== src/Feed/Time/Stamps.antt =====
-- include/feed/coinbase.hpp: RFC 3339 texts with nanoseconds, read by parse_rfc3339_ns.
use jisa.Prelude.{
  ℕ, ◌+◌, ◌*◌, ◌≤◌, ◌<◌, ◌≡◌, refl, sym, ◌∙◌, ap, ◌≢◌, ◌⊎◌, inl, inr, some, arith, List,
}
use jisa.Prelude.Int.{ℤ, pos, ◌+ℤ◌, ◌*ℤ◌, IsInt64}
use native.Mathlib.Decide.{dec_lt}
use jisa.Feed.Time.{parse_rfc3339_ns, fraction_ns}
use jisa.Feed.Time.Calendar.{
  nth_date, nth_date-IsDate, year-nth_date_small, days_from_civil-nth_date,
}
use jisa.Feed.Time.Fields.{
  Clock, IsClock, dated, year_field, month_field, day_field, hour_field, minute_field, second_field,
  date_ok-IsDate,
}
use jisa.Feed.Time.Fractions.{stamp, milli_stamp, fraction_ns-stamp, fraction_ns-milli_stamp}

pos-+ℤ : (a b : ℕ) → pos a +ℤ pos b ≡ pos (a + b)
unfolding ◌+ℤ◌
pos-+ℤ a b = ground arith

pos-*ℤ : (a b : ℕ) → pos a *ℤ pos b ≡ pos (a * b)
unfolding ◌*ℤ◌
pos-*ℤ a b = ground arith

-- Nanoseconds from 1 January 1970 to a time on the n-th day after it.
abbrev pub instant : ℕ → Clock → ℕ
instant n c = (n * 86400 + c.hour * 3600 + c.minute * 60 + c.second) * 1_000_000_000 + c.nanosecond

instant_lem :
    (n : ℕ) (c : Clock)
    → (pos n *ℤ pos 86400 +ℤ pos (c.hour * 3600) +ℤ pos (c.minute * 60) +ℤ pos c.second)
          *ℤ pos 1000000000
        +ℤ pos c.nanosecond
      ≡ pos (instant n c)
instant_lem n c =
    let hours = n * 86400 + c.hour * 3600 in
    rw
      (
        pos-*ℤ n 86400,
        pos-+ℤ (n * 86400) (c.hour * 3600),
        pos-+ℤ hours (c.minute * 60),
        pos-+ℤ (hours + c.minute * 60) c.second,
        pos-*ℤ (hours + c.minute * 60 + c.second) 1000000000,
        pos-+ℤ ((hours + c.minute * 60 + c.second) * 1000000000) c.nanosecond,
      )
      refl

-- A text that gives the fields of a time on the n-th date, and whose fraction is read as its nanoseconds.
parse_rfc3339_ns-dated :
    (n : ℕ) (c : Clock) (rest : List ℕ)
    → n ≤ 2_932_896
    → IsClock c
    → fraction_ns (dated (nth_date n) c rest) 19 ≡ c.nanosecond
    → parse_rfc3339_ns (dated (nth_date n) c rest) ≡ some (pos (instant n c))
unfolding parse_rfc3339_ns
parse_rfc3339_ns-dated n c rest in_range v fraction =
    let near : n ≤ 5_000_000 = omega (arith, in_range) in
    let d = nth_date-IsDate n near in
    rw
      (
        year_field (nth_date n) c rest d v (year-nth_date_small n in_range),
        month_field (nth_date n) c rest d v,
        day_field (nth_date n) c rest d v,
        hour_field (nth_date n) c rest d v,
        minute_field (nth_date n) c rest d v,
        second_field (nth_date n) c rest d v,
        date_ok-IsDate (nth_date n) d,
        days_from_civil-nth_date n near,
        fraction,
      )
      (ap some (instant_lem n c))

-- In exact integers, up to the end of the year 9999.
parse_rfc3339_ns-exact :
    (n : ℕ) (c : Clock)
    → n ≤ 2_932_896
    → IsClock c
    → parse_rfc3339_ns (stamp (nth_date n) c) ≡ some (pos (instant n c))
unfolding stamp
parse_rfc3339_ns-exact n c in_range v =
    parse_rfc3339_ns-dated n c _ in_range v (fraction_ns-stamp (nth_date n) c v.nanosecond)

-- The text of a time on the n-th date after 1 January 1970, before 11 April 2262, is read as the nanoseconds
-- from the start of 1970 to it, days of 24 hours, leap years counted, no leap seconds; and these fit
-- `int64_t`.
pub parse_rfc3339_ns-stamp :
    (n : ℕ) (c : Clock)
    → n < 106_751
    → IsClock c
    → (parse_rfc3339_ns (stamp (nth_date n) c) ≡ some (pos (instant n c)))
      × IsInt64 (pos (instant n c))
parse_rfc3339_ns-stamp n c before v =
    (parse_rfc3339_ns-exact n c (omega (arith, before)) v, omega (arith, before))

-- The integer that is read of such a text fits `int64_t` on every day before 11 April 2262, and on no day
-- after it: there the source's arithmetic overflows.
pub parse_rfc3339_ns-IsInt64 :
    (n : ℕ) (c : Clock)
    → n ≤ 2_932_896
    → n ≢ 106_751
    → IsClock c
    → (ns : ℤ) × (parse_rfc3339_ns (stamp (nth_date n) c) ≡ some ns)
      × (((n < 106_751) × IsInt64 ns) ⊎ ((106_751 < n) × (¬ IsInt64 ns)))
parse_rfc3339_ns-IsInt64 n c in_range last_day v = (
  pos (instant n c),
  parse_rfc3339_ns-exact n c in_range v,
  elim (dec_lt n 106_751) [
    | yes before ↦ inl (before, omega (arith, before))
    | no not_before ↦
        inr (
          omega (arith, not_before, last_day),
          λ w. absurd (omega (arith, not_before, last_day, w)),
        )
  ],
)

-- The same with milliseconds.
pub parse_rfc3339_ns-milli_stamp :
    (n : ℕ) (c : Clock) (ms : ℕ)
    → n < 106_751
    → IsClock c
    → c.nanosecond ≡ ms * 1_000_000
    → parse_rfc3339_ns (milli_stamp (nth_date n) c ms) ≡ some (pos (instant n c))
unfolding milli_stamp
parse_rfc3339_ns-milli_stamp n c ms before v e =
    parse_rfc3339_ns-dated n c _ (omega (arith, before)) v
      (fraction_ns-milli_stamp (nth_date n) c ms (omega (arith, e, v.nanosecond)) ∙ sym e)
