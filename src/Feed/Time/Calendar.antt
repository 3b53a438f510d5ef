-- ===== src/Feed/Time/Calendar.antt =====
-- include/feed/coinbase.hpp: `days_from_civil` counts days, by the Gregorian calendar.
use jisa.Prelude.{
  ℕ, zero, suc, ◌+◌, ◌-◌, ◌*◌, ◌/◌, ◌%◌, ◌≤◌, ◌<◌, ◌≡◌, refl, ap, ◌∙◌, Bool, not, ◌&&◌, ◌||◌, arith,
  ltb, leb, ◌==◌, if◌then◌else◌,
}
use jisa.Prelude.Int.{ℤ, pos, ◌+ℤ◌, ◌-ℤ◌, ◌*ℤ◌, -ℤ_parts, eq_of_parts}
use jisa.Feed.Time.{days_from_civil, march_year, year_of_era, era_of, day_of_era, day_of_year}

epoch : days_from_civil (pos 1970) 1 1 ≡ pos 0
unfolding days_from_civil ◌+ℤ◌ ◌-ℤ◌ ◌*ℤ◌
epoch = refl

year_zero : days_from_civil (pos 0) 2 29 ≡ pos 0 -ℤ pos 719469
unfolding days_from_civil ◌+ℤ◌ ◌-ℤ◌ ◌*ℤ◌
year_zero = refl

-- The calendar, as a rule for the next day.
abbrev pub is_leap : ℕ → Bool
is_leap y = (y % 4 == 0) && (not (y % 100 == 0) || (y % 400 == 0))

abbrev pub month_length : ℕ → ℕ → ℕ
month_length y m =
    if m == 2
    then (if is_leap y then 29 else 28)
    else if m == 11 || m == 9 || m == 6 || m == 4
    then 30
    else 31

-- The day of the year that starts in March, month by month.
abbrev march_day : ℕ → ℕ → ℕ
march_day m d = (153 * ((m + 9) % 12) + 2) / 5 + (d - 1)

day_of_year-march_day :
    (m d : ℕ) → 1 ≤ m → m ≤ 12 → 1 ≤ d → d ≤ 31 → day_of_year m d ≡ march_day m d
day_of_year-march_day m d a b c e = ground arith

-- Days before 1 March of year `y`, counted from 1 March of year 0.
abbrev march_days : ℕ → ℕ
march_days y = y * 365 + y / 4 - y / 100 + y / 400

era_count :
    (y doy : ℕ)
    → y ≤ 10_000_000
    → doy ≤ 400
    → era_of (pos y) *ℤ pos 146097 +ℤ pos (day_of_era (year_of_era (pos y)) doy)
      ≡ pos (march_days y + doy)
unfolding ◌+ℤ◌ ◌-ℤ◌ ◌*ℤ◌
era_count y doy a b = ground arith

-- The count of days without eras and without wrapping.
abbrev civil_days : ℕ → ℕ → ℕ → ℕ
civil_days y m d = march_days (if leb m 2 then y - 1 else y) + march_day m d

abbrev epoch_offset : ℕ
epoch_offset = 719468

pub record Date : Type 0 where
  pub year : ℕ
  pub month : ℕ
  pub day : ℕ

pub record IsDate (t : Date) : Type 0 where
  pub after : 1 ≤ t.year
  pub before : t.year ≤ 10_000_000
  pub january : 1 ≤ t.month
  pub december : t.month ≤ 12
  pub first : 1 ≤ t.day
  pub last : t.day ≤ month_length t.year t.month

abbrev days_of : Date → ℤ
days_of t = days_from_civil (pos t.year) t.month t.day

march_year_pos : (y m : ℕ) → 1 ≤ y → march_year (pos y) m ≡ pos (if leb m 2 then y - 1 else y)
unfolding ◌-ℤ◌
march_year_pos y m h = ground arith

days_of-civil_days :
    (t : Date) → IsDate t → days_of t ≡ pos (civil_days t.year t.month t.day) -ℤ pos epoch_offset
unfolding days_from_civil
days_of-civil_days t v =
    ap
      (λ y.
        era_of y *ℤ pos 146097
        +ℤ pos (day_of_era (year_of_era y) (day_of_year t.month t.day))
        -ℤ pos epoch_offset)
      (march_year_pos t.year t.month v.after)
    ∙ ap
        (λ n.
          era_of (pos march) *ℤ pos 146097
          +ℤ pos (day_of_era (year_of_era (pos march)) n)
          -ℤ pos epoch_offset)
        (day_of_year-march_day t.month t.day v.january v.december v.first month_short)
    ∙ ap (λ z. z -ℤ pos epoch_offset)
        (era_count march (march_day t.month t.day) year_small day_small)
  where
    march : ℕ
    march = if leb t.month 2 then t.year - 1 else t.year

    month_short : t.day ≤ 31
    month_short = ground (arith, v.last)

    year_small : march ≤ 10_000_000
    year_small = ground (arith, v.before)

    day_small : march_day t.month t.day ≤ 400
    day_small = omega (arith, month_short)

-- The day after a date, by the rules of the calendar.
unfoldable pub next_date : Date → Date
next_date t =
    if ltb t.day (month_length t.year t.month)
    then record t { day = t.day + 1 }
    else if ltb t.month 12
    then record { year = t.year; month = t.month + 1; day = 1 }
    else record { year = t.year + 1; month = 1; day = 1 }

civil_days-next_date :
    (t : Date)
    → IsDate t
    → civil_days (next_date t).year (next_date t).month (next_date t).day
      ≡ civil_days t.year t.month t.day + 1
unfolding next_date
civil_days-next_date t v = ground arith

next_date-IsDate : (t : Date) → t.year < 10_000_000 → IsDate t → IsDate (next_date t)
unfolding next_date
next_date-IsDate t small v = ground arith

-- The date that comes `n` days after 1 January 1970.
unfoldable pub nth_date : ℕ → Date
nth_date zero = record { year = 1970; month = 1; day = 1 }
nth_date (suc n) = next_date (nth_date n)

year-next_date : (t : Date) → (next_date t).year ≤ t.year + 1
unfolding next_date
year-next_date t = ground arith

year-nth_date : (n : ℕ) → (nth_date n).year ≤ 1970 + n
unfolding nth_date
year-nth_date zero = omega arith
year-nth_date (suc n) = omega (arith, year-next_date (nth_date n), year-nth_date n)

pub nth_date-IsDate : (n : ℕ) → n ≤ 5_000_000 → IsDate (nth_date n)
unfolding nth_date
nth_date-IsDate zero h = omega arith
nth_date-IsDate (suc n) h =
    next_date-IsDate (nth_date n) (omega (arith, year-nth_date n)) (nth_date-IsDate n (omega arith))

civil_days-nth_date :
    (n : ℕ)
    → n ≤ 5_000_000
    → civil_days (nth_date n).year (nth_date n).month (nth_date n).day ≡ epoch_offset + n
unfolding nth_date
civil_days-nth_date zero h = refl
civil_days-nth_date (suc n) h =
    civil_days-next_date (nth_date n) (nth_date-IsDate n (omega arith))
    ∙ omega (arith, civil_days-nth_date n (omega arith))

-- `days_from_civil` numbers the days from 1 January 1970 on, leap years included: the n-th date
-- after it has the number n, for n up to five million, which is past the year 9999.
pub days_from_civil-nth_date :
    (n : ℕ)
    → n ≤ 5_000_000
    → days_from_civil (pos (nth_date n).year) (nth_date n).month (nth_date n).day ≡ pos n
days_from_civil-nth_date n h =
    days_of-civil_days (nth_date n) (nth_date-IsDate n h)
    ∙ eq_of_parts _ (pos n) (
        omega (
          arith,
          -ℤ_parts (pos (civil_days (nth_date n).year (nth_date n).month (nth_date n).day))
              (pos epoch_offset),
          civil_days-nth_date n h,
        ))

civil_days-year :
    (t : Date)
    → IsDate t
    → civil_days t.year t.month t.day ≤ epoch_offset + 2_932_896
    → t.year < 10_000
civil_days-year t v h = ground (arith, v.january, v.december, v.first, v.last, h)

-- The year 9999 ends with day 2,932,896.
pub year-nth_date_small : (n : ℕ) → n ≤ 2_932_896 → (nth_date n).year < 10_000
year-nth_date_small n h =
    civil_days-year (nth_date n) (nth_date-IsDate n (omega arith))
      (omega (arith, civil_days-nth_date n (omega arith)))
