-- ===== src/Feed/Time/Fields.antt =====
-- include/feed/coinbase.hpp: the fields of an RFC 3339 text, as parse_rfc3339_ns reads them.
use jisa.Prelude.{
  ℕ, ◌+◌, ◌-◌, ◌*◌, ◌/◌, ◌%◌, ◌≤◌, ◌<◌, ◌≡◌, refl, ap, Bool, true, ◌||◌, some, List, ◌∷◌, arith,
  le→leb_false, le→ltb-false, ◌==◌, length,
}
use jisa.Feed.Time.{is_digit, at, read_digits, read_uint, read_field, date_ok}
use jisa.Feed.Time.Calendar.{Date, IsDate, month_length}

-- The last decimal digit of a number.
abbrev pub digit : ℕ → ℕ
digit n = 48 + n % 10

pub is_digit-digit : (n : ℕ) → is_digit (digit n) ≡ true
is_digit-digit n = ground arith

pub first_digit : (q : ℕ) → q < 10 → 0 + (digit q - 48) ≡ q
first_digit q small = omega (arith, small)

pub next_digit : {acc p : ℕ} (q : ℕ) → acc ≡ p → p ≡ q / 10 → acc * 10 + (digit q - 48) ≡ q
next_digit q e d = omega (arith, e, d)

-- A time of day.
pub record Clock : Type 0 where
  pub hour : ℕ
  pub minute : ℕ
  pub second : ℕ
  pub nanosecond : ℕ

pub record IsClock (c : Clock) : Type 0 where
  pub hour : c.hour < 24
  pub minute : c.minute < 60
  pub second : c.second < 60
  pub nanosecond : c.nanosecond < 1_000_000_000

-- `YYYY-MM-DDThh:mm:ss`, and what follows it
unfoldable pub dated : Date → Clock → List ℕ → List ℕ
dated t c rest =
    digit (t.year / 1000)
    ∷ digit (t.year / 100)
    ∷ digit (t.year / 10)
    ∷ digit t.year
    ∷ b'-'
    ∷ digit (t.month / 10)
    ∷ digit t.month
    ∷ b'-'
    ∷ digit (t.day / 10)
    ∷ digit t.day
    ∷ b'T'
    ∷ digit (c.hour / 10)
    ∷ digit c.hour
    ∷ b':'
    ∷ digit (c.minute / 10)
    ∷ digit c.minute
    ∷ b':'
    ∷ digit (c.second / 10)
    ∷ digit c.second
    ∷ rest

module _ (s : List ℕ) (i : ℕ) where
  read_two :
      (n : ℕ)
      → n < 100
      → at s i ≡ digit (n / 10)
      → at s (i + 1) ≡ digit n
      → i + 2 ≤ length s
      → read_uint s i 2 ≡ some n
  unfolding read_uint read_digits
  read_two n small a b fits = ground (arith, is_digit-digit (n / 10), is_digit-digit n)

module _ (t : Date) (c : Clock) (rest : List ℕ) where
  read_year : t.year < 10000 → read_uint (dated t c rest) 0 4 ≡ some t.year
  unfolding read_uint read_digits dated
  read_year small =
      rw
        (
          le→ltb-false (length (dated t c rest)) 4 (omega arith),
          is_digit-digit (t.year / 1000),
          is_digit-digit (t.year / 100),
          is_digit-digit (t.year / 10),
          is_digit-digit t.year,
        )
        (ap some (omega (arith, small)))

read_field-read_uint :
    (s : List ℕ) (i count : ℕ) (ends : ℕ → Bool) (v : ℕ)
    → read_uint s i count ≡ some v
    → i + count < length s
    → ends (at s (i + count)) ≡ true
    → read_field s i count ends ≡ some v
unfolding read_field
read_field-read_uint s i count ends v e long ended =
    ground (arith, e, le→leb_false (length s) (i + count) long, ended)

pub month_length-le : (y m : ℕ) → month_length y m ≤ 31
month_length-le y m = ground arith

pub date_ok-IsDate : (t : Date) → IsDate t → date_ok t.month t.day ≡ true
date_ok-IsDate t v =
    ground (arith, v.january, v.december, v.first, v.last, month_length-le t.year t.month)

module _ (t : Date) (c : Clock) (rest : List ℕ) (d : IsDate t) (v : IsClock c) where
  pub year_field : t.year < 10000 → read_field (dated t c rest) 0 4 (λ x. x == b'-') ≡ some t.year
  unfolding dated
  year_field small =
      read_field-read_uint (dated t c rest) 0 4 (λ x. x == b'-') t.year (read_year t c rest small)
        (omega arith) refl

  pub month_field : read_field (dated t c rest) 5 2 (λ x. x == b'-') ≡ some t.month
  unfolding dated
  month_field =
      read_field-read_uint (dated t c rest) 5 2 (λ x. x == b'-') t.month
        (read_two (dated t c rest) 5 t.month (omega (arith, d.december)) refl refl (omega arith))
        (omega arith) refl

  pub day_field :
      read_field (dated t c rest) 8 2 (λ x. x == b'T' || x == b't' || x == b' ') ≡ some t.day
  unfolding dated
  day_field =
      read_field-read_uint (dated t c rest) 8 2 (λ x. x == b'T' || x == b't' || x == b' ') t.day
        (read_two (dated t c rest) 8 t.day (omega (arith, d.last, month_length-le t.year t.month))
          refl refl (omega arith))
        (omega arith) refl

  pub hour_field : read_field (dated t c rest) 11 2 (λ x. x == b':') ≡ some c.hour
  unfolding dated
  hour_field =
      read_field-read_uint (dated t c rest) 11 2 (λ x. x == b':') c.hour
        (read_two (dated t c rest) 11 c.hour (omega (arith, v.hour)) refl refl (omega arith))
        (omega arith) refl

  pub minute_field : read_field (dated t c rest) 14 2 (λ x. x == b':') ≡ some c.minute
  unfolding dated
  minute_field =
      read_field-read_uint (dated t c rest) 14 2 (λ x. x == b':') c.minute
        (read_two (dated t c rest) 14 c.minute (omega (arith, v.minute)) refl refl (omega arith))
        (omega arith) refl

  pub second_field : read_uint (dated t c rest) 17 2 ≡ some c.second
  unfolding dated
  second_field =
      read_two (dated t c rest) 17 c.second (omega (arith, v.second)) refl refl (omega arith)
