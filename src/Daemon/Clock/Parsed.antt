-- ===== src/Daemon/Clock/Parsed.antt =====
-- src/feed/coinbase_daemon_main.cpp and include/feed/coinbase.hpp: what iso8601_utc prints, a feed reads.
use jisa.Prelude.{
  ℕ, zero, suc, ◌+◌, ◌-◌, ◌*◌, ◌/◌, ◌%◌, ◌≤◌, ◌<◌, ◌≡◌, refl, ap, ◌∙◌, some, List, [], ◌∷◌, ◌++◌,
  arith, lt→ltb, le→ltb-false, length, replicate,
}
use jisa.Prelude.Int.{ℤ, pos, IsInt64}
use native.Mathlib.Decide.{dec_lt}
use mathlib.Core.Path.{ap₂}
use jisa.Feed.Time.{parse_rfc3339_ns, quot_ℤ}
use jisa.Feed.Time.Calendar.{
  Date, IsDate, nth_date, nth_date-IsDate, next_date, year-nth_date_small,
}
use jisa.Feed.Time.Fields.{digit, Clock, IsClock, dated, month_length-le}
use jisa.Feed.Time.Fractions.{milli_stamp}
use jisa.Feed.Time.Stamps.{instant, parse_rfc3339_ns-milli_stamp}
use jisa.Daemon.Clock.{Tm, decimal, padded, year_text, millis_text, clock_text, iso8601_utc}

-- `gmtime_r` gives the date and the time of day, from 1970 on.
pub record IsUtc (gmtime : ℤ → Tm) : Type 0 where
  pub shows :
      (n : ℕ) (c : Clock)
      → IsClock c
      → gmtime (pos (n * 86400 + c.hour * 3600 + c.minute * 60 + c.second)) ≡ record {
        year = pos (nth_date n).year;
        month = (nth_date n).month;
        day = (nth_date n).day;
        hour = c.hour;
        minute = c.minute;
        second = c.second;
      }

decimal_last : (fuel n : ℕ) → n < 10 → decimal (suc fuel) n ≡ digit n ∷ []
unfolding decimal
decimal_last fuel n small = rw (lt→ltb n 10 small) refl

decimal_more :
    (fuel n : ℕ) → 10 ≤ n → decimal (suc fuel) n ≡ decimal fuel (n / 10) ++ (digit n ∷ [])
unfolding decimal
decimal_more fuel n large = rw (le→ltb-false n 10 large) refl

decimal_two :
    (fuel n : ℕ) → 10 ≤ n → n < 100 → decimal (suc (suc fuel)) n ≡ digit (n / 10) ∷ digit n ∷ []
decimal_two fuel n large small =
    decimal_more (suc fuel) n large
    ∙ ap (λ l. l ++ (digit n ∷ [])) (decimal_last fuel (n / 10) (omega (arith, small)))

decimal_three :
    (fuel n : ℕ)
    → 100 ≤ n
    → n < 1000
    → decimal (suc (suc (suc fuel))) n ≡ digit (n / 100) ∷ digit (n / 10) ∷ digit n ∷ []
decimal_three fuel n large small =
    decimal_more (suc (suc fuel)) n (omega (arith, large))
    ∙ ap (λ l. l ++ (digit n ∷ []))
        (decimal_two fuel (n / 10) (omega (arith, large)) (omega (arith, small))
          ∙ ap (λ q. digit q ∷ digit (n / 10) ∷ []) {x = n / 10 / 10} {y = n / 100} (omega arith))

-- A text of a number, made as wide as asked.
abbrev widen : ℕ → List ℕ → List ℕ
widen width text = replicate (width - length text) b'0' ++ text

padded-decimal :
    (width n : ℕ) (text : List ℕ) → decimal 20 n ≡ text → padded width n ≡ widen width text
unfolding padded
padded-decimal width n text e = ap (widen width) e

leading_zero : (q : ℕ) → q < 10 → 48 ≡ digit (q / 10)
leading_zero q small = omega (arith, small)

no_hundreds : (q : ℕ) → q < 100 → 48 ≡ digit (q / 100)
no_hundreds q small = omega (arith, small)

hundreds : (q : ℕ) → q / 10 / 10 ≡ q / 100
hundreds q = omega arith

thousands : (q : ℕ) → q / 10 / 100 ≡ q / 1000
thousands q = omega arith

padded_two : (n : ℕ) → n < 100 → padded 2 n ≡ digit (n / 10) ∷ digit n ∷ []
padded_two n small = elim (dec_lt n 10) [
  | yes one ↦
      padded-decimal 2 n _ (decimal_last 19 n one) ∙ ap (λ q. q ∷ digit n ∷ []) (leading_zero n one)
  | no two ↦ padded-decimal 2 n _ (decimal_two 18 n (omega (arith, two)) small)
]

padded_three : (n : ℕ) → n < 1000 → padded 3 n ≡ digit (n / 100) ∷ digit (n / 10) ∷ digit n ∷ []
padded_three n small = elim (dec_lt n 100) [
  | yes short ↦ elim (dec_lt n 10) [
    | yes one ↦
        padded-decimal 3 n _ (decimal_last 19 n one)
        ∙ ap₂ (λ p q. p ∷ q ∷ digit n ∷ []) (no_hundreds n (omega (arith, one)))
            (leading_zero n one)
    | no two ↦
        padded-decimal 3 n _ (decimal_two 18 n (omega (arith, two)) short)
        ∙ ap (λ q. q ∷ digit (n / 10) ∷ digit n ∷ []) (no_hundreds n short)
  ]
  | no three ↦ padded-decimal 3 n _ (decimal_three 17 n (omega (arith, three)) small)
]

year_text_four :
    (y : ℕ)
    → 1000 ≤ y
    → y < 10000
    → year_text (pos y) ≡ digit (y / 1000) ∷ digit (y / 100) ∷ digit (y / 10) ∷ digit y ∷ []
unfolding year_text
year_text_four y large small =
    decimal_more 19 y (omega (arith, large))
    ∙ ap (λ l. l ++ (digit y ∷ []))
        (decimal_three 16 (y / 10) (omega (arith, large)) (omega (arith, small))
          ∙ ap₂ (λ p q. digit p ∷ digit q ∷ digit (y / 10) ∷ []) (thousands y) (hundreds y))

year-nth_date_large : (n : ℕ) → 1970 ≤ (nth_date n).year
unfolding nth_date next_date
year-nth_date_large zero = omega arith
year-nth_date_large (suc n) = ground (arith, year-nth_date_large n)

-- The time of day of a count of milliseconds.
abbrev pub clock_of : ℕ → Clock
clock_of ms = record {
  hour = ms / 3_600_000 % 24;
  minute = ms / 60_000 % 60;
  second = ms / 1000 % 60;
  nanosecond = ms % 1000 * 1_000_000;
}

clock_of-IsClock : (ms : ℕ) → IsClock (clock_of ms)
clock_of-IsClock ms = omega arith

seconds_of :
    (ms : ℕ)
    → ms / 1000
      ≡ ms / 86_400_000 * 86400
        + ms / 3_600_000 % 24 * 3600
        + ms / 60_000 % 60 * 60
        + ms / 1000 % 60
seconds_of ms = omega arith

instant-clock_of : (ms : ℕ) → instant (ms / 86_400_000) (clock_of ms) ≡ ms * 1_000_000
instant-clock_of ms = omega (arith, seconds_of ms)

-- What `gmtime_r` gives for a date and a time of day.
abbrev tm_of : Date → Clock → Tm
tm_of t c = record {
  year = pos t.year;
  month = t.month;
  day = t.day;
  hour = c.hour;
  minute = c.minute;
  second = c.second;
}

clock_text-dated :
    (t : Date) (c : Clock) (rest : List ℕ)
    → IsDate t
    → IsClock c
    → 1000 ≤ t.year
    → t.year < 10000
    → clock_text (tm_of t c) rest ≡ dated t c rest
unfolding clock_text dated
clock_text-dated t c rest d v large small =
    rw
      (
        year_text_four t.year large small,
        padded_two t.month (omega (arith, d.december)),
        padded_two t.day (omega (arith, d.last, month_length-le t.year t.month)),
        padded_two c.hour (omega (arith, v.hour)),
        padded_two c.minute (omega (arith, v.minute)),
        padded_two c.second (omega (arith, v.second)),
      )
      refl

millis_text_three :
    (ms : ℕ)
    → millis_text (pos ms)
      ≡ digit (ms % 1000 / 100) ∷ digit (ms % 1000 / 10) ∷ digit (ms % 1000) ∷ []
unfolding millis_text
millis_text_three ms = padded_three (ms % 1000) (omega arith)

gmtime-tm_of :
    (gmtime : ℤ → Tm) (ms : ℕ)
    → IsUtc gmtime
    → gmtime (quot_ℤ (pos ms) 1000) ≡ tm_of (nth_date (ms / 86_400_000)) (clock_of ms)
gmtime-tm_of gmtime ms utc =
    ap (λ n. gmtime (pos n)) (seconds_of ms)
    ∙ utc.shows (ms / 86_400_000) (clock_of ms) (clock_of-IsClock ms)

iso8601_utc-milli_stamp :
    (gmtime : ℤ → Tm) (ms : ℕ)
    → IsUtc gmtime
    → ms / 86_400_000 ≤ 2_932_896
    → iso8601_utc gmtime (pos ms)
      ≡ milli_stamp (nth_date (ms / 86_400_000)) (clock_of ms) (ms % 1000)
unfolding iso8601_utc milli_stamp
iso8601_utc-milli_stamp gmtime ms utc in_range =
    ap₂ (λ tm text. clock_text tm (b'.' ∷ text ++ (b'Z' ∷ []))) (gmtime-tm_of gmtime ms utc)
      (millis_text_three ms)
    ∙ clock_text-dated (nth_date (ms / 86_400_000)) (clock_of ms) _
        (nth_date-IsDate (ms / 86_400_000) (omega arith)) (clock_of-IsClock ms)
        (omega (arith, year-nth_date_large (ms / 86_400_000)))
        (year-nth_date_small (ms / 86_400_000) in_range)

-- With a `gmtime_r` that gives the date and the time of day: a time from 1970 to before 11 April 2262, in
-- milliseconds, that iso8601_utc prints is read by the feeds' timestamp parser as the same time in
-- nanoseconds; and these fit `int64_t`.
pub parse_rfc3339_ns-iso8601_utc :
    (gmtime : ℤ → Tm) (ms : ℕ)
    → IsUtc gmtime
    → ms / 86_400_000 < 106_751
    → (parse_rfc3339_ns (iso8601_utc gmtime (pos ms)) ≡ some (pos (ms * 1_000_000)))
      × IsInt64 (pos (ms * 1_000_000))
parse_rfc3339_ns-iso8601_utc gmtime ms utc before = (
  ap parse_rfc3339_ns (iso8601_utc-milli_stamp gmtime ms utc (omega (arith, before)))
      ∙ parse_rfc3339_ns-milli_stamp (ms / 86_400_000) (clock_of ms) (ms % 1000) before
          (clock_of-IsClock ms) refl
      ∙ ap (λ t. some (pos t)) (instant-clock_of ms),
  omega (arith, before),
)
