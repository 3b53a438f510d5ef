-- ===== src/Daemon/Clock/Examples.antt =====
-- src/feed/coinbase_daemon_main.cpp: a time that iso8601_utc prints.
use jisa.Prelude.{ℕ, ◌+◌, ◌*◌, ◌/◌, ◌%◌, ◌<◌, ◌≡◌, refl, some, arith}
use jisa.Prelude.Int.{ℤ, pos, pos_part, IsInt64}
use jisa.Feed.Time.{parse_rfc3339_ns}
use jisa.Feed.Time.Calendar.{nth_date}
use jisa.Daemon.Clock.{Tm, iso8601_utc}
use jisa.Daemon.Clock.Parsed.{IsUtc, parse_rfc3339_ns-iso8601_utc}

-- The date and the time of day of a count of seconds.
abbrev gmtime_r : ℤ → Tm
gmtime_r z =
    let s = pos_part z in
    record {
      year = pos (nth_date (s / 86400)).year;
      month = (nth_date (s / 86400)).month;
      day = (nth_date (s / 86400)).day;
      hour = s / 3600 % 24;
      minute = s / 60 % 60;
      second = s % 60;
    }

clock_parts :
    (n h m s : ℕ)
    → h < 24
    → m < 60
    → s < 60
    → ((n * 86400 + h * 3600 + m * 60 + s) / 86400 ≡ n)
      × ((n * 86400 + h * 3600 + m * 60 + s) / 3600 % 24 ≡ h)
      × ((n * 86400 + h * 3600 + m * 60 + s) / 60 % 60 ≡ m)
      × ((n * 86400 + h * 3600 + m * 60 + s) % 60 ≡ s)
clock_parts n h m s hs ms ss = omega (arith, hs, ms, ss)

gmtime_r-IsUtc : IsUtc gmtime_r
gmtime_r-IsUtc = record {
  shows = λ n c v.
      let (a, b, d, e) = clock_parts n c.hour c.minute c.second v.hour v.minute v.second in
      rw (a, b, d, e) refl;
}

parse_rfc3339_ns-iso8601_utc_example :
    (parse_rfc3339_ns (iso8601_utc gmtime_r (pos 3_723_004)) ≡ some (pos 3_723_004_000_000))
    × IsInt64 (pos 3_723_004_000_000)
parse_rfc3339_ns-iso8601_utc_example =
    parse_rfc3339_ns-iso8601_utc gmtime_r 3_723_004 gmtime_r-IsUtc (omega arith)
