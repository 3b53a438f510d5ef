-- ===== src/Daemon/Clock.antt =====
-- src/feed/coinbase_daemon_main.cpp: iso8601_utc. `gmtime_r` is a parameter; what `strftime` and `snprintf`
-- print of its numbers is written out; a year that is an `int` leaves room in the buffer of 40 bytes.
pub mod Parsed
pub mod Bytes
mod Examples
use jisa.Prelude.{
  ℕ, zero, suc, ◌+◌, ◌-◌, ◌/◌, ◌%◌, List, [], ◌∷◌, ◌++◌, ltb, ◌==◌, if◌then◌else◌, length,
  replicate,
}
use jisa.Prelude.Int.{ℤ, pos, negsuc}
use jisa.Feed.Time.{quot_ℤ}

-- The members of `tm` that are printed, the year and the month as they are shown.
pub record Tm : Type 0 where
  pub year : ℤ
  pub month : ℕ
  pub day : ℕ
  pub hour : ℕ
  pub minute : ℕ
  pub second : ℕ

-- Decimal digits, on fuel: 20 are enough for 64 bits.
unfoldable pub decimal : ℕ → ℕ → List ℕ
decimal zero n = []
decimal (suc fuel) n =
    let front = decimal fuel (n / 10) in
    if ltb n 10 then (48 + n % 10) ∷ [] else front ++ ((48 + n % 10) ∷ [])

-- `%0wd` of a number that is not negative
unfoldable pub padded : ℕ → ℕ → List ℕ
unfolding decimal
padded width n = let text = decimal 20 n in replicate (width - length text) b'0' ++ text

-- `%Y`
unfoldable pub year_text : ℤ → List ℕ
unfolding decimal
year_text (pos n) = decimal 20 n
year_text (negsuc n) = b'-' ∷ decimal 20 (suc n)

-- `%03d` of the remainder, which has the sign of the dividend
unfoldable pub millis_text : ℤ → List ℕ
unfolding padded
millis_text (pos n) = padded 3 (n % 1000)
millis_text (negsuc n) = let r = suc n % 1000 in if r == 0 then padded 3 0 else b'-' ∷ padded 2 r

-- `%Y-%m-%dT%H:%M:%S`, and what is appended
unfoldable pub clock_text : Tm → List ℕ → List ℕ
unfolding year_text padded
clock_text tm rest =
    year_text tm.year
    ++ (b'-' ∷ padded 2 tm.month
        ++ (b'-' ∷ padded 2 tm.day
            ++ (b'T' ∷ padded 2 tm.hour
                ++ (b':' ∷ padded 2 tm.minute ++ (b':' ∷ padded 2 tm.second ++ rest)))))

unfoldable pub iso8601_utc : (ℤ → Tm) → ℤ → List ℕ
unfolding clock_text millis_text
iso8601_utc gmtime unix_ms =
    clock_text (gmtime (quot_ℤ unix_ms 1000)) (b'.' ∷ millis_text unix_ms ++ (b'Z' ∷ []))
