-- ===== src/Daemon/Clock/Bytes.antt =====
-- src/feed/coinbase_daemon_main.cpp: which bytes iso8601_utc prints.
use jisa.Prelude.{
  ℕ, zero, suc, ◌-◌, ◌/◌, ◌%◌, ◌<◌, inl, inr, List, [], ◌∷◌, ◌++◌, arith, ltb, ◌==◌, Bool-cases,
  length, replicate, All-append,
}
use jisa.Prelude.Int.{ℤ, pos, negsuc}
use jisa.Prelude.Text.{Lacks}
use jisa.Feed.Time.{quot_ℤ}
use jisa.Daemon.Clock.{Tm, decimal, padded, year_text, millis_text, clock_text, iso8601_utc}

module _ (sep : ℕ) (low : sep < 45) where
  pub decimal-Lacks : (fuel n : ℕ) → Lacks sep (decimal fuel n)
  unfolding decimal
  decimal-Lacks zero n = tt
  decimal-Lacks (suc fuel) n = elim (Bool-cases (ltb n 10)) [
    | inl one ↦ rw one (omega (arith, low), tt)
    | inr more ↦ rw more (
        All-append _ (decimal fuel (n / 10)) _ (decimal-Lacks fuel (n / 10))
          (omega (arith, low), tt))
  ]

  zeros-Lacks : (k : ℕ) → Lacks sep (replicate k b'0')
  zeros-Lacks zero = tt
  zeros-Lacks (suc k) = (omega (arith, low), zeros-Lacks k)

  padded-Lacks : (width n : ℕ) → Lacks sep (padded width n)
  unfolding padded
  padded-Lacks width n =
      All-append _ _ _ (zeros-Lacks (width - length (decimal 20 n))) (decimal-Lacks 20 n)

  pub year_text-Lacks : (y : ℤ) → Lacks sep (year_text y)
  unfolding year_text
  year_text-Lacks (pos n) = decimal-Lacks 20 n
  year_text-Lacks (negsuc n) = (omega (arith, low), decimal-Lacks 20 (suc n))

  millis_text-Lacks : (z : ℤ) → Lacks sep (millis_text z)
  unfolding millis_text
  millis_text-Lacks (pos n) = padded-Lacks 3 (n % 1000)
  millis_text-Lacks (negsuc n) = elim (Bool-cases (suc n % 1000 == 0)) [
    | inl whole ↦ rw whole (padded-Lacks 3 0)
    | inr part ↦ rw part (omega (arith, low), padded-Lacks 2 (suc n % 1000))
  ]

  clock_text-Lacks : (tm : Tm) (rest : List ℕ) → Lacks sep rest → Lacks sep (clock_text tm rest)
  unfolding clock_text
  clock_text-Lacks tm rest v = All-append _ _ _ (year_text-Lacks tm.year) (
    omega (arith, low),
    All-append _ _ _ (padded-Lacks 2 tm.month) (
      omega (arith, low),
      All-append _ _ _ (padded-Lacks 2 tm.day) (
        omega (arith, low),
        All-append _ _ _ (padded-Lacks 2 tm.hour) (
          omega (arith, low),
          All-append _ _ _ (padded-Lacks 2 tm.minute)
              (omega (arith, low), All-append _ _ _ (padded-Lacks 2 tm.second) v),
        ),
      ),
    ),
  )

  pub iso8601_utc-Lacks : (gmtime : ℤ → Tm) (z : ℤ) → Lacks sep (iso8601_utc gmtime z)
  unfolding iso8601_utc
  iso8601_utc-Lacks gmtime z =
      clock_text-Lacks (gmtime (quot_ℤ z 1000)) (b'.' ∷ millis_text z ++ (b'Z' ∷ []))
        (omega (arith, low), All-append _ _ _ (millis_text-Lacks z) (omega (arith, low), tt))
