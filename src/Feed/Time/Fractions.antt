-- ===== src/Feed/Time/Fractions.antt =====
-- include/feed/coinbase.hpp: fractions of a second, in nine digits and in three.
use jisa.Prelude.{ℕ, ◌*◌, ◌/◌, ◌<◌, ◌≡◌, List, [], ◌∷◌, arith}
use jisa.Feed.Time.{read_fraction, scale_fraction, fraction_ns}
use jisa.Feed.Time.Calendar.{Date}
use jisa.Feed.Time.Fields.{digit, is_digit-digit, first_digit, next_digit, Clock, dated}

-- A text with nanoseconds: `YYYY-MM-DDThh:mm:ss.nnnnnnnnnZ`
unfoldable pub stamp : Date → Clock → List ℕ
stamp t c = dated t c (
    b'.'
    ∷ digit (c.nanosecond / 100000000)
    ∷ digit (c.nanosecond / 10000000)
    ∷ digit (c.nanosecond / 1000000)
    ∷ digit (c.nanosecond / 100000)
    ∷ digit (c.nanosecond / 10000)
    ∷ digit (c.nanosecond / 1000)
    ∷ digit (c.nanosecond / 100)
    ∷ digit (c.nanosecond / 10)
    ∷ digit c.nanosecond
    ∷ b'Z'
    ∷ [])

-- A text with milliseconds: `YYYY-MM-DDThh:mm:ss.nnnZ`
unfoldable pub milli_stamp : Date → Clock → ℕ → List ℕ
milli_stamp t c ms = dated t c (b'.' ∷ digit (ms / 100) ∷ digit (ms / 10) ∷ digit ms ∷ b'Z' ∷ [])

module _ (t : Date) (c : Clock) where
  pub fraction_ns-stamp : c.nanosecond < 1_000_000_000 → fraction_ns (stamp t c) 19 ≡ c.nanosecond
  unfolding fraction_ns read_fraction scale_fraction stamp dated
  fraction_ns-stamp small =
      rw
        (
          is_digit-digit (c.nanosecond / 100000000),
          is_digit-digit (c.nanosecond / 10000000),
          is_digit-digit (c.nanosecond / 1000000),
          is_digit-digit (c.nanosecond / 100000),
          is_digit-digit (c.nanosecond / 10000),
          is_digit-digit (c.nanosecond / 1000),
          is_digit-digit (c.nanosecond / 100),
          is_digit-digit (c.nanosecond / 10),
          is_digit-digit c.nanosecond,
        )
        (next_digit c.nanosecond
          (next_digit (c.nanosecond / 10)
            (next_digit (c.nanosecond / 100)
              (next_digit (c.nanosecond / 1000)
                (next_digit (c.nanosecond / 10000)
                  (next_digit (c.nanosecond / 100000)
                    (next_digit (c.nanosecond / 1000000)
                      (next_digit (c.nanosecond / 10000000)
                        (first_digit (c.nanosecond / 100000000) (omega (arith, small)))
                        (omega arith))
                      (omega arith))
                    (omega arith))
                  (omega arith))
                (omega arith))
              (omega arith))
            (omega arith))
          (omega arith))

  pub fraction_ns-milli_stamp :
      (ms : ℕ) → ms < 1000 → fraction_ns (milli_stamp t c ms) 19 ≡ ms * 1_000_000
  unfolding fraction_ns read_fraction scale_fraction milli_stamp dated
  fraction_ns-milli_stamp ms small =
      rw (is_digit-digit (ms / 100), is_digit-digit (ms / 10), is_digit-digit ms)
        (omega (arith, small))
