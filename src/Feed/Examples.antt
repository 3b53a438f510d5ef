-- ===== src/Feed/Examples.antt =====
-- include/feed: tests, and the theorems at concrete inputs.
use jisa.Prelude.{
  ℕ, ◌+◌, ◌-◌, ◌*◌, ◌/◌, ◌%◌, ◌^◌, ◌<◌, ◌≡◌, refl, ◌⊎◌, true, some, List, [], ◌∷◌, arith, length,
}
use jisa.Prelude.Int.{pos, pos_part, ◌+ℤ◌, ◌-ℤ◌, ◌*ℤ◌, ℤ, IsInt64}
use jisa.Prelude.Dict.{Dict, nat_key, bytes_key, find}
use jisa.Double.{Arith, zero_d, one_d}
use jisa.Feed.Json.{Json}
use jisa.Feed.Time.{days_from_civil, parse_rfc3339_ns}
use jisa.Feed.Time.Calendar.{nth_date}
use jisa.Feed.Handler.{Handler, empty_message}
use jisa.Feed.Handler.Gaps.{account, account-find}
use jisa.Feed.Coinbase.{parse, type_key, product_key, price_key, time_key, trade_key, ticker_type}
use jisa.Feed.Coinbase.Routing.{Filled, parse-Filled}
use jisa.Feed.Gridradar
use jisa.Feed.Gridradar.Samples.{Answered, Near, parse_response-Answered}
use jisa.Feed.Adsb
use jisa.Feed.Adsb.{AdsbMetric, alt_baro, StreamState}
use jisa.Feed.Adsb.Registry.{IsRegistry, Grown, parse_response-Grown}
use jisa.Feed.Time.Fields.{Clock}
use jisa.Feed.Time.Fractions.{stamp}
use jisa.Feed.Time.Stamps.{instant, parse_rfc3339_ns-stamp, parse_rfc3339_ns-IsInt64}
use jisa.Feed.Gridradar.Time as GridTime
use jisa.Feed.Gridradar.Time.Same.{parse_rfc3339_ns-same}

leap_day_2000 : days_from_civil (pos 2000) 2 29 ≡ pos 11016
unfolding days_from_civil ◌-ℤ◌ ◌+ℤ◌ ◌*ℤ◌
leap_day_2000 = refl

abbrev seen_five : Handler
seen_five = record { last_seq = (7, 5) ∷ []; on_gap = true }

abbrev arrivals : List (ℕ × ℕ)
arrivals = (7, 8) ∷ (9, 1) ∷ (7, 8) ∷ (7, 9) ∷ []

account-find_example :
    find 7 (account 7 arrivals seen_five).0.last_seq ≡ some (5 + (account 7 arrivals seen_five).1)
unfolding find
account-find_example = account-find 7 arrivals seen_five 5 refl refl

abbrev btc : List ℕ
btc = b'B' ∷ b'T' ∷ b'C' ∷ []

abbrev new_year : List ℕ
new_year =
    b'1' ∷ b'9' ∷ b'7' ∷ b'0' ∷ b'-' ∷ b'0' ∷ b'1' ∷ b'-' ∷ b'0' ∷ b'1' ∷ b'T' ∷ b'0' ∷ b'0' ∷ b':'
    ∷ b'0' ∷ b'0' ∷ b':' ∷ b'0' ∷ b'2' ∷ b'Z' ∷ []

-- A DOM whose elements are texts: every object has the same fields, and a text is a number by its
-- length.
abbrev texts : Dict (List ℕ) (List ℕ) → Json
texts fields = record {
  Elem = List ℕ;
  parse = λ raw. some raw;
  field = λ e name. find name fields;
  get_string = λ e. some e;
  get_double = λ e. some zero_d;
  get_int64 = λ e. some (pos (length e));
  get_uint64 = λ e. some (length e);
  get_array = λ e. some (e ∷ e ∷ []);
}

abbrev ticker_fields : Dict (List ℕ) (List ℕ)
ticker_fields =
    (type_key, ticker_type)
    ∷ (product_key, btc)
    ∷ (price_key, b'7' ∷ [])
    ∷ (time_key, new_year)
    ∷ (trade_key, b'a' ∷ b'b' ∷ [])
    ∷ []

parse-Filled_example :
    Filled
      ((btc, 4) ∷ [])
      empty_message
      (parse (texts ticker_fields) (λ s. (one_d, length s - 1)) ((btc, 4) ∷ []) [] empty_message)
parse-Filled_example =
    parse-Filled (texts ticker_fields) (λ s. (one_d, length s - 1)) ((btc, 4) ∷ []) empty_message []

abbrev sample_fields : Dict (List ℕ) (List ℕ)
sample_fields =
    (Gridradar.data_key, []) ∷ (Gridradar.ts_key, new_year) ∷ (Gridradar.value_key, []) ∷ []

abbrev grid : Gridradar.Handler
grid = record { stream_id = 3; on_gap = true; seq = 0; last = some (pos 0) }

sample-Near : Near grid.last (Gridradar.parse_response (texts sample_fields) [] grid).emitted
unfolding Gridradar.parse_response find Gridradar.sample_loop Gridradar.sample_step
    GridTime.parse_rfc3339_ns GridTime.days_from_civil GridTime.fraction_at ◌+ℤ◌ ◌-ℤ◌ ◌*ℤ◌
sample-Near = (omega arith, tt)

parse_response-Answered_example :
    Answered grid (Gridradar.parse_response (texts sample_fields) [] grid)
parse_response-Answered_example = parse_response-Answered (texts sample_fields) [] grid sample-Near

abbrev arith_toy : Arith
arith_toy = record {
  add = λ a b. (a + b) % 2 ^ 64;
  sub = λ a b. a - b;
  mul = λ a b. a * b % 2 ^ 64;
  div = λ a b. a / b;
  sqrt = λ a. a;
  ceil = λ a. a;
  of_int = λ z. pos_part z;
  to_int = λ a. pos a;
}

abbrev aircraft_fields : Dict (List ℕ) (List ℕ)
aircraft_fields =
    (Adsb.now_key, btc)
    ∷ (Adsb.ac_key, [])
    ∷ (Adsb.hex_key, btc)
    ∷ (Adsb.lat_key, [])
    ∷ (Adsb.lon_key, [])
    ∷ (Adsb.seen_key, [])
    ∷ (Adsb.alt_baro_key, Adsb.ground)
    ∷ []

abbrev sky : Adsb.Handler
sky = record { base_stream_id = 100; max_streams = 1; metric = alt_baro; streams = [] }

sky-IsRegistry : IsRegistry 100 1 sky
sky-IsRegistry = record { based = refl; capped = refl; room = omega arith; numbered = tt }

parse_response-Grown_example :
    Grown 100 1 sky (Adsb.parse_response arith_toy (texts aircraft_fields) [] sky).0
parse_response-Grown_example =
    parse_response-Grown 100 1 arith_toy (texts aircraft_fields) [] sky sky-IsRegistry

abbrev clock : Clock
clock = record { hour = 12; minute = 34; second = 56; nanosecond = 789_000_000 }

parse_rfc3339_ns-stamp_example :
    (parse_rfc3339_ns (stamp (nth_date 59) clock) ≡ some (pos (instant 59 clock)))
    × IsInt64 (pos (instant 59 clock))
parse_rfc3339_ns-stamp_example = parse_rfc3339_ns-stamp 59 clock (omega arith) (omega arith)

parse_rfc3339_ns-IsInt64_example :
    (ns : ℤ) × (parse_rfc3339_ns (stamp (nth_date 106_752) clock) ≡ some ns)
    × (((106_752 < 106_751) × IsInt64 ns) ⊎ ((106_751 < 106_752) × (¬ IsInt64 ns)))
parse_rfc3339_ns-IsInt64_example =
    parse_rfc3339_ns-IsInt64 106_752 clock (omega arith) (omega arith) (omega arith)

parse_rfc3339_ns-same_example :
    GridTime.parse_rfc3339_ns (stamp (nth_date 59) clock)
    ≡ parse_rfc3339_ns (stamp (nth_date 59) clock)
parse_rfc3339_ns-same_example = parse_rfc3339_ns-same (stamp (nth_date 59) clock)
