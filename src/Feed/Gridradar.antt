-- ===== src/Feed/Gridradar.antt =====
-- include/feed/gridradar.hpp: GridradarHandler. `emit` and `on_gap` are returned as the lists of their
-- calls.
pub mod Samples
pub mod Time
use jisa.Prelude.{
  ℕ, ◌+◌, ◌%◌, ◌^◌, Bool, ◌&&◌, Option, none, some, List, [], ◌∷◌, ◌++◌, if◌then◌else◌, need,
}
use jisa.Prelude.Int.{ℤ, pos, ◌-ℤ◌, ltb_ℤ, leb_ℤ, of_u64, to_u64}
use jisa.Double.{Double}
use jisa.Core.Message.{Message}
use jisa.Feed.Json.{Json, string_at, double_at, array_at}
use jisa.Feed.Gridradar.Time.{parse_rfc3339_ns}

abbrev pub data_key : List ℕ
data_key = b'd' ∷ b'a' ∷ b't' ∷ b'a' ∷ []

abbrev pub ts_key : List ℕ
ts_key = b't' ∷ b's' ∷ []

abbrev pub value_key : List ℕ
value_key = b'v' ∷ b'a' ∷ b'l' ∷ b'u' ∷ b'e' ∷ []

-- `last` is `last_ts_ns_` while `has_last_` is set.
pub record Handler : Type 0 where
  pub stream_id : ℕ
  pub on_gap : Bool
  pub seq : ℕ
  pub last : Option ℤ

-- A call `on_gap(stream_id, from, to)`.
pub record TimeGap : Type 0 where
  pub stream_id : ℕ
  pub from : ℤ
  pub to : ℤ

pub record Response : Type 0 where
  pub state : Handler
  pub emitted : List Message
  pub gaps : List TimeGap

abbrev pub cadence_ns : ℤ
cadence_ns = pos 1000000000

-- `a - b` on `int64_t`. The standard leaves an overflow undefined; on the machine it wraps.
abbrev pub sub_i64 : ℤ → ℤ → ℤ
sub_i64 a b = of_u64 (to_u64 (a -ℤ b))

abbrev pub nothing : Handler → Response
nothing h = record { state = h; emitted = []; gaps = [] }

-- A sample that passed the checks of its fields.
abbrev pub emit_sample : ℤ → Double → List TimeGap → Handler → Response
emit_sample ts_ns value gaps h =
    let seq = (h.seq + 1) % 2 ^ 64 in
    record {
      state = record h { seq = seq; last = some ts_ns };
      emitted = record { stream_id = h.stream_id; ts_ns = ts_ns; value = value; seq = seq } ∷ [];
      gaps = gaps;
    }

abbrev pub take_sample : Option ℤ → ℤ → Double → Handler → Response
take_sample none ts_ns value h = emit_sample ts_ns value [] h
take_sample (some last) ts_ns value h =
    if leb_ℤ ts_ns last
    then nothing h
    else emit_sample ts_ns value
        (if h.on_gap && ltb_ℤ cadence_ns (sub_i64 ts_ns last)
          then record { stream_id = h.stream_id; from = last; to = ts_ns } ∷ []
          else [])
        h

module _ (json : Json) where
  open json use {Elem}

  -- One round of the loop over the samples.
  unfoldable pub sample_step : Elem → Handler → Response
  sample_step sample h = need (string_at json sample ts_key) (nothing h) (λ ts_sv.
      need (double_at json sample value_key) (nothing h) (λ value.
        need (parse_rfc3339_ns ts_sv) (nothing h) (λ ts_ns. take_sample h.last ts_ns value h)))

  unfoldable pub sample_loop : List Elem → Handler → Response
  sample_loop [] h = nothing h
  sample_loop (sample ∷ samples) h =
      let one = sample_step sample h in
      let rest = sample_loop samples one.state in
      record rest { emitted = one.emitted ++ rest.emitted; gaps = one.gaps ++ rest.gaps }

  -- The source returns the number of the emitted samples.
  unfoldable pub parse_response : List ℕ → Handler → Response
  parse_response raw h =
      need (json.parse raw) (nothing h)
        (λ doc. need (array_at json doc data_key) (nothing h) (λ samples. sample_loop samples h))
