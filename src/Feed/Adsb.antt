-- ===== src/Feed/Adsb.antt =====
-- include/feed/adsb.hpp: AdsbHandler. `emit` is returned as the list of its calls, and the multiplication
-- by 1e9 and the conversions of doubles are parameters. The registry is a dictionary by hex code.
pub mod Registry
use jisa.Prelude.{
  ℕ, ◌+◌, ◌%◌, ◌^◌, Option, none, some, List, [], ◌∷◌, leb, if◌then◌else◌, length, need,
}
use jisa.Prelude.Int.{ℤ, pos, ◌-ℤ◌, ◌*ℤ◌, leb_ℤ, of_u64}
use jisa.Prelude.Dict.{Dict, nat_key, bytes_key, find, put}
use jisa.Double.{Double, Arith, zero_d, billion_d}
use jisa.Core.Message.{Message}
use jisa.Feed.Json.{Json, string_at, array_at}

abbrev pub now_key : List ℕ
now_key = b'n' ∷ b'o' ∷ b'w' ∷ []

abbrev pub ac_key : List ℕ
ac_key = b'a' ∷ b'c' ∷ []

abbrev pub hex_key : List ℕ
hex_key = b'h' ∷ b'e' ∷ b'x' ∷ []

abbrev pub lat_key : List ℕ
lat_key = b'l' ∷ b'a' ∷ b't' ∷ []

abbrev pub lon_key : List ℕ
lon_key = b'l' ∷ b'o' ∷ b'n' ∷ []

abbrev pub seen_key : List ℕ
seen_key = b's' ∷ b'e' ∷ b'e' ∷ b'n' ∷ []

abbrev pub gs_key : List ℕ
gs_key = b'g' ∷ b's' ∷ []

abbrev pub alt_baro_key : List ℕ
alt_baro_key = b'a' ∷ b'l' ∷ b't' ∷ b'_' ∷ b'b' ∷ b'a' ∷ b'r' ∷ b'o' ∷ []

abbrev pub ground : List ℕ
ground = b'g' ∷ b'r' ∷ b'o' ∷ b'u' ∷ b'n' ∷ b'd' ∷ []

pub data AdsbMetric : Type 0 where
  alt_baro ground_speed : AdsbMetric

pub record StreamState : Type 0 where
  pub stream_id : ℕ
  pub last_ts_ns : ℤ
  pub seq : ℕ

pub record Handler : Type 0 where
  pub base_stream_id : ℕ
  pub max_streams : ℕ
  pub metric : AdsbMetric
  pub streams : Dict (List ℕ) StreamState

-- `++st.seq` and the message that is emitted.
abbrev pub emit_state : List ℕ → StreamState → Double → Handler → Handler × Option Message
emit_state hex st value h =
    let st' = record st { seq = (st.seq + 1) % 2 ^ 64 } in
    (
      record h { streams = put hex st' h.streams },
      some (record {
        stream_id = st'.stream_id;
        ts_ns = st'.last_ts_ns;
        value = value;
        seq = st'.seq;
      }),
    )

abbrev pub fresh_state : ℤ → Handler → StreamState
fresh_state ts_ns h = record {
  stream_id = (h.base_stream_id + length h.streams) % 2 ^ 32;
  last_ts_ns = ts_ns;
  seq = 0;
}

-- The second half of `accept`: what the registry's entry, if there is one, decides.
abbrev pub register_found :
    Option StreamState → List ℕ → ℤ → Double → Handler → Handler × Option Message
register_found none hex ts_ns value h =
    if leb h.max_streams (length h.streams)
    then (h, none)
    else emit_state hex (fresh_state ts_ns h) value h
register_found (some st) hex ts_ns value h =
    if leb_ℤ ts_ns st.last_ts_ns
    then (h, none)
    else emit_state hex (record st { last_ts_ns = ts_ns }) value h

unfoldable pub register : List ℕ → ℤ → Double → Handler → Handler × Option Message
register hex ts_ns value h = register_found (find hex h.streams) hex ts_ns value h

module _ (fp : Arith) (json : Json) where
  open json use {Elem, field, get_string, get_double, get_int64, get_uint64}
  open fp use {mul, of_int, to_int}

  unfoldable pub read_number : Elem → Option Double
  read_number e = elim (get_double e) [
    | some d ↦ some d
    | none ↦ elim (get_int64 e) [
      | some i ↦ some (of_int i)
      | none ↦ elim (get_uint64 e) [ some u ↦ some (of_int (pos u)) | none ↦ none ]
    ]
  ]

  -- The overload for the result of a field's lookup.
  unfoldable pub read_number_at : Elem → List ℕ → Option Double
  read_number_at e name = need (field e name) none read_number

  -- A `uint64_t` is converted to `int64_t` modulo 2 ^ 64.
  unfoldable pub read_int64_at : Elem → List ℕ → Option ℤ
  read_int64_at e name = need (field e name) none (λ v. elim (get_int64 v) [
    | some i ↦ some i
    | none ↦ elim (get_uint64 v) [ some u ↦ some (of_u64 u) | none ↦ none ]
  ])

  abbrev alt_value : Elem → Option Double
  alt_value alt = elim (get_string alt) [
    | some s ↦ if bytes_key.same s ground then some zero_d else none
    | none ↦ read_number alt
  ]

  unfoldable pub read_value : AdsbMetric → Elem → Option Double
  read_value ground_speed aircraft = read_number_at aircraft gs_key
  read_value alt_baro aircraft = need (field aircraft alt_baro_key) none alt_value

  unfoldable pub accept : Elem → ℤ → Handler → Handler × Option Message
  unfolding register
  accept aircraft now_ms h =
      need (string_at json aircraft hex_key) (h, none)
        (λ hex.
          need (read_number_at aircraft lat_key) (h, none)
            (λ lat.
              need (read_number_at aircraft lon_key) (h, none)
                (λ lon.
                  need (read_number_at aircraft seen_key) (h, none)
                    (λ seen.
                      need (read_value h.metric aircraft) (h, none)
                        (λ value.
                          register hex (now_ms *ℤ pos 1000000 -ℤ to_int (mul seen billion_d)) value
                            h)))))

  abbrev pub and_emit : Option Message → List Message → List Message
  and_emit none ms = ms
  and_emit (some m) ms = m ∷ ms

  unfoldable pub accept_loop : List Elem → ℤ → Handler → Handler × List Message
  accept_loop [] now_ms h = (h, [])
  accept_loop (aircraft ∷ rest) now_ms h =
      let (h', m) = accept aircraft now_ms h in
      let (h'', ms) = accept_loop rest now_ms h' in (h'', and_emit m ms)

  -- The source returns the number of the emitted samples.
  unfoldable pub parse_response : List ℕ → Handler → Handler × List Message
  parse_response raw h =
      need (json.parse raw) (h, [])
        (λ doc.
          need (read_int64_at doc now_key) (h, [])
            (λ now_ms. need (array_at json doc ac_key) (h, []) (λ ac. accept_loop ac now_ms h)))
