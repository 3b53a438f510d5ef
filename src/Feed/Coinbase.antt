-- ===== src/Feed/Coinbase.antt =====
-- include/feed/coinbase.hpp: CoinbaseTickerHandler. Its `parse` fills `out`, the message that the
-- caller hands in; `strtod` reads a text up to its first zero byte and gives a value and the number of
-- bytes it used.
pub mod Routing
use jisa.Prelude.{
  ℕ, ◌||◌, Option, none, some, List, [], ◌∷◌, ◌++◌, leb, ◌==◌, if◌then◌else◌, length, need,
}
use jisa.Prelude.Dict.{Dict, nat_key, bytes_key, find}
use jisa.Double.{Double}
use jisa.Core.Message.{Message}
use jisa.Feed.Json.{Json, string_at, uint64_at}
use jisa.Feed.Time.{parse_rfc3339_ns}
use jisa.Feed.Handler.{ParseResult, ok, heartbeat, skipped, malformed}

abbrev pub type_key : List ℕ
type_key = b't' ∷ b'y' ∷ b'p' ∷ b'e' ∷ []

abbrev pub product_key : List ℕ
product_key = b'p' ∷ b'r' ∷ b'o' ∷ b'd' ∷ b'u' ∷ b'c' ∷ b't' ∷ b'_' ∷ b'i' ∷ b'd' ∷ []

abbrev pub price_key : List ℕ
price_key = b'p' ∷ b'r' ∷ b'i' ∷ b'c' ∷ b'e' ∷ []

abbrev pub time_key : List ℕ
time_key = b't' ∷ b'i' ∷ b'm' ∷ b'e' ∷ []

abbrev pub trade_key : List ℕ
trade_key = b't' ∷ b'r' ∷ b'a' ∷ b'd' ∷ b'e' ∷ b'_' ∷ b'i' ∷ b'd' ∷ []

abbrev pub last_trade_key : List ℕ
last_trade_key =
    b'l' ∷ b'a' ∷ b's' ∷ b't' ∷ b'_' ∷ b't' ∷ b'r' ∷ b'a' ∷ b'd' ∷ b'e' ∷ b'_' ∷ b'i' ∷ b'd' ∷ []

abbrev pub ticker_type : List ℕ
ticker_type = b't' ∷ b'i' ∷ b'c' ∷ b'k' ∷ b'e' ∷ b'r' ∷ []

abbrev pub heartbeat_type : List ℕ
heartbeat_type = b'h' ∷ b'e' ∷ b'a' ∷ b'r' ∷ b't' ∷ b'b' ∷ b'e' ∷ b'a' ∷ b't' ∷ []

module _ (json : Json) (strtod : List ℕ → Double × ℕ) (product_to_stream : Dict (List ℕ) ℕ) where
  open json use {Elem}

  unfoldable pub lookup : List ℕ → Option ℕ
  lookup product = find product product_to_stream

  -- The buffer holds 64 bytes, the last of them for the terminating zero.
  unfoldable pub parse_decimal : List ℕ → Option Double
  parse_decimal s =
      let (v, used) = strtod (s ++ (0 ∷ [])) in
      if length s == 0 || leb 64 (length s) then none else if used == length s then some v else none

  unfoldable pub parse_ticker : Elem → Message → ParseResult × Message
  unfolding lookup
  parse_ticker doc out =
      need (string_at json doc product_key) (malformed, out)
        (λ product.
          need (lookup product) (skipped, out)
            (λ stream_id.
              need (string_at json doc price_key) (malformed, out)
                (λ price_sv.
                  need (parse_decimal price_sv) (malformed, out)
                    (λ price.
                      need (string_at json doc time_key) (malformed, out)
                        (λ time_sv.
                          need (parse_rfc3339_ns time_sv) (malformed, out)
                            (λ ts_ns.
                              need (uint64_at json doc trade_key) (malformed, out)
                                (λ trade_id. (
                                  ok,
                                  record out {
                                    stream_id = stream_id;
                                    ts_ns = ts_ns;
                                    value = price;
                                    seq = trade_id;
                                  },
                                ))))))))

  unfoldable pub parse_heartbeat : Elem → Message → ParseResult × Message
  unfolding lookup
  parse_heartbeat doc out =
      need (string_at json doc product_key) (malformed, out)
        (λ product.
          need (lookup product) (skipped, out)
            (λ stream_id.
              need (uint64_at json doc last_trade_key) (malformed, out)
                (λ last_trade_id.
                  (heartbeat, record out { stream_id = stream_id; seq = last_trade_id }))))

  unfoldable pub parse : List ℕ → Message → ParseResult × Message
  parse raw out =
      need (json.parse raw) (malformed, out)
        (λ doc.
          need (string_at json doc type_key) (malformed, out)
            (λ type.
              if bytes_key.same type ticker_type
              then parse_ticker doc out
              else if bytes_key.same type heartbeat_type
              then parse_heartbeat doc out
              else (skipped, out)))
