-- ===== src/Feed/Coinbase/Routing.antt =====
-- include/feed/coinbase.hpp: what a parse makes of the caller's message.
use jisa.Prelude.{ℕ, ◌≡◌, refl, inl, inr, some, List, Bool-cases, need-cases}
use jisa.Prelude.Dict.{Dict, nat_key, bytes_key, find}
use jisa.Double.{Double}
use jisa.Core.Message.{Message}
use jisa.Feed.Json.{Json, string_at, uint64_at}
use jisa.Feed.Time.{parse_rfc3339_ns}
use jisa.Feed.Handler.{ParseResult, ok, heartbeat, skipped, malformed}
use jisa.Feed.Coinbase.{
  parse, parse_ticker, parse_heartbeat, parse_decimal, lookup, product_key, price_key, time_key,
  trade_key, last_trade_key, type_key, ticker_type, heartbeat_type,
}

-- A stream that the configuration maps some product to.
pub record IsMapped (product_to_stream : Dict (List ℕ) ℕ) (stream_id : ℕ) : Type 0 where
  pub product : List ℕ
  pub found : find product product_to_stream ≡ some stream_id

-- What `parse` promises of the message for each result.
abbrev pub Filled : Dict (List ℕ) ℕ → Message → ParseResult × Message → Type 0
Filled streams out (ok, m) = IsMapped streams m.stream_id
Filled streams out (heartbeat, m) =
    IsMapped streams m.stream_id × (m.ts_ns ≡ out.ts_ns) × (m.value ≡ out.value)
Filled streams out (skipped, m) = m ≡ out
Filled streams out (malformed, m) = m ≡ out

module _ (json : Json) (strtod : List ℕ → Double × ℕ) (streams : Dict (List ℕ) ℕ)
    (out : Message) where
  open json use {Elem}

  abbrev Goal : ParseResult × Message → Type 0
  Goal = Filled streams out

  parse_ticker-Filled : (doc : Elem) → Goal (parse_ticker json strtod streams doc out)
  unfolding parse_ticker lookup
  parse_ticker-Filled doc = need-cases Goal (string_at json doc product_key) _ _ refl (λ product _.
      need-cases Goal (find product streams) _ _ refl (λ stream_id found.
        need-cases Goal (string_at json doc price_key) _ _ refl (λ price_sv _.
          need-cases Goal (parse_decimal json strtod streams price_sv) _ _ refl (λ price _.
            need-cases Goal (string_at json doc time_key) _ _ refl (λ time_sv _.
              need-cases Goal (parse_rfc3339_ns time_sv) _ _ refl (λ ts_ns _.
                need-cases Goal (uint64_at json doc trade_key) _ _ refl
                  (λ trade_id _. record { product = product; found = found })))))))

  parse_heartbeat-Filled : (doc : Elem) → Goal (parse_heartbeat json strtod streams doc out)
  unfolding parse_heartbeat lookup
  parse_heartbeat-Filled doc =
      need-cases Goal (string_at json doc product_key) _ _ refl (λ product _.
        need-cases Goal (find product streams) _ _ refl (λ stream_id found.
          need-cases Goal (uint64_at json doc last_trade_key) _ _ refl
            (λ last_trade_id _. (record { product = product; found = found }, refl, refl))))

  -- Whatever arrives, a parse that is skipped or malformed leaves the caller's message as it was; a
  -- ticker or a heartbeat goes to a stream that the configuration maps a product to; and a
  -- heartbeat leaves timestamp and value alone.
  pub parse-Filled : (raw : List ℕ) → Filled streams out (parse json strtod streams raw out)
  unfolding parse
  parse-Filled raw = need-cases Goal (json.parse raw) _ _ refl (λ doc _.
      need-cases Goal (string_at json doc type_key) _ _ refl (λ type _.
        elim (Bool-cases (bytes_key.same type ticker_type)) [
          | inl e ↦ rw e (parse_ticker-Filled doc)
          | inr e ↦ rw e (elim (Bool-cases (bytes_key.same type heartbeat_type)) [
            | inl e' ↦ rw e' (parse_heartbeat-Filled doc)
            | inr e' ↦ rw e' refl
          ])
        ]))
