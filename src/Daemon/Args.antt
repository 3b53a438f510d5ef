-- ===== src/Daemon/Args.antt =====
-- src/feed/coinbase_daemon_main.cpp: Options, parse_args and build_subscribe. A failure is the message's
-- left side; `std::strtoul` and `std::atoi` are parameters, and the hash map of products is a
-- dictionary.
pub mod Laws
use jisa.Prelude.{
  ℕ, ◌%◌, ◌^◌, ◌⊎◌, inl, inr, Option, none, some, List, [], ◌∷◌, ◌++◌, ◌==◌, if◌then◌else◌, length,
}
use jisa.Prelude.Int.{ℤ, pos}
use jisa.Prelude.Dict.{Dict, bytes_key, put}
use jisa.Prelude.Text.{split_at}

abbrev pub data_dir_flag : List ℕ
data_dir_flag = b'-' ∷ b'-' ∷ b'd' ∷ b'a' ∷ b't' ∷ b'a' ∷ b'-' ∷ b'd' ∷ b'i' ∷ b'r' ∷ []

abbrev pub endpoint_flag : List ℕ
endpoint_flag = b'-' ∷ b'-' ∷ b'e' ∷ b'n' ∷ b'd' ∷ b'p' ∷ b'o' ∷ b'i' ∷ b'n' ∷ b't' ∷ []

abbrev pub rules_flag : List ℕ
rules_flag = b'-' ∷ b'-' ∷ b'r' ∷ b'u' ∷ b'l' ∷ b'e' ∷ b's' ∷ []

abbrev pub product_flag : List ℕ
product_flag = b'-' ∷ b'-' ∷ b'p' ∷ b'r' ∷ b'o' ∷ b'd' ∷ b'u' ∷ b'c' ∷ b't' ∷ []

abbrev pub interval_flag : List ℕ
interval_flag =
    b'-' ∷ b'-' ∷ b's' ∷ b't' ∷ b'a' ∷ b't' ∷ b's' ∷ b'-' ∷ b'i' ∷ b'n' ∷ b't' ∷ b'e' ∷ b'r' ∷ b'v'
    ∷ b'a' ∷ b'l' ∷ b'-' ∷ b'm' ∷ b's' ∷ []

abbrev pub btc_usd : List ℕ
btc_usd = b'B' ∷ b'T' ∷ b'C' ∷ b'-' ∷ b'U' ∷ b'S' ∷ b'D' ∷ []

abbrev pub eth_usd : List ℕ
eth_usd = b'E' ∷ b'T' ∷ b'H' ∷ b'-' ∷ b'U' ∷ b'S' ∷ b'D' ∷ []

abbrev pub default_data_dir : List ℕ
default_data_dir = b'.' ∷ b'/' ∷ b'd' ∷ b'a' ∷ b't' ∷ b'a' ∷ []

abbrev pub default_endpoint : List ℕ
default_endpoint =
    b'w' ∷ b's' ∷ b's' ∷ b':' ∷ b'/' ∷ b'/' ∷ b'w' ∷ b's' ∷ b'-' ∷ b'f' ∷ b'e' ∷ b'e' ∷ b'd' ∷ b'.'
    ∷ b'e' ∷ b'x' ∷ b'c' ∷ b'h' ∷ b'a' ∷ b'n' ∷ b'g' ∷ b'e' ∷ b'.' ∷ b'c' ∷ b'o' ∷ b'i' ∷ b'n'
    ∷ b'b' ∷ b'a' ∷ b's' ∷ b'e' ∷ b'.' ∷ b'c' ∷ b'o' ∷ b'm' ∷ []

pub record Options : Type 0 where
  pub data_dir : List ℕ
  pub endpoint : List ℕ
  pub rule_paths : List (List ℕ)
  pub products : Dict (List ℕ) ℕ
  pub stats_interval_ms : ℤ

abbrev pub default_options : Options
default_options = record {
  data_dir = default_data_dir;
  endpoint = default_endpoint;
  rule_paths = [];
  products = [];
  stats_interval_ms = pos 1000;
}

pub data ArgError : Type 0 where
  requires_value : (flag : List ℕ) → ArgError
  bad_product : (value : List ℕ) → ArgError
  unknown_argument : (argument : List ℕ) → ArgError

pub data Flag : Type 0 where
  data_dir endpoint rules product stats_interval : Flag

-- Which flag an argument is.
unfoldable pub flag_of : List ℕ → Option Flag
flag_of a =
    if bytes_key.same a data_dir_flag
    then some Flag.data_dir
    else if bytes_key.same a endpoint_flag
    then some Flag.endpoint
    else if bytes_key.same a rules_flag
    then some Flag.rules
    else if bytes_key.same a product_flag
    then some Flag.product
    else if bytes_key.same a interval_flag
    then some Flag.stats_interval
    else none

-- The products when none is given.
abbrev pub or_defaults : Options → Options
or_defaults o =
    if length o.products == 0 then record o { products = (btc_usd, 10) ∷ (eth_usd, 11) ∷ [] } else o

-- An error is passed on.
abbrev pub and_then : ArgError ⊎ Options → (Options → ArgError ⊎ Options) → ArgError ⊎ Options
and_then (inl e) f = inl e
and_then (inr o) f = f o

module _ (strtoul : List ℕ → ℕ) (atoi : List ℕ → ℤ) where
  -- What a flag does with its value.
  unfoldable pub set_option : Flag → List ℕ → Options → ArgError ⊎ Options
  set_option Flag.data_dir v o = inr (record o { data_dir = v })
  set_option Flag.endpoint v o = inr (record o { endpoint = v })
  set_option Flag.rules v o = inr (record o { rule_paths = o.rule_paths ++ (v ∷ []) })
  set_option Flag.product v o = elim (split_at b'=' v) [
    | none ↦ inl (bad_product v)
    | some p ↦ inr (record o { products = put p.0 (strtoul p.1 % 2 ^ 32) o.products })
  ]
  set_option Flag.stats_interval v o = inr (record o { stats_interval_ms = atoi v })

  -- The loop, over the arguments that are left.
  unfoldable pub parse_loop : List (List ℕ) → Options → ArgError ⊎ Options
  unfolding flag_of
  parse_loop [] o = inr o
  parse_loop (a ∷ []) o = elim (flag_of a) [
    | none ↦ inl (unknown_argument a)
    | some f ↦ inl (requires_value a)
  ]
  parse_loop (a ∷ v ∷ rest) o = elim (flag_of a) [
    | none ↦ inl (unknown_argument a)
    | some f ↦ and_then (set_option f v o) (λ o'. parse_loop rest o')
  ]

  -- `argv` without the program's name.
  unfoldable pub parse_args : List (List ℕ) → ArgError ⊎ Options
  unfolding parse_loop
  parse_args argv = and_then (parse_loop argv default_options) (λ o. inr (or_defaults o))

abbrev pub comma : List ℕ
comma = b',' ∷ []

abbrev pub quote : List ℕ
quote = b'"' ∷ []

abbrev pub subscribe_head : List ℕ
subscribe_head =
    b'{' ∷ b'"' ∷ b't' ∷ b'y' ∷ b'p' ∷ b'e' ∷ b'"' ∷ b':' ∷ b'"' ∷ b's' ∷ b'u' ∷ b'b' ∷ b's' ∷ b'c'
    ∷ b'r' ∷ b'i' ∷ b'b' ∷ b'e' ∷ b'"' ∷ b',' ∷ b'"' ∷ b'p' ∷ b'r' ∷ b'o' ∷ b'd' ∷ b'u' ∷ b'c'
    ∷ b't' ∷ b'_' ∷ b'i' ∷ b'd' ∷ b's' ∷ b'"' ∷ b':' ∷ b'[' ∷ []

abbrev pub subscribe_tail : List ℕ
subscribe_tail =
    b']' ∷ b',' ∷ b'"' ∷ b'c' ∷ b'h' ∷ b'a' ∷ b'n' ∷ b'n' ∷ b'e' ∷ b'l' ∷ b's' ∷ b'"' ∷ b':' ∷ b'['
    ∷ b'"' ∷ b't' ∷ b'i' ∷ b'c' ∷ b'k' ∷ b'e' ∷ b'r' ∷ b'"' ∷ b',' ∷ b'"' ∷ b'h' ∷ b'e' ∷ b'a'
    ∷ b'r' ∷ b't' ∷ b'b' ∷ b'e' ∷ b'a' ∷ b't' ∷ b'"' ∷ b']' ∷ b'}' ∷ []

-- The loop over the products, in the order in which the hash map gives them.
unfoldable pub join_ids : List (List ℕ) → List ℕ → List ℕ
join_ids [] ids = ids
join_ids (name ∷ rest) ids =
    join_ids rest ((if length ids == 0 then ids else ids ++ comma) ++ (quote ++ (name ++ quote)))

unfoldable pub build_subscribe : List (List ℕ) → List ℕ
build_subscribe products = subscribe_head ++ (join_ids products [] ++ subscribe_tail)
