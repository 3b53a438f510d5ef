-- ===== src/Detect/Config.antt =====
-- include/detect/rules.hpp: load_rule_config. The file is the list of its lines, or nothing if it cannot be
-- opened; an exception is the left side of the result. `std::from_chars` gives a value and the bytes it
-- used, or an error, and `std::strtod` a value and the bytes it used.
pub mod Printed
use jisa.Prelude.{
  ℕ, ◌⊎◌, inl, inr, Bool, not, ◌&&◌, ◌||◌, Option, none, some, List, [], ◌∷◌, ◌++◌, ◌==◌,
  if◌then◌else◌, length,
}
use jisa.Double.{Double, lt_d, eq_d}
use jisa.Prelude.Dict.{bytes_key}
use jisa.Prelude.Text.{split_at}
use jisa.Detect.Rules.{RuleConfig}

abbrev pub stream_id_key : List ℕ
stream_id_key = b's' ∷ b't' ∷ b'r' ∷ b'e' ∷ b'a' ∷ b'm' ∷ b'_' ∷ b'i' ∷ b'd' ∷ []

abbrev pub min_key : List ℕ
min_key = b'm' ∷ b'i' ∷ b'n' ∷ []

abbrev pub max_key : List ℕ
max_key = b'm' ∷ b'a' ∷ b'x' ∷ []

abbrev pub max_rate_key : List ℕ
max_rate_key =
    b'm' ∷ b'a' ∷ b'x' ∷ b'_' ∷ b'r' ∷ b'a' ∷ b't' ∷ b'e' ∷ b'_' ∷ b'o' ∷ b'f' ∷ b'_' ∷ b'c' ∷ b'h'
    ∷ b'a' ∷ b'n' ∷ b'g' ∷ b'e' ∷ []

pub data ConfigError : Type 0 where
  cannot_open missing_field min_not_below_max : ConfigError
  invalid_value : (key : List ℕ) (val : List ℕ) → ConfigError

-- The fields that were read so far.
pub record Fields : Type 0 where
  pub stream_id : Option ℕ
  pub min : Option Double
  pub max : Option Double
  pub max_rate : Option Double

abbrev pub no_fields : Fields
no_fields = record { stream_id = none; min = none; max = none; max_rate = none }

-- The line up to its first `#`.
unfoldable pub strip_comment : List ℕ → List ℕ
strip_comment [] = []
strip_comment (c ∷ cs) = let rest = strip_comment cs in if c == b'#' then [] else c ∷ rest

-- What stands before and after the first colon.
unfoldable pub split_colon : List ℕ → Option (List ℕ × List ℕ)
split_colon line = split_at b':' line

-- Space, tab, carriage return and newline.
abbrev pub is_blank : ℕ → Bool
is_blank c = c == 32 || c == 9 || c == 13 || c == 10

unfoldable pub trim_start : List ℕ → List ℕ
trim_start [] = []
trim_start (c ∷ cs) = let rest = trim_start cs in if is_blank c then rest else c ∷ cs

unfoldable pub trim_end : List ℕ → List ℕ
trim_end [] = []
trim_end (c ∷ cs) =
    let rest = trim_end cs in if is_blank c && length rest == 0 then [] else c ∷ rest

unfoldable pub trim : List ℕ → List ℕ
trim s = trim_end (trim_start s)

-- `*min >= *max`
abbrev pub ge_d : Double → Double → Bool
ge_d a b = lt_d b a || eq_d a b

-- The checks after the loop, on the four fields.
abbrev pub finish :
    Option ℕ → Option Double → Option Double → Option Double → ConfigError ⊎ RuleConfig
finish (some stream_id) (some low) (some high) (some rate) =
    if ge_d low high
    then inl min_not_below_max
    else inr (record { stream_id = stream_id; min = low; max = high; max_rate_of_change = rate })
finish none low high rate = inl missing_field
finish (some stream_id) none high rate = inl missing_field
finish (some stream_id) (some low) none rate = inl missing_field
finish (some stream_id) (some low) (some high) none = inl missing_field

module _ (from_chars : List ℕ → Option (ℕ × ℕ)) (strtod : List ℕ → Double × ℕ) where
  unfoldable pub parse_u32_or_throw : List ℕ → List ℕ → ConfigError ⊎ ℕ
  parse_u32_or_throw key val = elim (from_chars val) [
    | none ↦ inl (invalid_value key val)
    | some p ↦ if p.1 == length val then inr p.0 else inl (invalid_value key val)
  ]

  unfoldable pub parse_double_or_throw : List ℕ → List ℕ → ConfigError ⊎ Double
  parse_double_or_throw key val =
      let (out, used) = strtod (val ++ (0 ∷ [])) in
      if not (used == length val) || length val == 0 then inl (invalid_value key val) else inr out

  abbrev pub and_set : {A : Type 0} → ConfigError ⊎ A → (A → Fields) → ConfigError ⊎ Fields
  and_set (inl e) f = inl e
  and_set (inr a) f = inr (f a)

  -- A key and its value, both trimmed and not empty.
  unfoldable pub read_entry : List ℕ → List ℕ → Fields → ConfigError ⊎ Fields
  read_entry key val fs =
      if bytes_key.same key stream_id_key
      then and_set (parse_u32_or_throw key val) (λ v. record fs { stream_id = some v })
      else if bytes_key.same key min_key
      then and_set (parse_double_or_throw key val) (λ v. record fs { min = some v })
      else if bytes_key.same key max_key
      then and_set (parse_double_or_throw key val) (λ v. record fs { max = some v })
      else if bytes_key.same key max_rate_key
      then and_set (parse_double_or_throw key val) (λ v. record fs { max_rate = some v })
      else inr fs

  unfoldable pub read_line : List ℕ → Fields → ConfigError ⊎ Fields
  unfolding trim
  read_line line fs = elim (split_colon (strip_comment line)) [
    | none ↦ inr fs
    | some p ↦
        if length (trim p.0) == 0 || length (trim p.1) == 0
        then inr fs
        else read_entry (trim p.0) (trim p.1) fs
  ]

  unfoldable pub read_lines : List (List ℕ) → Fields → ConfigError ⊎ Fields
  read_lines [] fs = inr fs
  read_lines (line ∷ lines) fs = elim (read_line line fs) [
    | inl e ↦ inl e
    | inr fs' ↦ read_lines lines fs'
  ]

  unfoldable pub load_rule_config : Option (List (List ℕ)) → ConfigError ⊎ RuleConfig
  load_rule_config none = inl cannot_open
  load_rule_config (some lines) = elim (read_lines lines no_fields) [
    | inl e ↦ inl e
    | inr fs ↦ finish fs.stream_id fs.min fs.max fs.max_rate
  ]
