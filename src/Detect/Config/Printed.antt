-- ===== src/Detect/Config/Printed.antt =====
-- include/detect/rules.hpp: the configuration of a rule, written as YAML and read by load_rule_config.
use jisa.Prelude.{
  ℕ, ◌<◌, ◌≡◌, refl, ap, ◌∙◌, ◌≢◌, inr, false, Option, some, List, [], ◌∷◌, ◌++◌, arith, ==_iff,
  ne→==_false, length, All,
}
use jisa.Prelude.Dict.{nat_key, bytes_key}
use jisa.Double.{Double}
use jisa.Prelude.Text.{split_at, split_at-append, Lacks}
use jisa.Detect.Rules.{RuleConfig}
use jisa.Detect.Config.{
  stream_id_key, min_key, max_key, max_rate_key, Fields, no_fields, strip_comment, split_colon,
  is_blank, trim_start, trim_end, trim, ge_d, parse_u32_or_throw, parse_double_or_throw, read_entry,
  read_line, read_lines, load_rule_config,
}

-- A text without blanks and comments, as keys and numbers are.
abbrev pub Plain : List ℕ → Type 0
Plain s = All (λ c. (c ≢ b'#') × (is_blank c ≡ false)) s

strip_comment-Plain : (s : List ℕ) → Plain s → strip_comment s ≡ s
unfolding strip_comment
strip_comment-Plain [] v = refl
strip_comment-Plain (c ∷ s) v =
    rw (ne→==_false c b'#' v.0.0) (ap (λ l. c ∷ l) (strip_comment-Plain s v.1))

trim_end-Plain : (s : List ℕ) → Plain s → trim_end s ≡ s
unfolding trim_end
trim_end-Plain [] v = refl
trim_end-Plain (c ∷ s) v = rw v.0.1 (ap (λ l. c ∷ l) (trim_end-Plain s v.1))

trim_start-Plain : (s : List ℕ) → Plain s → trim_start s ≡ s
unfolding trim_start
trim_start-Plain [] v = refl
trim_start-Plain (c ∷ s) v = rw v.0.1 refl

trim-Plain : (s : List ℕ) → Plain s → trim s ≡ s
unfolding trim
trim-Plain s v = ap trim_end (trim_start-Plain s v) ∙ trim_end-Plain s v

trim-space : (s : List ℕ) → Plain s → trim (32 ∷ s) ≡ s
unfolding trim trim_start
trim-space s v = trim-Plain s v

-- `key: value`
abbrev pub entry_line : List ℕ → List ℕ → List ℕ
entry_line key val = key ++ (b':' ∷ 32 ∷ val)

strip_comment-entry_line :
    (key val : List ℕ)
    → Plain key
    → Plain val
    → strip_comment (entry_line key val) ≡ entry_line key val
unfolding strip_comment
strip_comment-entry_line [] val v w = ap (λ l. b':' ∷ 32 ∷ l) (strip_comment-Plain val w)
strip_comment-entry_line (c ∷ key) val v w =
    rw (ne→==_false c b'#' v.0.0) (ap (λ l. c ∷ l) (strip_comment-entry_line key val v.1 w))

-- The texts of a rule's numbers.
pub record Texts : Type 0 where
  pub stream_id : List ℕ
  pub min : List ℕ
  pub max : List ℕ
  pub max_rate : List ℕ

-- Lines of comment, and then a line for each field.
pub config_lines : List (List ℕ) → Texts → List (List ℕ)
config_lines [] t =
    entry_line stream_id_key t.stream_id
    ∷ entry_line min_key t.min
    ∷ entry_line max_key t.max
    ∷ entry_line max_rate_key t.max_rate
    ∷ []
config_lines (note ∷ notes) t = (b'#' ∷ note) ∷ config_lines notes t

module _ (from_chars : List ℕ → Option (ℕ × ℕ)) (strtod : List ℕ → Double × ℕ) where
  read_line-entry_line :
      (key val : List ℕ) (fs : Fields)
      → Plain key
      → Lacks b':' key
      → Plain val
      → 0 < length key
      → 0 < length val
      → read_line from_chars strtod (entry_line key val) fs
        ≡ read_entry from_chars strtod key val fs
  unfolding read_line split_colon
  read_line-entry_line key val fs v one_colon w some_key some_val =
      rw
        (
          read_line,
          strip_comment-entry_line key val v w,
          split_at-append b':' key (32 ∷ val) one_colon,
          trim-Plain key v,
          trim-space val w,
          ne→==_false (length key) 0 (omega (arith, some_key)),
          ne→==_false (length val) 0 (omega (arith, some_val)),
        )
        refl

  -- A text that `std::from_chars` or `strtod` reads whole as a number.
  pub record ReadsU32 (text : List ℕ) (n : ℕ) : Type 0 where
    pub plain : Plain text
    pub some_text : 0 < length text
    pub whole : from_chars text ≡ some (n, length text)

  pub record ReadsDouble (text : List ℕ) (x : Double) : Type 0 where
    pub plain : Plain text
    pub some_text : 0 < length text
    pub whole : strtod (text ++ (0 ∷ [])) ≡ (x, length text)

  pub record Reads (t : Texts) (cfg : RuleConfig) : Type 0 where
    pub stream_id : ReadsU32 t.stream_id cfg.stream_id
    pub min : ReadsDouble t.min cfg.min
    pub max : ReadsDouble t.max cfg.max
    pub max_rate : ReadsDouble t.max_rate cfg.max_rate_of_change

  parse_u32_or_throw-ReadsU32 :
      (key text : List ℕ) (n : ℕ)
      → ReadsU32 text n
      → parse_u32_or_throw from_chars strtod key text ≡ inr n
  unfolding parse_u32_or_throw
  parse_u32_or_throw-ReadsU32 key text n v =
      ground (arith, v.whole, (==_iff (length text) (length text)).1 refl)

  parse_double_or_throw-ReadsDouble :
      (key text : List ℕ) (x : Double)
      → ReadsDouble text x
      → parse_double_or_throw from_chars strtod key text ≡ inr x
  unfolding parse_double_or_throw
  parse_double_or_throw-ReadsDouble key text x v = ground (arith, v.whole, v.some_text)

  set_u32 :
      (t : List ℕ) (n : ℕ) (fs : Fields)
      → ReadsU32 t n
      → read_line from_chars strtod (entry_line stream_id_key t) fs
        ≡ inr (record fs { stream_id = some n })
  unfolding read_entry
  set_u32 t n fs v =
      read_line-entry_line stream_id_key t fs (ground arith) (ground arith) v.plain (omega arith)
        v.some_text
      ∙ rw (parse_u32_or_throw-ReadsU32 stream_id_key t n v) refl

  set_min :
      (t : List ℕ) (x : Double) (fs : Fields)
      → ReadsDouble t x
      → read_line from_chars strtod (entry_line min_key t) fs ≡ inr (record fs { min = some x })
  unfolding read_entry
  set_min t x fs v =
      read_line-entry_line min_key t fs (ground arith) (ground arith) v.plain (omega arith)
        v.some_text
      ∙ rw (parse_double_or_throw-ReadsDouble min_key t x v) refl

  set_max :
      (t : List ℕ) (x : Double) (fs : Fields)
      → ReadsDouble t x
      → read_line from_chars strtod (entry_line max_key t) fs ≡ inr (record fs { max = some x })
  unfolding read_entry
  set_max t x fs v =
      read_line-entry_line max_key t fs (ground arith) (ground arith) v.plain (omega arith)
        v.some_text
      ∙ rw (parse_double_or_throw-ReadsDouble max_key t x v) refl

  set_max_rate :
      (t : List ℕ) (x : Double) (fs : Fields)
      → ReadsDouble t x
      → read_line from_chars strtod (entry_line max_rate_key t) fs
        ≡ inr (record fs { max_rate = some x })
  unfolding read_entry
  set_max_rate t x fs v =
      read_line-entry_line max_rate_key t fs (ground arith) (ground arith) v.plain (omega arith)
        v.some_text
      ∙ rw (parse_double_or_throw-ReadsDouble max_rate_key t x v) refl

  read_lines-read_line :
      (line : List ℕ) (rest : List (List ℕ)) (fs fs' : Fields)
      → read_line from_chars strtod line fs ≡ inr fs'
      → read_lines from_chars strtod (line ∷ rest) fs ≡ read_lines from_chars strtod rest fs'
  unfolding read_lines
  read_lines-read_line line rest fs fs' e = ground (arith, e)

  read_line_note :
      (note : List ℕ) (fs : Fields) → read_line from_chars strtod (b'#' ∷ note) fs ≡ inr fs
  unfolding read_line strip_comment split_colon split_at
  read_line_note note fs = refl

  read_lines-config_lines :
      (notes : List (List ℕ)) (t : Texts) (cfg : RuleConfig)
      → Reads t cfg
      → read_lines from_chars strtod (config_lines notes t) no_fields
        ≡ inr (record {
          stream_id = some cfg.stream_id;
          min = some cfg.min;
          max = some cfg.max;
          max_rate = some cfg.max_rate_of_change;
        })
  unfolding config_lines read_lines
  read_lines-config_lines [] t cfg v =
      let last_line = entry_line max_rate_key t.max_rate ∷ [] in
      let last_two = entry_line max_key t.max ∷ last_line in
      let with_id : Fields = record no_fields { stream_id = some cfg.stream_id } in
      let with_min : Fields = record with_id { min = some cfg.min } in
      let with_max : Fields = record with_min { max = some cfg.max } in
      read_lines-read_line _ (entry_line min_key t.min ∷ last_two) no_fields with_id
        (set_u32 t.stream_id cfg.stream_id no_fields v.stream_id)
      ∙ read_lines-read_line _ last_two with_id with_min (set_min t.min cfg.min with_id v.min)
      ∙ read_lines-read_line _ last_line with_min with_max (set_max t.max cfg.max with_min v.max)
      ∙ read_lines-read_line _ [] with_max _
          (set_max_rate t.max_rate cfg.max_rate_of_change with_max v.max_rate)
  read_lines-config_lines (note ∷ notes) t cfg v =
      read_lines-read_line (b'#' ∷ note) (config_lines notes t) no_fields no_fields
        (read_line_note note no_fields)
      ∙ read_lines-config_lines notes t cfg v

  -- A rule whose numbers have texts that are read whole and hold no blank and no `#`, and for which
  -- min >= max is false, is loaded from the file that states its four fields below any lines of comment.
  pub load_rule_config-config_lines :
      (notes : List (List ℕ)) (t : Texts) (cfg : RuleConfig)
      → Reads t cfg
      → ge_d cfg.min cfg.max ≡ false
      → load_rule_config from_chars strtod (some (config_lines notes t)) ≡ inr cfg
  unfolding load_rule_config
  load_rule_config-config_lines notes t cfg v ordered =
      rw (load_rule_config, read_lines-config_lines notes t cfg v, ordered) refl
