-- ===== src/Daemon/Args/Laws.antt =====
-- src/feed/coinbase_daemon_main.cpp: every setting of the daemon can be written as arguments.
use jisa.Prelude.{
  ℕ, ◌^◌, ◌<◌, ◌≡◌, refl, ap, ◌∙◌, inr, none, List, [], ◌∷◌, ◌++◌, append-nil, append_assoc, arith,
  ne→==_false, length,
}
use jisa.Prelude.Int.{ℤ}
use jisa.Prelude.Dict.{Dict, nat_key, bytes_key, find, put}
use native.Mathlib.Nat.{mod-eq_of_lt}
use jisa.Prelude.Text.{Lacks, split_at-append}
use jisa.Daemon.Args.{
  Options, Flag, default_options, or_defaults, and_then, set_option, parse_loop, parse_args,
  data_dir_flag, endpoint_flag, rules_flag, product_flag, interval_flag,
}

-- The texts of numbers that a command line is written with.
pub record Digits : Type 0 where
  pub print_u32 : ℕ → List ℕ
  pub print_int : ℤ → List ℕ

-- `NAME=STREAM_ID`
abbrev pub product_text : Digits → List ℕ × ℕ → List ℕ
product_text digits (name, stream_id) = name ++ (b'=' ∷ digits.print_u32 stream_id)

abbrev pub rule_args : List (List ℕ) → List (List ℕ) → List (List ℕ)
rule_args [] rest = rest
rule_args (path ∷ paths) rest = rules_flag ∷ path ∷ rule_args paths rest

abbrev pub product_args : Digits → Dict (List ℕ) ℕ → List (List ℕ)
product_args digits [] = []
product_args digits (p ∷ ps) = product_flag ∷ product_text digits p ∷ product_args digits ps

pub command_line : Digits → Options → List (List ℕ)
command_line digits o =
    data_dir_flag
    ∷ o.data_dir
    ∷ endpoint_flag
    ∷ o.endpoint
    ∷ interval_flag
    ∷ digits.print_int o.stats_interval_ms
    ∷ rule_args o.rule_paths (product_args digits o.products)

-- Product names that differ from those of `before` and from one another, without `=`, and stream ids
-- whose texts are read back.
abbrev pub Writable : Digits → (List ℕ → ℕ) → Dict (List ℕ) ℕ → Dict (List ℕ) ℕ → Type 0
Writable digits strtoul before [] = Unit
Writable digits strtoul before ((name, stream_id) ∷ ps) =
    (find name before ≡ none)
    × Lacks b'=' name
    × (strtoul (digits.print_u32 stream_id) ≡ stream_id)
    × (stream_id < 2 ^ 32)
    × Writable digits strtoul (before ++ ((name, stream_id) ∷ [])) ps

put-new :
    (name : List ℕ) (v : ℕ) (m : Dict (List ℕ) ℕ)
    → find name m ≡ none
    → put name v m ≡ m ++ ((name, v) ∷ [])
unfolding find put
put-new name v [] e = refl
put-new name v ((j, w) ∷ m) e = ground (arith, put-new name v m)

module _ (digits : Digits) (strtoul : List ℕ → ℕ) (atoi : List ℕ → ℤ) where
  parse_loop-rules :
      (paths : List (List ℕ)) (rest : List (List ℕ)) (o : Options)
      → parse_loop strtoul atoi (rule_args paths rest) o
        ≡ parse_loop strtoul atoi rest (record o { rule_paths = o.rule_paths ++ paths })
  unfolding parse_loop set_option
  parse_loop-rules [] rest o = rw append-nil refl
  parse_loop-rules (path ∷ paths) rest o =
      parse_loop-rules paths rest (record o { rule_paths = o.rule_paths ++ (path ∷ []) })
      ∙ rw append_assoc refl

  set_option-product :
      (name : List ℕ) (stream_id : ℕ) (o : Options)
      → find name o.products ≡ none
      → Lacks b'=' name
      → strtoul (digits.print_u32 stream_id) ≡ stream_id
      → stream_id < 2 ^ 32
      → set_option strtoul atoi Flag.product (product_text digits (name, stream_id)) o
        ≡ inr (record o { products = o.products ++ ((name, stream_id) ∷ []) })
  unfolding set_option
  set_option-product name stream_id o new lacks read small = ground (
    arith,
    split_at-append b'=' name (digits.print_u32 stream_id) lacks,
    put-new name stream_id o.products new,
    mod-eq_of_lt small,
    read,
  )

  parse_loop-products :
      (ps : Dict (List ℕ) ℕ) (o : Options)
      → Writable digits strtoul o.products ps
      → parse_loop strtoul atoi (product_args digits ps) o
        ≡ inr (record o { products = o.products ++ ps })
  unfolding parse_loop set_option
  parse_loop-products [] o v = rw append-nil refl
  parse_loop-products ((name, stream_id) ∷ ps) o v =
      let o' : Options = record o { products = o.products ++ ((name, stream_id) ∷ []) } in
      ap (λ r. and_then r (λ q. parse_loop strtoul atoi (product_args digits ps) q))
        (set_option-product name stream_id o v.0 v.1 v.2 v.3)
      ∙ parse_loop-products ps o' v.4
      ∙ rw append_assoc refl

  parse_loop-command_line :
      (o : Options)
      → Writable digits strtoul [] o.products
      → atoi (digits.print_int o.stats_interval_ms) ≡ o.stats_interval_ms
      → parse_loop strtoul atoi (command_line digits o) default_options ≡ inr o
  unfolding parse_loop command_line set_option
  parse_loop-command_line o v e =
      let read : Options = record {
        data_dir = o.data_dir;
        endpoint = o.endpoint;
        rule_paths = [];
        products = [];
        stats_interval_ms = atoi (digits.print_int o.stats_interval_ms);
      } in
      parse_loop-rules o.rule_paths (product_args digits o.products) read
      ∙ parse_loop-products o.products (record read { rule_paths = o.rule_paths }) v
      ∙ ap (λ n. inr (record o { stats_interval_ms = n })) e

  -- Options with at least one product, whose products can be written, and an interval whose text is
  -- read back, are what parsing the command line that states them gives.
  pub parse_args-command_line :
      (o : Options)
      → 0 < length o.products
      → Writable digits strtoul [] o.products
      → atoi (digits.print_int o.stats_interval_ms) ≡ o.stats_interval_ms
      → parse_args strtoul atoi (command_line digits o) ≡ inr o
  unfolding parse_args
  parse_args-command_line o some_product v e =
      ap (λ r. and_then r (λ q. inr (or_defaults q))) (parse_loop-command_line o v e)
      ∙ ap inr (rw (ne→==_false (length o.products) 0 (omega (arith, some_product))) refl)
