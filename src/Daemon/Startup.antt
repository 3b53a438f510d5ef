-- ===== src/Daemon/Startup.antt =====
-- src/feed/coinbase_daemon_main.cpp: main up to the point where the threads start. What a path holds,
-- and whether the alerts file opens, are parameters; every failure exits with code 2.
pub mod Loaded
use jisa.Prelude.{ℕ, ◌⊎◌, inl, inr, Bool, Option, List, [], ◌∷◌, ◌++◌, map, if◌then◌else◌}
use jisa.Prelude.Int.{ℤ}
use jisa.Double.{Double}
use jisa.Detect.Rules.{Rules, RuleConfig, add_rule}
use jisa.Detect.Config.{ConfigError, load_rule_config}
use jisa.Daemon.Args.{ArgError, Options, parse_args}

-- The path of the alerts file.
abbrev pub alerts_name : List ℕ
alerts_name =
    b'/' ∷ b'a' ∷ b'l' ∷ b'e' ∷ b'r' ∷ b't' ∷ b's' ∷ b'.' ∷ b'j' ∷ b's' ∷ b'o' ∷ b'n' ∷ b'l' ∷ []

pub data StartError : Type 0 where
  bad_arguments : (e : ArgError) → StartError
  bad_rules : (path : List ℕ) (e : ConfigError) → StartError
  no_alerts_file : (data_dir : List ℕ) → StartError

pub record Started : Type 0 where
  pub options : Options
  pub rules : Rules
  pub stream_ids : List ℕ

pub record Environment : Type 0 where
  pub strtoul : List ℕ → ℕ
  pub atoi : List ℕ → ℤ
  pub from_chars : List ℕ → Option (ℕ × ℕ)
  pub strtod : List ℕ → Double × ℕ
  pub read_file : List ℕ → Option (List (List ℕ))
  pub opens : List ℕ → Bool

module _ (env : Environment) where
  open env use {strtoul, atoi, from_chars, strtod, read_file, opens}

  abbrev pub load : List ℕ → ConfigError ⊎ RuleConfig
  load path = load_rule_config from_chars strtod (read_file path)

  -- The loop over the rule files.
  unfoldable pub load_rules : List (List ℕ) → Rules → StartError ⊎ Rules
  load_rules [] rules = inr rules
  load_rules (path ∷ paths) rules = elim (load path) [
    | inl e ↦ inl (bad_rules path e)
    | inr cfg ↦ load_rules paths (add_rule cfg rules)
  ]

  unfoldable pub start : List (List ℕ) → StartError ⊎ Started
  unfolding load_rules
  start argv = elim (parse_args strtoul atoi argv) [
    | inl e ↦ inl (bad_arguments e)
    | inr o ↦ elim (load_rules o.rule_paths []) [
      | inl e ↦ inl e
      | inr rules ↦
          if opens (o.data_dir ++ alerts_name)
          then inr (record { options = o; rules = rules; stream_ids = map (λ p. p.1) o.products })
          else inl (no_alerts_file o.data_dir)
    ]
  ]
