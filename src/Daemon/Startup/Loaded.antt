-- ===== src/Daemon/Startup/Loaded.antt =====
-- src/feed/coinbase_daemon_main.cpp: which rules a daemon that starts has loaded.
use jisa.Prelude.{
  ℕ, ◌≡◌, refl, ap, ◌∙◌, ◌⊎◌, inl, inr, false, Option, none, some, List, [], ◌∷◌, ◌++◌, ◌==◌,
  if◌then◌else◌, Bool-cases,
}
use jisa.Prelude.Dict.{nat_key, bytes_key, find, find-put}
use jisa.Detect.Rules.{Rules, RuleConfig, add_rule}
use jisa.Detect.Rules as Checker
use jisa.Double.{zero_d}
use jisa.Prelude.Int.{pos}
use jisa.Detect.Config.{ConfigError}
use jisa.Daemon.Startup.{StartError, bad_rules, Environment, load, load_rules}

abbrev pub or_else : {A : Type 0} → Option A → Option A → Option A
or_else (some a) other = some a
or_else none other = other

-- The configuration of a stream that was loaded last.
abbrev pub last_for : ℕ → List RuleConfig → Option RuleConfig
last_for s [] = none
last_for s (cfg ∷ cfgs) = or_else (last_for s cfgs) (if cfg.stream_id == s then some cfg else none)

abbrev pub add_all : List RuleConfig → Rules → Rules
add_all [] rules = rules
add_all (cfg ∷ cfgs) rules = add_all cfgs (add_rule cfg rules)

-- A rule as it is before its first sample, if it is given; otherwise what was there.
abbrev pub fresh_rule : Option RuleConfig → Option Checker.State → Option Checker.State
fresh_rule none old = old
fresh_rule (some cfg) old =
    some (record { cfg = cfg; prev_value = zero_d; prev_ts_ns = pos 0; has_prev = false })

fresh_rule-or_else :
    (late early : Option RuleConfig) (old : Option Checker.State)
    → fresh_rule late (fresh_rule early old) ≡ fresh_rule (or_else late early) old
fresh_rule-or_else (some cfg) early old = refl
fresh_rule-or_else none early old = refl

find-add_rule :
    (s : ℕ) (cfg : RuleConfig) (rules : Rules)
    → find s (add_rule cfg rules)
      ≡ fresh_rule (if cfg.stream_id == s then some cfg else none) (find s rules)
unfolding add_rule
find-add_rule s cfg rules =
    let put_rule = find-put cfg.stream_id s _ rules in
    elim (Bool-cases (cfg.stream_id == s)) [
      | inl same ↦ put_rule ∙ rw same refl
      | inr other ↦ put_rule ∙ rw other refl
    ]

find-add_all :
    (s : ℕ) (cfgs : List RuleConfig) (rules : Rules)
    → find s (add_all cfgs rules) ≡ fresh_rule (last_for s cfgs) (find s rules)
find-add_all s [] rules = refl
find-add_all s (cfg ∷ cfgs) rules =
    find-add_all s cfgs (add_rule cfg rules)
    ∙ ap (fresh_rule (last_for s cfgs)) (find-add_rule s cfg rules)
    ∙ fresh_rule-or_else (last_for s cfgs) _ (find s rules)

module _ (env : Environment) where
  -- Paths that all load, as the given configurations.
  abbrev pub LoadAs : List (List ℕ) → List RuleConfig → Type 0
  LoadAs [] [] = Unit
  LoadAs [] (_ ∷ _) = ⊥
  LoadAs (_ ∷ _) [] = ⊥
  LoadAs (path ∷ paths) (cfg ∷ cfgs) = (load env path ≡ inr cfg) × LoadAs paths cfgs

  -- What loading the rule files comes to.
  pub data Loading (paths : List (List ℕ)) (rules : Rules) (out : StartError ⊎ Rules) : Type 0 where
    loaded :
        (cfgs : List RuleConfig)
        → LoadAs paths cfgs
        → out ≡ inr (add_all cfgs rules)
        → ((s : ℕ) → find s (add_all cfgs rules) ≡ fresh_rule (last_for s cfgs) (find s rules))
        → Loading paths rules out
    stopped :
        (before after : List (List ℕ)) (cfgs : List RuleConfig) (path : List ℕ) (e : ConfigError)
        → paths ≡ before ++ (path ∷ after)
        → LoadAs before cfgs
        → load env path ≡ inl e
        → out ≡ inl (bad_rules path e)
        → Loading paths rules out

  load_rules-bad :
      (path : List ℕ) (paths : List (List ℕ)) (rules : Rules) (e : ConfigError)
      → load env path ≡ inl e
      → load_rules env (path ∷ paths) rules ≡ inl (bad_rules path e)
  unfolding load_rules
  load_rules-bad path paths rules e h = rw (load_rules, h) refl

  load_rules-good :
      (path : List ℕ) (paths : List (List ℕ)) (rules : Rules) (cfg : RuleConfig)
      → load env path ≡ inr cfg
      → load_rules env (path ∷ paths) rules ≡ load_rules env paths (add_rule cfg rules)
  unfolding load_rules
  load_rules-good path paths rules cfg h = rw (load_rules, h) refl

  load_cases :
      (path : List ℕ)
      → ((e : ConfigError) × (load env path ≡ inl e))
        ⊎ ((cfg : RuleConfig) × (load env path ≡ inr cfg))
  load_cases path = go (load env path) refl
    where
      go :
          (r : ConfigError ⊎ RuleConfig)
          → load env path ≡ r
          → ((e : ConfigError) × (load env path ≡ inl e))
            ⊎ ((cfg : RuleConfig) × (load env path ≡ inr cfg))
      go (inl e) h = inl (e, h)
      go (inr cfg) h = inr (cfg, h)

  -- Loading the rule files, one after the other, either loads them all, and then each stream has the
  -- fresh rule of the last file about it, or what was there if there is none; or it stops at the first
  -- file that does not load, with the error of that file.
  pub load_rules-Loading :
      (paths : List (List ℕ)) (rules : Rules) → Loading paths rules (load_rules env paths rules)
  unfolding load_rules
  load_rules-Loading [] rules = Loading.loaded [] tt refl (λ s. refl)
  load_rules-Loading (path ∷ paths) rules = elim (load_cases path) [
    | inl (e, h) ↦
        Loading.stopped [] paths [] path e refl tt h (load_rules-bad path paths rules e h)
    | inr (cfg, h) ↦ extend path paths rules cfg h (load_rules-Loading paths (add_rule cfg rules))
  ]
    where
      extend :
          (path : List ℕ) (paths : List (List ℕ)) (rules : Rules) (cfg : RuleConfig)
          → load env path ≡ inr cfg
          → Loading paths (add_rule cfg rules) (load_rules env paths (add_rule cfg rules))
          → Loading (path ∷ paths) rules (load_rules env (path ∷ paths) rules)
      extend path paths rules cfg h (Loading.loaded cfgs v out rule_of) =
          Loading.loaded (cfg ∷ cfgs) (h, v) (load_rules-good path paths rules cfg h ∙ out)
            (λ s. find-add_all s (cfg ∷ cfgs) rules)
      extend path paths rules cfg h (Loading.stopped before after cfgs bad e split v fails out) =
          Loading.stopped (path ∷ before) after (cfg ∷ cfgs) bad e (ap (λ l. path ∷ l) split) (h, v)
            fails (load_rules-good path paths rules cfg h ∙ out)
