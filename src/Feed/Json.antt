-- ===== src/Feed/Json.antt =====
-- The simdjson DOM, which the adapters of include/feed parse with: a parameter. A call of its
-- error-code API gives an `Option`, and a lookup on a missing field fails as the read of it does.
use jisa.Prelude.{ℕ, Option, none, List, need}
use jisa.Prelude.Int.{ℤ}
use jisa.Double.{Double}

pub record Json : Type 1 where
  pub Elem : Type 0
  pub parse : List ℕ → Option Elem
  pub field : Elem → List ℕ → Option Elem
  pub get_string : Elem → Option (List ℕ)
  pub get_double : Elem → Option Double
  pub get_int64 : Elem → Option ℤ
  pub get_uint64 : Elem → Option ℕ
  pub get_array : Elem → Option (List Elem)

module _ (json : Json) where
  open json use {Elem, field, get_string, get_double, get_int64, get_uint64, get_array}

  -- `e[name].get_string()` and the other reads of a field.
  abbrev pub string_at : Elem → List ℕ → Option (List ℕ)
  string_at e name = need (field e name) none get_string

  abbrev pub double_at : Elem → List ℕ → Option Double
  double_at e name = need (field e name) none get_double

  abbrev pub uint64_at : Elem → List ℕ → Option ℕ
  uint64_at e name = need (field e name) none get_uint64

  abbrev pub array_at : Elem → List ℕ → Option (List Elem)
  array_at e name = need (field e name) none get_array
