-- ===== src/Prelude/Text.antt =====
-- Bytes up to a separator, as `std::string::find` and `substr` give them.
use Prim.Native.Nat.{ℕ}
use mathlib.Core.Path.{◌≡◌, refl, ap, ◌∙◌}
use mathlib.Core.Logic.{◌≢◌, ◌⊎◌, inl, inr}
use mathlib.Core.Option.{Option, none, some}
use mathlib.Core.List.{List, [], ◌∷◌, ◌++◌, append-nil, append_assoc}
use mathlib.Core.Bool.{Bool, true, false}
use native.Mathlib.Omega.{arith}
use jisa.Prelude.Lists.{All}
use jisa.Prelude.Tests.{if◌then◌else◌, ◌==◌, ne→==_false, Bool-cases}

-- What stands before and after the first `sep`.
unfoldable pub split_at : ℕ → List ℕ → Option (List ℕ × List ℕ)
split_at sep [] = none
split_at sep (c ∷ cs) =
    let rest = split_at sep cs in
    if c == sep then some ([], cs) else elim rest [ none ↦ none | some p ↦ some (c ∷ p.0, p.1) ]

abbrev pub Lacks : ℕ → List ℕ → Type 0
Lacks sep s = All (λ c. c ≢ sep) s

pub split_at-append :
    (sep : ℕ) (a b : List ℕ) → Lacks sep a → split_at sep (a ++ (sep ∷ b)) ≡ some (a, b)
unfolding split_at
split_at-append sep [] b v = ground (arith)
split_at-append sep (c ∷ a) b v = rw (ne→==_false c sep v.0, split_at-append sep a b v.1) refl

abbrev is_empty : List ℕ → Bool
is_empty [] = true
is_empty (_ ∷ _) = false

-- `while (std::getline(in, line))`, with what is read of a line so far.
unfoldable pub lines_from : List ℕ → List ℕ → List (List ℕ)
lines_from line [] = if is_empty line then [] else line ∷ []
lines_from line (c ∷ cs) =
    let rest = lines_from [] cs in
    let longer = lines_from (line ++ (c ∷ [])) cs in if c == 10 then line ∷ rest else longer

unfoldable pub lines : List ℕ → List (List ℕ)
lines s = lines_from [] s

lines_from-append :
    (line a b : List ℕ)
    → Lacks 10 a
    → lines_from line (a ++ (10 ∷ b)) ≡ (line ++ a) ∷ lines_from [] b
unfolding lines_from
lines_from-append line [] b v = rw (append-nil line) refl
lines_from-append line (c ∷ a) b v = rw (ne→==_false c 10 v.0) (
    lines_from-append (line ++ (c ∷ [])) a b v.1
    ∙ ap (λ l. l ∷ lines_from [] b) (append_assoc line (c ∷ []) a))

pub lines-append : (a b : List ℕ) → Lacks 10 a → lines (a ++ (10 ∷ b)) ≡ a ∷ lines b
unfolding lines
lines-append a b v = lines_from-append [] a b v

-- A text of whole lines: what is appended to it starts a line.
abbrev pub WholeLines : List ℕ → Type 0
WholeLines s = (s ≡ []) ⊎ ((front : List ℕ) × (s ≡ front ++ (10 ∷ [])))

lines_from-whole :
    (line front b : List ℕ)
    → lines_from line ((front ++ (10 ∷ [])) ++ b)
      ≡ lines_from line (front ++ (10 ∷ [])) ++ lines_from [] b
unfolding lines_from
lines_from-whole line [] b = refl
lines_from-whole line (c ∷ front) b = elim (Bool-cases (c == 10)) [
  | inl end ↦ rw end (ap (λ l. line ∷ l) (lines_from-whole [] front b))
  | inr inside ↦ rw inside (lines_from-whole (line ++ (c ∷ [])) front b)
]

pub lines-WholeLines : (a b : List ℕ) → WholeLines a → lines (a ++ b) ≡ lines a ++ lines b
unfolding lines lines_from
lines-WholeLines a b (inl e) = rw e refl
lines-WholeLines a b (inr (front, e)) = rw e (lines_from-whole [] front b)

-- A text put before the first of some texts.
abbrev pub lengthen : List ℕ → List ℕ × List (List ℕ) → List ℕ × List (List ℕ)
lengthen a p = (a ++ p.0, p.1)

-- What stands between the separators: the first text and the others.
unfoldable pub split_all : ℕ → List ℕ → List ℕ × List (List ℕ)
split_all sep [] = ([], [])
split_all sep (c ∷ cs) =
    let rest = split_all sep cs in
    if c == sep then ([], rest.0 ∷ rest.1) else lengthen (c ∷ []) rest

pub split_all-append :
    (sep : ℕ) (a b : List ℕ) → Lacks sep a → split_all sep (a ++ b) ≡ lengthen a (split_all sep b)
unfolding split_all
split_all-append sep [] b v = refl
split_all-append sep (c ∷ a) b v =
    rw (ne→==_false c sep v.0) (ap (lengthen (c ∷ [])) (split_all-append sep a b v.1))

-- Whether a byte does not occur.
unfoldable pub lacks : ℕ → List ℕ → Bool
lacks sep [] = true
lacks sep (c ∷ cs) = let rest = lacks sep cs in if c == sep then false else rest

pub lacks-Lacks : (sep : ℕ) (s : List ℕ) → lacks sep s ≡ true → Lacks sep s
unfolding lacks
lacks-Lacks sep [] e = tt
lacks-Lacks sep (c ∷ cs) e = (ground (arith, e), lacks-Lacks sep cs (ground (arith, e)))
