-- ===== src/Replay/Faults/Labels.antt =====
-- include/replay/fault_injector.hpp: the labels file, written and read back.
use jisa.Prelude.{Option, length, ◌<◌, ℕ, ◌≡◌, refl, some, List, [], ◌∷◌, ◌++◌, map, arith, All}
use jisa.Prelude.Dict.{bytes_key}
use jisa.Prelude.Text.{Lacks, split_at-append}
use jisa.Replay.Faults.{FaultType, spike, drift, stuck_at_value, dropout, FaultLabel}
use jisa.Replay.Faults.LabelLines.{
  Numbers, fault_type_name, parse_fault_type, cut, label_line, read_label, read_labels,
  parse_int_field,
}

abbrev pub NoBar : List ℕ → Type 0
NoBar s = Lacks b'|' s

-- A printed number is not empty, and all of it is read.
abbrev pub Reads : {A : Type 0} → (List ℕ → Option (A × ℕ)) → List ℕ → A → Type 0
Reads from_chars s x = (0 < length s) × (from_chars s ≡ some (x, length s))

-- What is relied on: a printed number is digits and perhaps a sign, which `std::from_chars` reads to the end.
pub record Scans (numbers : Numbers) (l : FaultLabel) : Type 0 where
  pub stream_id : Reads numbers.from_chars_u32 (numbers.print_u32 l.stream_id) l.stream_id
  pub t_start_ns : Reads numbers.from_chars_i64 (numbers.print_i64 l.t_start_ns) l.t_start_ns
  pub t_end_ns : Reads numbers.from_chars_i64 (numbers.print_i64 l.t_end_ns) l.t_end_ns
  pub id_text : NoBar (numbers.print_u32 l.stream_id)
  pub start_text : NoBar (numbers.print_i64 l.t_start_ns)

cut-append : (a b : List ℕ) → NoBar a → cut (a ++ (b'|' ∷ b)) ≡ some (a, b)
unfolding cut
cut-append a b v = split_at-append b'|' a b v

fault_type_name-NoBar : (t : FaultType) → NoBar (fault_type_name t)
fault_type_name-NoBar spike = ground arith
fault_type_name-NoBar drift = ground arith
fault_type_name-NoBar stuck_at_value = ground arith
fault_type_name-NoBar dropout = ground arith

parse_fault_type-name : (t : FaultType) → parse_fault_type (fault_type_name t) ≡ some t
unfolding parse_fault_type
parse_fault_type-name spike = refl
parse_fault_type-name drift = refl
parse_fault_type-name stuck_at_value = refl
parse_fault_type-name dropout = refl

parse_int_field-Reads :
    {A : Type 0} (from_chars : List ℕ → Option (A × ℕ)) (s : List ℕ) (x : A)
    → Reads from_chars s x
    → parse_int_field from_chars s ≡ some x
unfolding parse_int_field
parse_int_field-Reads from_chars s x v = rw (v.1) ground arith

module _ (numbers : Numbers) where
  read_label-label_line :
      (l : FaultLabel) → Scans numbers l → read_label numbers (label_line numbers l) ≡ some l
  unfolding read_label label_line
  read_label-label_line l v =
      rw
        (
          cut-append (numbers.print_u32 l.stream_id) _ v.id_text,
          cut-append (fault_type_name l.type) _ (fault_type_name-NoBar l.type),
          cut-append (numbers.print_i64 l.t_start_ns) _ v.start_text,
          parse_fault_type-name l.type,
          parse_int_field-Reads _ _ _ v.stream_id,
          parse_int_field-Reads _ (numbers.print_i64 l.t_start_ns) _ v.t_start_ns,
          parse_int_field-Reads _ (numbers.print_i64 l.t_end_ns) _ v.t_end_ns,
        )
        refl

  -- The labels that are written, one line each, are the ones that are read back, in order.
  pub read_labels-label_line :
      (ls : List FaultLabel)
      → All (Scans numbers) ls
      → read_labels numbers (map (label_line numbers) ls) ≡ ls
  unfolding read_labels
  read_labels-label_line [] v = refl
  read_labels-label_line (l ∷ ls) v =
      rw (read_label-label_line l v.0, read_labels-label_line ls v.1) refl
