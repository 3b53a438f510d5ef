-- ===== src/Replay/Faults/LabelLines.antt =====
-- include/replay/fault_injector.hpp: a line of the labels file, written and read. The printing of numbers
-- and `std::from_chars` are parameters.
use jisa.Prelude.{
  ℕ, not, ◌&&◌, Option, none, some, List, [], ◌∷◌, ◌++◌, length, ◌==◌, if◌then◌else◌, need,
}
use jisa.Prelude.Int.{ℤ}
use jisa.Prelude.Dict.{bytes_key}
use jisa.Prelude.Text.{split_at}
use jisa.Replay.Faults.{FaultType, spike, drift, stuck_at_value, dropout, FaultLabel}

abbrev pub fault_type_name : FaultType → List ℕ
fault_type_name spike = b's' ∷ b'p' ∷ b'i' ∷ b'k' ∷ b'e' ∷ []
fault_type_name drift = b'd' ∷ b'r' ∷ b'i' ∷ b'f' ∷ b't' ∷ []
fault_type_name stuck_at_value =
    b's' ∷ b't' ∷ b'u' ∷ b'c' ∷ b'k' ∷ b'_' ∷ b'a' ∷ b't' ∷ b'_' ∷ b'v' ∷ b'a' ∷ b'l' ∷ b'u' ∷ b'e'
    ∷ []
fault_type_name dropout = b'd' ∷ b'r' ∷ b'o' ∷ b'p' ∷ b'o' ∷ b'u' ∷ b't' ∷ []

unfoldable pub parse_fault_type : List ℕ → Option FaultType
parse_fault_type name =
    if bytes_key.same name (fault_type_name spike)
    then some spike
    else if bytes_key.same name (fault_type_name drift)
    then some drift
    else if bytes_key.same name (fault_type_name stuck_at_value)
    then some stuck_at_value
    else if bytes_key.same name (fault_type_name dropout)
    then some dropout
    else none

-- How numbers are printed by `operator<<`, and read by `std::from_chars`: the value and the bytes it read.
pub record Numbers : Type 0 where
  pub print_u32 : ℕ → List ℕ
  pub print_i64 : ℤ → List ℕ
  pub from_chars_u32 : List ℕ → Option (ℕ × ℕ)
  pub from_chars_i64 : List ℕ → Option (ℤ × ℕ)

-- A field is a number when all of it was read, and it is not empty.
unfoldable pub parse_int_field : {A : Type 0} → (List ℕ → Option (A × ℕ)) → List ℕ → Option A
parse_int_field from_chars s =
    need (from_chars s) none
      (λ p. if (p.1 == length s) && not (length s == 0) then some p.0 else none)

-- `line.find('|')` and the two substrings around it.
unfoldable pub cut : List ℕ → Option (List ℕ × List ℕ)
cut line = split_at b'|' line

module _ (numbers : Numbers) where
  open numbers use {print_u32, print_i64, from_chars_u32, from_chars_i64}

  unfoldable pub label_line : FaultLabel → List ℕ
  label_line l =
      print_u32 l.stream_id
      ++ (b'|' ∷ fault_type_name l.type
          ++ (b'|' ∷ print_i64 l.t_start_ns ++ (b'|' ∷ print_i64 l.t_end_ns)))

  -- One line of the labels file; a malformed one gives nothing.
  unfoldable pub read_label : List ℕ → Option FaultLabel
  read_label line = need (cut line) none (λ p0. need (cut p0.1) none (λ p1.
      need (cut p1.1) none (λ p2. need (parse_fault_type p1.0) none (λ type.
        need (parse_int_field from_chars_u32 p0.0) none (λ stream_id.
          need (parse_int_field from_chars_i64 p2.0) none (λ t_start_ns.
            need (parse_int_field from_chars_i64 p2.1) none (λ t_end_ns. some (record {
              stream_id = stream_id;
              type = type;
              t_start_ns = t_start_ns;
              t_end_ns = t_end_ns;
            }))))))))

  -- The loop over the lines that `std::getline` gives.
  unfoldable pub read_labels : List (List ℕ) → List FaultLabel
  read_labels [] = []
  read_labels (line ∷ lines) =
      let rest = read_labels lines in need (read_label line) rest (λ l. l ∷ rest)
