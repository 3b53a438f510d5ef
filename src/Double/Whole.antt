-- ===== src/Double/Whole.antt =====
-- `Arith` on whole numbers, for tests.
use jisa.Prelude.{◌+◌, ◌-◌, ◌*◌, ◌/◌, ◌%◌, ◌^◌}
use jisa.Prelude.Int.{pos, pos_part}
use jisa.Double.{Arith}

-- Any functions serve for the operations that round; these are on whole numbers.
abbrev pub whole : Arith
whole = record {
  add = λ a b. (a + b) % 2 ^ 64;
  sub = λ a b. a - b;
  mul = λ a b. a * b % 2 ^ 64;
  div = λ a b. a / b;
  sqrt = λ a. a;
  ceil = λ a. a;
  of_int = λ z. pos_part z;
  to_int = λ a. pos a;
}
