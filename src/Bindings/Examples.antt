-- ===== src/Bindings/Examples.antt =====
-- src/bindings/bindings.cpp: a Python program that records three messages.
use jisa.Prelude.{
  ℕ, ◌^◌, ◌≤◌, ◌≡◌, refl, true, Option, none, some, List, [], ◌∷◌, arith, length, ltb,
  if◌then◌else◌,
}
use jisa.Prelude.Int.{pos}
use jisa.Core.Message.{Message}
use jisa.Replay.Format.{header_size, encode_record, put_u32, put_u64}
use jisa.Replay.Recorder.{Flush, open_recorder, write, close, record_stream}
use jisa.Bindings.{Casts, CastsInRange, new_message}
use jisa.Bindings.Iteration.{Args, construct, Looped, for_loop-recorded}

-- The objects are numbers.
abbrev below : ℕ → ℕ → Option ℕ
below bound n = if ltb n bound then some n else none

abbrev numbers : Casts ℕ
numbers = record {
  to_u32 = below (2 ^ 32);
  to_i64 = λ n. if ltb n (2 ^ 63) then some (pos n) else none;
  to_double = below (2 ^ 64);
  to_u64 = below (2 ^ 64);
}

numbers-CastsInRange : CastsInRange numbers
numbers-CastsInRange = record {
  u32 = λ v n e. ground (arith, e);
  i64 = λ v z e. ground (arith, e);
  double = λ v x e. ground (arith, e);
  u64 = λ v n e. ground (arith, e);
}

-- The header goes out with the first record; the device takes 10 bytes of the second.
abbrev later : Flush
later = record { out = 0; room = 0 }

abbrev flushed : Flush
flushed = record { out = 72; room = 72 }

abbrev refused : Flush
refused = record { out = 64; room = 10 }

abbrev calls : List (Flush × Args ℕ)
calls = (flushed, (10, 5, 7, 1)) ∷ (refused, (10, 6, 8, 2)) ∷ (later, (11, 7, 9, 3)) ∷ []

abbrev message : ℕ → ℕ → ℕ → ℕ → Message
message s t v n = record { stream_id = s; ts_ns = pos t; value = v; seq = n }

abbrev built : List (Flush × Message)
built = (flushed, message 10 5 7 1) ∷ (refused, message 10 6 8 2) ∷ (later, message 11 7 9 3) ∷ []

no_type_error : construct numbers calls ≡ some built
unfolding construct new_message
no_type_error = refl

type_error : new_message numbers (2 ^ 32, 0, 0, 0) ≡ none
unfolding new_message
type_error = refl

header_there :
    header_size ≤ length (close 0 (record_stream built (open_recorder true later)).0).file.bytes
unfolding record_stream write open_recorder close encode_record put_u32 put_u64
header_there = omega arith

for_loop-recorded_example :
    let (last, kept) = record_stream built (open_recorder true later) in Looped kept last 0
for_loop-recorded_example =
    for_loop-recorded numbers later calls built 0 numbers-CastsInRange no_type_error header_there
