-- ===== src/Replay/Faults/Examples.antt =====
-- include/replay/fault_injector.hpp: tests, and the theorems at concrete faults.
use jisa.Prelude.{
  ℕ, ◌≡◌, refl, some, List, [], ◌∷◌, ◌+◌, ◌≤◌, arith, length, replicate, true, false, ◌++◌,
}
use jisa.Prelude.Int.{pos, pos_part}
use jisa.Double.Whole.{whole}
use jisa.Core.Message.{Message, IsMessage}
use jisa.Prelude.Text.{Lacks}
use jisa.Replay.Format.{encode_record, put_u32, put_u64}
use jisa.Replay.Recorder.{header, open_recorder, write, is_open}
use jisa.Replay.Faults.Files.{Files, Outcome, write_files, write_all, write_labels, inject_impl}
use jisa.Replay.Faults.Files.Outcomes.{recorded}
use jisa.Replay.Faults.Files.Success.{Ran, inject_impl-Ran, Reread, replay-write_files}
use jisa.Replay.Faults.{kept, Injection, spike, dropout, FaultSpec, FaultLabel, inject}
use jisa.Replay.Faults.LabelLines.{Numbers, label_line}
use jisa.Replay.Faults.Untouched.{Untouched, inject-Untouched}
use jisa.Replay.Faults.Labels.{Scans}

abbrev reading : ℕ → Message
reading stream_id = record { stream_id = stream_id; ts_ns = pos 5; value = 9; seq = 1 }

abbrev stream : List Message
stream = reading 1 ∷ reading 2 ∷ reading 2 ∷ []

abbrev faults : List FaultSpec
faults =
    record { type = spike; stream_id = 2; onset_index = 1; duration = 1; magnitude = 4 }
    ∷ record { type = dropout; stream_id = 2; onset_index = 0; duration = 9; magnitude = 0 }
    ∷ []

inject-Untouched_example : Untouched 1 stream (inject whole stream faults 42)
inject-Untouched_example =
    inject-Untouched whole 1 stream faults 42 (omega arith, (omega arith, tt))

-- Numbers in unary notation.
abbrev unary : Numbers
unary = record {
  print_u32 = λ n. replicate n b'1';
  print_i64 = λ z. replicate (pos_part z) b'1';
  from_chars_u32 = λ s. some (length s, length s);
  from_chars_i64 = λ s. some (pos (length s), length s);
}

abbrev written : FaultLabel
written = record { stream_id = 2; type = spike; t_start_ns = pos 1; t_end_ns = pos 3 }

written-Scans : Scans unary written
written-Scans = record {
  stream_id = (omega arith, refl);
  t_start_ns = (omega arith, refl);
  t_end_ns = (omega arith, refl);
  id_text = (omega arith, (omega arith, tt));
  start_text = (omega arith, tt);
}

-- A recording of one message, an environment with room for a header and two records, and labels.
abbrev plenty : Files
plenty = record {
  input = some (header ++ encode_record (reading 2));
  output_opens = true;
  header_io = record { out = 0; room = 0 };
  record_io = λ i. record { out = 0; room = 0 };
  close_room = 100;
  labels_opens = true;
  labels_room = 100;
}

inject_impl-Ran_example :
    (o : Outcome) × (inject_impl unary whole plenty faults 42 ≡ some o)
    × Ran unary whole plenty faults 42 o
inject_impl-Ran_example = inject_impl-Ran unary whole plenty faults 42

abbrev injected : Injection
injected = record {
  msgs = reading 1 ∷ reading 2 ∷ [];
  dropped = true ∷ false ∷ [];
  labels = written ∷ [];
  rng_state = 0;
}

reading-IsMessage : IsMessage (reading 2)
reading-IsMessage = omega arith

written_line : Lacks 10 (label_line unary written)
unfolding label_line
written_line = ground arith

plenty_succeeds : (write_files unary plenty injected).success ≡ true
unfolding write_files write_all write_labels kept open_recorder write is_open encode_record
    label_line put_u32 put_u64
plenty_succeeds = refl

header_taken : 8 ≤ length (recorded plenty injected).file.bytes + 100
header_taken = omega arith

replay-write_files_example : Reread unary plenty injected (write_files unary plenty injected)
unfolding kept
replay-write_files_example =
    replay-write_files unary plenty injected plenty_succeeds header_taken (reading-IsMessage, tt)
      (written-Scans, tt) (written_line, tt)
