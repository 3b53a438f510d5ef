-- ===== src/Replay/Faults/Files.antt =====
-- include/replay/fault_injector.hpp: inject_impl, from the file it reads to the files it writes. What the
-- environment does is in `Files`: which files can be opened, what goes out in each write and in the flush of
-- `close`, and how much of it the device takes.
pub mod Outcomes
pub mod Success
use jisa.Prelude.{
  ℕ, suc, Bool, true, false, not, Option, none, some, List, [], ◌∷◌, ◌++◌, if◌then◌else◌, length,
}
use jisa.Double.{Arith}
use jisa.Core.Message.{Message}
use jisa.Replay.Format.{Bytes}
use jisa.Replay.Recorder.{
  Flush, OutStream, Recorder, write_bytes, open_recorder, is_open, write, close,
}
use jisa.Replay.Replayer.{open_replayer, is_ok, replay}
use jisa.Replay.Faults.{FaultSpec, FaultLabel, Injection, inject, kept}
use jisa.Replay.Faults.LabelLines.{Numbers, label_line}

pub record Files : Type 0 where
  pub input : Option Bytes
  pub output_opens : Bool
  pub header_io : Flush
  pub record_io : ℕ → Flush
  pub close_room : ℕ
  pub labels_opens : Bool
  pub labels_room : ℕ

-- The result, the generator's state, and what is in the files that were opened for writing.
pub record Outcome : Type 0 where
  pub success : Bool
  pub output : Option Bytes
  pub labels : Option Bytes
  pub rng_state : ℕ

-- The loop that writes: it stops at the first write that fails.
unfoldable pub write_all : (ℕ → Flush) → List Message → Recorder → Recorder × Bool
write_all io [] r = (r, true)
write_all io (m ∷ ms) r =
    let (r', done) = write (io 0) m r in
    let rest = write_all (λ i. io (suc i)) ms r' in if done then rest else (r', false)

abbrev pub opened_bytes : Bool → Recorder → Option Bytes
opened_bytes opens r = if opens then some r.file.bytes else none

module _ (numbers : Numbers) where
  -- The text of the labels file.
  abbrev pub labels_text : List FaultLabel → Bytes
  labels_text [] = []
  labels_text (l ∷ ls) = label_line numbers l ++ (10 ∷ labels_text ls)

  -- The labels file, the last that is written. It is flushed before its stream is tested, so that all of it
  -- has gone out by then.
  unfoldable pub write_labels : Files → List FaultLabel → Outcome → Outcome
  write_labels files ls o =
      let fresh : OutStream = record { bytes = []; pending = []; is_open = true; good = true } in
      let text = labels_text ls in
      let out = write_bytes (record { out = length text; room = files.labels_room }) text fresh in
      if files.labels_opens
      then record o { success = out.good; labels = some out.bytes }
      else record o { success = false }

  -- The two files that are written. The recorder's destructor closes it on every way out.
  unfoldable pub write_files : Files → Injection → Outcome
  unfolding write_all write_labels
  write_files files st =
      let out = open_recorder files.output_opens files.header_io in
      let (last, done) = write_all files.record_io (kept st.msgs st.dropped) out in
      let failed : Recorder → Outcome = λ r. record {
        success = false;
        output = opened_bytes files.output_opens (close files.close_room r);
        labels = none;
        rng_state = st.rng_state;
      } in
      if not (is_open out)
      then failed out
      else if not done
      then failed last
      else write_labels files st.labels (failed last)

  -- `none` would be a loop over the input that does not end.
  unfoldable pub inject_impl : Arith → Files → List FaultSpec → ℕ → Option Outcome
  unfolding write_files
  inject_impl fp files specs rng_state =
      let rejected : Outcome = record {
        success = false;
        output = none;
        labels = none;
        rng_state = rng_state;
      } in
      let read = replay files.input in
      if is_ok (open_replayer files.input).status
      then elim read [
        | none ↦ none
        | some p ↦ some (write_files files (inject fp p.0 specs rng_state))
      ]
      else some rejected
