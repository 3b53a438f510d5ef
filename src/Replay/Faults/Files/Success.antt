-- ===== src/Replay/Faults/Files/Success.antt =====
-- include/replay/fault_injector.hpp: what inject_impl comes to, and the files read again.
use jisa.Prelude.{
  ℕ, suc, ◌≡◌, refl, sym, ap, ◌∙◌, inl, inr, true, false, Option, none, some, List, [], ◌∷◌, ◌++◌,
  map, arith, Bool-cases, length, All, length-drop, ◌+◌, ◌≤◌, ◌<◌, ◌⊎◌, take, length-take,
  length-append,
}
use jisa.Double.{Arith}
use jisa.Core.Message.{Message, IsMessage}
use jisa.Replay.Format.{Bytes, header_size}
use jisa.Replay.Recorder.{header}
use native.Mathlib.Decide.{dec_le}
use jisa.Replay.Parts.{replay-take, take-All, length-recording}
use jisa.Replay.Replayer.{
  Replayer, Status, ok, file_not_found, bad_magic, unsupported_version, open_replayer, is_ok,
  replay,
}
use jisa.Replay.Replayer.Laws.{records_of, drain-Drained}
use jisa.Replay.Faults.{FaultSpec, FaultLabel, Injection, inject, kept}
use jisa.Replay.Faults.LabelLines.{Numbers, label_line, read_labels}
use jisa.Replay.Faults.Files.{Files, Outcome, labels_text, write_files, inject_impl}
use jisa.Prelude.Text.{Lacks, lines, lines_from, lines-append}
use jisa.Replay.Faults.Labels.{Scans, read_labels-label_line}
use jisa.Replay.Faults.Files.Outcomes.{
  Complete, Refused, recorded, false-true, write_files-Complete,
}

-- What a run of inject_impl comes to.
pub data Ran (numbers : Numbers) (fp : Arith) (files : Files) (specs : List FaultSpec)
    (rng_state : ℕ) (o : Outcome) : Type 0 where
  rejected :
      is_ok (open_replayer files.input).status ≡ false
      → o ≡ record { success = false; output = none; labels = none; rng_state = rng_state }
      → Ran numbers fp files specs rng_state o
  complete :
      (msgs : List Message) (last : Replayer)
      → replay files.input ≡ some (msgs, last)
      → Complete numbers files (inject fp msgs specs rng_state) o
      → Ran numbers fp files specs rng_state o
  failed :
      (msgs : List Message) (last : Replayer)
      → replay files.input ≡ some (msgs, last)
      → o.success ≡ false
      → Refused numbers files (inject fp msgs specs rng_state)
      → Ran numbers fp files specs rng_state o

is_ok_iff : (s : Status) → is_ok s ≡ true → s ≡ ok
is_ok_iff ok e = refl
is_ok_iff file_not_found e = absurd (false-true e)
is_ok_iff bad_magic e = absurd (false-true e)
is_ok_iff unsupported_version e = absurd (false-true e)

replay_returns :
    (input : Option Bytes)
    → is_ok (open_replayer input).status ≡ true
    → (msgs : List Message) × (last : Replayer) × (replay input ≡ some (msgs, last))
unfolding open_replayer replay
replay_returns none e = absurd (false-true e)
replay_returns (some bytes) e =
    let (msgs, last, run, _) =
      drain-Drained (suc (length bytes)) (open_replayer (some bytes)) (is_ok_iff _ e)
        (omega (arith, length-drop header_size bytes)) in
    (msgs, last, run)

pub inject_impl-Ran :
    (numbers : Numbers) (fp : Arith) (files : Files) (specs : List FaultSpec) (rng_state : ℕ)
    → (o : Outcome) × (inject_impl numbers fp files specs rng_state ≡ some o)
      × Ran numbers fp files specs rng_state o
unfolding inject_impl
inject_impl-Ran numbers fp files specs rng_state =
    elim (Bool-cases (is_ok (open_replayer files.input).status)) [
      | inr not_ok ↦ (
        record { success = false; output = none; labels = none; rng_state = rng_state },
        rw not_ok refl,
        Ran.rejected not_ok refl,
      )
      | inl accepted ↦
          let (msgs, last, run) = replay_returns files.input accepted in
          let st = inject fp msgs specs rng_state in
          (
            write_files numbers files st,
            rw (accepted, run) refl,
            elim (write_files-Complete numbers files st) [
              | inl v ↦ Ran.complete msgs last run v
              | inr (unsuccessful, why) ↦ Ran.failed msgs last run unsuccessful why
            ],
          )
    ]

module _ (numbers : Numbers) where
  labels_text-lines :
      (ls : List FaultLabel)
      → All (λ l. Lacks 10 (label_line numbers l)) ls
      → lines (labels_text numbers ls) ≡ map (label_line numbers) ls
  unfolding lines lines_from
  labels_text-lines [] v = refl
  labels_text-lines (l ∷ ls) v =
      lines-append (label_line numbers l) (labels_text numbers ls) v.0
      ∙ ap (λ x. label_line numbers l ∷ x) (labels_text-lines ls v.1)

-- What is read of the files that were written.
pub record Reread (numbers : Numbers) (files : Files) (st : Injection) (o : Outcome) : Type 0 where
  pub number : ℕ
  pub replayer : Replayer
  pub output : replay o.output ≡ some (take number (kept st.msgs st.dropped), replayer)
  pub accepted : replayer.status ≡ ok
  pub whole :
      (number ≡ length (kept st.msgs st.dropped))
      ⊎ (files.close_room < length (recorded files st).file.pending)
  pub text : Bytes
  pub labels : o.labels ≡ some text
  pub read : read_labels numbers (lines text) ≡ st.labels

Complete-Reread :
    (numbers : Numbers) (files : Files) (st : Injection) (o : Outcome)
    → Complete numbers files st o
    → header_size ≤ length (recorded files st).file.bytes + files.close_room
    → All IsMessage (kept st.msgs st.dropped)
    → All (Scans numbers) st.labels
    → All (λ l. Lacks 10 (label_line numbers l)) st.labels
    → Reread numbers files st o
Complete-Reread numbers files st o v there range scans one_line =
    let ms = kept st.msgs st.dropped in
    let last = recorded files st in
    let l = length last.file.bytes + files.close_room in
    let total = length-recording ms in
    let (n, r, run, accepted, counted, inside, few, all) =
      replay-take l ms (λ n h. take-All IsMessage n ms range)
        (omega (arith, there, total, length-take l (header ++ records_of ms))) in
    record {
      number = n;
      replayer = r;
      output = ap replay v.output ∙ run;
      accepted = accepted;
      whole = elim (dec_le (length last.file.pending) files.close_room) [
        | no less ↦ inr (omega (arith, less))
        | yes taken ↦ inl (
            all (
              omega (
                arith,
                taken,
                ap length v.full,
                total,
                length-append last.file.bytes last.file.pending,
              )))
      ];
      text = labels_text numbers st.labels;
      labels = v.labels;
      read =
          ap (read_labels numbers) (labels_text-lines numbers st.labels one_line)
          ∙ read_labels-label_line numbers st.labels scans;
    }

pub replay-write_files :
    (numbers : Numbers) (files : Files) (st : Injection)
    → (write_files numbers files st).success ≡ true
    → header_size ≤ length (recorded files st).file.bytes + files.close_room
    → All IsMessage (kept st.msgs st.dropped)
    → All (Scans numbers) st.labels
    → All (λ l. Lacks 10 (label_line numbers l)) st.labels
    → Reread numbers files st (write_files numbers files st)
replay-write_files numbers files st success there range scans one_line =
    elim (write_files-Complete numbers files st) [
      | inr (bad, why) ↦ absurd (false-true (sym bad ∙ success))
      | inl v ↦
          Complete-Reread numbers files st (write_files numbers files st) v there range scans
            one_line
    ]
