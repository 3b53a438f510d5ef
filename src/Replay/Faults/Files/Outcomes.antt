-- ===== src/Replay/Faults/Files/Outcomes.antt =====
-- include/replay/fault_injector.hpp: when the two files are written, and what is in them then.
use jisa.Prelude.{
  ℕ, suc, ◌+◌, ◌≤◌, ◌<◌, ◌≡◌, refl, sym, ap, subst, ◌∙◌, ◌⊎◌, inl, inr, true, false, none, some,
  List, [], ◌∷◌, ◌++◌, append-nil, append_assoc, arith, Bool-cases, le→leb, le→leb_false, length,
  take, take_all, length-append, min,
}
use native.Mathlib.Decide.{dec_le}
use jisa.Core.Message.{Message}
use jisa.Replay.Format.{Bytes}
use jisa.Replay.Recorder.{Flush, Recorder, header, open_recorder, is_open, close}
use jisa.Replay.Recorder.Laws.{IsReady, content, take_past, stored, lost, write-Wrote}
use jisa.Replay.RoundTrip.{ready, headless, open_recorder-Opened, bytes-close}
use jisa.Replay.Replayer.Laws.{records_of}
use jisa.Replay.Faults.{Injection, kept}
use jisa.Replay.Faults.LabelLines.{Numbers}
use jisa.Replay.Faults.Files.{Files, Outcome, write_all, labels_text, write_labels, write_files}

-- A run of writes that all returned true.
record Written (ms : List Message) (r last : Recorder) : Type 0 where
  full : content last ≡ content r ++ records_of ms
  opened : last.file.is_open ≡ r.file.is_open

write_all-Written :
    (io : ℕ → Flush) (ms : List Message) (r : Recorder)
    → IsReady r
    → (((write_all io ms r).1 ≡ true) × Written ms r (write_all io ms r).0)
      ⊎ ((write_all io ms r).1 ≡ false)
unfolding write_all
write_all-Written io [] r v =
    inl (refl, record { full = sym (append-nil (content r)); opened = refl })
write_all-Written io (m ∷ ms) r v = elim (write-Wrote (io 0) m r v) [
  | lost t failed bad none_left e lt count opened ↦ inr (rw failed refl)
  | stored done after e count opened ↦ elim (write_all-Written (λ i. io (suc i)) ms _ after) [
    | inl (all, w) ↦ inl (
      rw done all,
      rw done (record {
        full = w.full ∙ ap (λ b. b ++ records_of ms) e ∙ append_assoc (content r) _ (records_of ms);
        opened = w.opened ∙ opened;
      }),
    )
    | inr failed ↦ inr (rw done failed)
  ]
]

pub false-true : false ≡ true → ⊥
false-true e = ground arith

shut_recorder : (io : Flush) → is_open (open_recorder false io) ≡ false
unfolding is_open open_recorder
shut_recorder io = refl

-- The recorder after the last write, before it is closed.
abbrev pub recorded : Files → Injection → Recorder
recorded files st =
    (write_all files.record_io (kept st.msgs st.dropped) (open_recorder true files.header_io)).0

-- What inject_impl has written when it returns true. Its output is what the device took, all of the recording
-- unless the flush of `close` lost some of it unnoticed.
pub record Complete (numbers : Numbers) (files : Files) (st : Injection) (o : Outcome)
    : Type 0 where
  pub success : o.success ≡ true
  pub full : content (recorded files st) ≡ header ++ records_of (kept st.msgs st.dropped)
  pub output :
      o.output
      ≡ some (
          take
            (length (recorded files st).file.bytes + files.close_room)
            (header ++ records_of (kept st.msgs st.dropped)))
  pub whole :
      (o.output ≡ some (header ++ records_of (kept st.msgs st.dropped)))
      ⊎ (files.close_room < length (recorded files st).file.pending)
  pub labels : o.labels ≡ some (labels_text numbers st.labels)

-- Why inject_impl returns false once its input is read: a file cannot be opened, the stream is bad after the
-- header, a write returned false, or the device refused a part of the labels.
pub data Refused (numbers : Numbers) (files : Files) (st : Injection) : Type 0 where
  output_shut : files.output_opens ≡ false → Refused numbers files st
  header_torn : is_open (open_recorder true files.header_io) ≡ false → Refused numbers files st
  record_torn :
      (write_all files.record_io (kept st.msgs st.dropped) (open_recorder true files.header_io)).1
        ≡ false
      → Refused numbers files st
  labels_shut : files.labels_opens ≡ false → Refused numbers files st
  labels_torn :
      files.labels_room < length (labels_text numbers st.labels) → Refused numbers files st

module _ (numbers : Numbers) (files : Files) (st : Injection) where
  abbrev Outcomes : Outcome → Type 0
  Outcomes o = Complete numbers files st o ⊎ ((o.success ≡ false) × Refused numbers files st)

  abbrev recording : Bytes
  recording = header ++ records_of (kept st.msgs st.dropped)

  -- The labels, once the output is written.
  write_labels-Complete :
      (o : Outcome)
      → content (recorded files st) ≡ recording
      → (recorded files st).file.is_open ≡ true
      → o.output ≡ some (close files.close_room (recorded files st)).file.bytes
      → Outcomes (write_labels numbers files st.labels o)
  unfolding write_labels
  write_labels-Complete o full opened e = elim (Bool-cases files.labels_opens) [
    | inr shut ↦ inr (rw shut refl, labels_shut shut)
    | inl open_labels ↦
        let text = labels_text numbers st.labels in
        let all : min (length text) (length text) ≡ length text = omega arith in
        elim (dec_le (length text) files.labels_room) [
          | no few ↦ inr (
            rw (open_labels, all, le→leb_false (length text) files.labels_room (omega (arith, few)))
                refl,
            labels_torn (omega (arith, few)),
          )
          | yes fits ↦
              let last = recorded files st in
              let l = length last.file.bytes + files.close_room in
              let output : o.output ≡ some (take l recording) =
                e
                ∙ ap some (
                    bytes-close files.close_room last opened
                    ∙ sym (take_past last.file.bytes last.file.pending files.close_room)
                    ∙ ap (take l) full) in
              inl (record {
                success = rw (open_labels, all, le→leb _ _ fits) refl;
                full = full;
                output = rw open_labels output;
                whole = elim (dec_le (length last.file.pending) files.close_room) [
                  | no less ↦ inr (omega (arith, less))
                  | yes taken ↦ inl (
                      rw open_labels (
                        output
                        ∙ ap some (
                            take_all l recording (
                              omega (
                                arith,
                                taken,
                                ap length full,
                                length-append last.file.bytes last.file.pending,
                              )))))
                ];
                labels = rw (open_labels, all, labels_taken text fits) refl;
              })
        ]
  ]
    where
      labels_taken :
          (text : Bytes)
          → length text ≤ files.labels_room
          → take (min (length text) files.labels_room) text ≡ text
      labels_taken text fits = take_all _ text (omega (arith, fits))

  -- Whatever the environment does, the two files come out in one of these ways.
  pub write_files-Complete : Outcomes (write_files numbers files st)
  unfolding write_files
  write_files-Complete = elim (Bool-cases files.output_opens) [
    | inr shut ↦ inr (rw (shut, shut_recorder files.header_io) refl, output_shut shut)
    | inl opens ↦ elim (open_recorder-Opened files.header_io) [
      | headless shut bad none_left short empty ↦ inr (rw (opens, shut) refl, header_torn shut)
      | ready good at_header none_yet opened ↦
          elim (write_all-Written files.record_io (kept st.msgs st.dropped)
            (open_recorder true files.header_io) good) [
              | inr failed ↦ inr (rw (opens, good.opened, failed) refl, record_torn failed)
              | inl (all, w) ↦
                  let o : Outcome = record {
                    success = false;
                    output = some (close files.close_room (recorded files st)).file.bytes;
                    labels = none;
                    rng_state = st.rng_state;
                  } in
                  let same : write_files numbers files st ≡ write_labels numbers files st.labels o =
                    rw (opens, good.opened, all) refl in
                  subst Outcomes (sym same) (
                    write_labels-Complete o
                      (w.full ∙ ap (λ b. b ++ records_of (kept st.msgs st.dropped)) at_header)
                      (w.opened ∙ opened) refl)
            ]
    ]
  ]
