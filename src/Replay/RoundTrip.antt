-- ===== src/Replay/RoundTrip.antt =====
-- include/replay/recorder.hpp and replayer.hpp together: a recorded stream is replayed.
use native.Mathlib.Decide.{dec_le}
use jisa.Prelude.{
  ◌⊎◌, inl, inr, [], ◌∷◌, ◌+◌, ◌*◌, sym, length-take, false, take-append_left, append-nil,
  Bool-cases, subst, ℕ, ◌<◌, ◌≤◌, ◌≡◌, ◌∙◌, ap, refl, true, false, some, List, ◌++◌, arith, All,
  length, length-append, take, take_all,
}
use jisa.Core.Message.{Message, IsMessage}
use jisa.Replay.Format.{record_size, header_size}
use jisa.Replay.Recorder.{Flush, Recorder, header, open_recorder, is_open, close, record_stream}
use jisa.Replay.Recorder.Laws.{
  IsReady, content, take_past, passed, torn, put_bytes-Put, Recorded, whole, cut,
  record_stream-Recorded, record_stream-bad, kept-IsMessage,
}
use jisa.Replay.Replayer.{Replayer, ok, replay}
use jisa.Replay.Replayer.Laws.{records_of}
use jisa.Replay.Parts.{replay-take, take-All, length-recording}

-- A recorder whose header was written, or lost.
pub data Opened (r : Recorder) : Type 0 where
  ready : IsReady r → content r ≡ header → r.count ≡ 0 → r.file.is_open ≡ true → Opened r
  headless :
      is_open r ≡ false
      → r.file.good ≡ false
      → r.file.pending ≡ []
      → length r.file.bytes < header_size
      → r.count ≡ 0
      → Opened r

pub open_recorder-Opened : (io : Flush) → Opened (open_recorder true io)
unfolding open_recorder is_open
open_recorder-Opened io =
    elim (put_bytes-Put io header
      (record { bytes = []; pending = []; is_open = true; good = true })) [
        | passed good opened e ↦ ready (record { opened = good; good = good }) e refl refl
        | torn t bad opened none_left e lt ↦
            headless bad bad none_left (omega (arith, lt, ap length e, length-take t header)) refl
      ]

-- What the file of a closed recorder gives when it is replayed: the first of the messages whose `write`
-- returned true; all of them, unless the device refused bytes in a write or in the flush of `close`.
pub record Replayed (kept : List Message) (last : Recorder) (room : ℕ) : Type 0 where
  pub number : ℕ
  pub replayer : Replayer
  pub yields : replay (some (close room last).file.bytes) ≡ some (take number kept, replayer)
  pub accepted : replayer.status ≡ ok
  pub counted : replayer.messages_replayed ≡ number
  pub inside : number ≤ last.count
  pub recorded : last.count ≡ length kept
  pub whole :
      (number ≡ length kept) ⊎ ((last.file.good ≡ false) ⊎ (room < length last.file.pending))

pub bytes-close :
    (room : ℕ) (r : Recorder)
    → r.file.is_open ≡ true
    → (close room r).file.bytes ≡ r.file.bytes ++ take room r.file.pending
unfolding close
bytes-close room r e = rw e refl

close-headless :
    (room : ℕ) (r : Recorder)
    → r.file.pending ≡ []
    → length (close room r).file.bytes ≡ length r.file.bytes
unfolding close
close-headless room r e = elim (Bool-cases r.file.is_open) [
  | inl is ↦ rw (is, e, take_all {A = ℕ} room [] (omega arith), append-nil r.file.bytes) refl
  | inr shut ↦ rw shut refl
]

-- Of what was written the file has all, or the device refused some.
pub Recorded-Replayed :
    (kept : List Message) (last : Recorder) (room : ℕ)
    → Recorded header kept last
    → last.file.is_open ≡ true
    → last.count ≡ length kept
    → All IsMessage kept
    → header_size ≤ length (close room last).file.bytes
    → Replayed kept last room
Recorded-Replayed kept last room (whole good e) opened count range enough =
    let l = length last.file.bytes + room in
    let file : (close room last).file.bytes ≡ take l (header ++ records_of kept) =
      bytes-close room last opened
      ∙ sym (take_past last.file.bytes last.file.pending room)
      ∙ ap (take l) e in
    let (n, r, run, accepted, counted, inside, few, all) =
      replay-take l kept (λ n h. take-All IsMessage n kept range)
        (omega (arith, enough, ap length file)) in
    record {
      number = n;
      replayer = r;
      yields = ap (λ b. replay (some b)) file ∙ run;
      accepted = accepted;
      counted = counted;
      inside = omega (arith, inside, count);
      recorded = count;
      whole = elim (dec_le (length last.file.pending) room) [
        | yes taken ↦ inl (
            all (
              omega (
                arith,
                taken,
                ap length e,
                length-append last.file.bytes last.file.pending,
                length-recording kept,
              )))
        | no refused ↦ inr (inr (omega (arith, refused)))
      ];
    }
Recorded-Replayed kept last room (cut m t bad none_left e lt) opened count range enough =
    let ks = kept ++ (m ∷ []) in
    let file : (close room last).file.bytes ≡ take t (header ++ records_of ks) =
      bytes-close room last opened
      ∙ ap (λ b. last.file.bytes ++ b) (ap (take room) none_left ∙ take_all room [] (omega arith))
      ∙ append-nil last.file.bytes
      ∙ e in
    let size : length ks ≡ length kept + 1 = length-append kept (m ∷ []) in
    let below : (n : ℕ) → header_size + n * record_size ≤ t → n ≤ length kept =
      λ n h. omega (arith, h, lt, length-recording ks, size) in
    let (n, r, run, accepted, counted, inside, few, all) =
      replay-take t ks
        (λ n h.
          subst (All IsMessage) (sym (take-append_left n kept (m ∷ []) (below n h)))
            (take-All IsMessage n kept range))
        (omega (arith, enough, ap length file)) in
    record {
      number = n;
      replayer = r;
      yields =
          ap (λ b. replay (some b)) file
          ∙ run
          ∙ ap (λ l. some (l, r)) (take-append_left n kept (m ∷ []) (below n few));
      accepted = accepted;
      counted = counted;
      inside = omega (arith, below n few, count);
      recorded = count;
      whole = inr (inl bad);
    }

pub replay-record_stream :
    (io : Flush) (ms : List (Flush × Message)) (room : ℕ)
    → All (λ p. IsMessage p.1) ms
    → let (last, kept) = record_stream ms (open_recorder true io) in
      header_size ≤ length (close room last).file.bytes → Replayed kept last room
replay-record_stream io ms room v enough =
    let r = open_recorder true io in
    elim (open_recorder-Opened io) [
      | ready good at_header none_yet opened ↦
          let (rec, count, still) = record_stream-Recorded ms r good in
          let (last, kept) = record_stream ms r in
          Recorded-Replayed kept last room (subst (λ b. Recorded b kept last) at_header rec)
            (still ∙ opened) (omega (arith, count, none_yet)) (kept-IsMessage ms r v) enough
      | headless shut bad none_left short empty ↦ absurd (
          omega (
            arith,
            short,
            enough,
            ap (λ (q : Recorder × List Message). length (close room q.0).file.bytes)
                (record_stream-bad ms r bad),
            close-headless room r none_left,
          ))
    ]
