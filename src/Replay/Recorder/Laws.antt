-- ===== src/Replay/Recorder/Laws.antt =====
-- include/replay/recorder.hpp: what a sequence of writes leaves in the stream.
use jisa.Prelude.{
  ℕ, zero, suc, ◌+◌, ◌<◌, ◌≡◌, ◌∙◌, ap, refl, Bool, true, false, List, [], ◌∷◌, ◌++◌, append-nil,
  append_assoc, arith, le→leb, le→leb_false, All, length, take, drop, length-append, if◌then◌else◌,
  sym, min, subst,
}
use native.Mathlib.Decide.{dec_le}
use jisa.Core.Message.{Message, IsMessage}
use jisa.Replay.Format.{Bytes, encode_record}
use jisa.Replay.Recorder.{
  Flush, OutStream, Recorder, going, put_bytes, is_open, write, record_stream,
}
use jisa.Replay.Replayer.Laws.{records_of}

-- A recorder that accepts writes.
pub record IsReady (r : Recorder) : Type 0 where
  pub opened : is_open r ≡ true
  pub good : r.file.good ≡ true

-- What was written, whether the file has it or not yet.
abbrev pub content : Recorder → Bytes
content r = r.file.bytes ++ r.file.pending

take-drop : {A : Type 0} (n : ℕ) (xs : List A) → take n xs ++ drop n xs ≡ xs
take-drop zero xs = refl
take-drop (suc n) [] = refl
take-drop (suc n) (x ∷ xs) = ap (λ l. x ∷ l) (take-drop n xs)

pub take_past :
    {A : Type 0} (xs ys : List A) (n : ℕ) → take (length xs + n) (xs ++ ys) ≡ xs ++ take n ys
take_past [] ys n = ap (λ (k : ℕ). take k ys) {x = 0 + n} {y = n} (omega arith)
take_past (x ∷ xs) ys n =
    ap (λ (k : ℕ). take k (x ∷ (xs ++ ys))) {x = suc (length xs) + n} {y = suc (length xs + n)}
      (omega arith)
    ∙ ap (λ l. x ∷ l) (take_past xs ys n)

-- A write on a good stream: nothing is lost, or the device took too little of what went out.
pub data Put (io : Flush) (bs : Bytes) (f : OutStream) : OutStream → Type 0 where
  passed :
      {f' : OutStream}
      → f'.good ≡ true
      → f'.is_open ≡ f.is_open
      → f'.bytes ++ f'.pending ≡ (f.bytes ++ f.pending) ++ bs
      → Put io bs f f'
  torn :
      {f' : OutStream} (t : ℕ)
      → f'.good ≡ false
      → f'.is_open ≡ f.is_open
      → f'.pending ≡ []
      → f'.bytes ≡ take t ((f.bytes ++ f.pending) ++ bs)
      → t < length ((f.bytes ++ f.pending) ++ bs)
      → Put io bs f f'

pub put_bytes-Put : (io : Flush) (bs : Bytes) (f : OutStream) → Put io bs f (put_bytes io bs f)
put_bytes-Put io bs f =
    let all = f.pending ++ bs in
    let n = going io all in
    let assoc = append_assoc f.bytes f.pending bs in
    elim (dec_le n io.room) [
      | yes fits ↦
          let same : min n io.room ≡ n = omega (arith, fits) in
          passed (le→leb n io.room fits) refl (
            rw (le→leb n io.room fits, same)
              (append_assoc f.bytes (take n all) (drop n all)
                ∙ ap (λ l. f.bytes ++ l) (take-drop n all)
                ∙ sym assoc))
      | no short ↦
          let same : min n io.room ≡ io.room = omega (arith, short) in
          let wrong = le→leb_false n io.room (omega (arith, short)) in
          torn (length f.bytes + io.room) wrong refl (rw wrong refl)
            (rw same
              (sym (ap (take (length f.bytes + io.room)) assoc ∙ take_past f.bytes all io.room)))
            (omega (arith, short, ap length assoc, length-append f.bytes all))
    ]

-- What a run of writes has done to a recorder that had written `was`: the messages that it kept are written
-- behind that, in order; or the stream is bad, and the file has a part of that and of one message more.
pub data Recorded (was : Bytes) (kept : List Message) (last : Recorder) : Type 0 where
  whole : last.file.good ≡ true → content last ≡ was ++ records_of kept → Recorded was kept last
  cut :
      (m : Message) (t : ℕ)
      → last.file.good ≡ false
      → last.file.pending ≡ []
      → last.file.bytes ≡ take t (was ++ records_of (kept ++ (m ∷ [])))
      → t < length (was ++ records_of (kept ++ (m ∷ [])))
      → Recorded was kept last

-- The streams of `write`.
abbrev written : Flush → Message → Recorder → OutStream
written io m r = put_bytes io (encode_record m) r.file

write-good :
    (io : Flush) (m : Message) (r : Recorder)
    → IsReady r
    → (written io m r).good ≡ true
    → write io m r ≡ (record r { file = written io m r; count = r.count + 1 }, true)
unfolding write
write-good io m r v e = rw (v.good, v.opened, e) refl

write-torn :
    (io : Flush) (m : Message) (r : Recorder)
    → IsReady r
    → (written io m r).good ≡ false
    → write io m r ≡ (record r { file = written io m r }, false)
unfolding write
write-torn io m r v e = rw (v.good, v.opened, e) refl

-- One write.
pub data Wrote (m : Message) (r r' : Recorder) (done : Bool) : Type 0 where
  stored :
      done ≡ true
      → IsReady r'
      → content r' ≡ content r ++ encode_record m
      → r'.count ≡ r.count + 1
      → r'.file.is_open ≡ r.file.is_open
      → Wrote m r r' done
  lost :
      (t : ℕ)
      → done ≡ false
      → r'.file.good ≡ false
      → r'.file.pending ≡ []
      → r'.file.bytes ≡ take t (content r ++ encode_record m)
      → t < length (content r ++ encode_record m)
      → r'.count ≡ r.count
      → r'.file.is_open ≡ r.file.is_open
      → Wrote m r r' done

pub write-Wrote :
    (io : Flush) (m : Message) (r : Recorder)
    → IsReady r
    → Wrote m r (write io m r).0 (write io m r).1
unfolding is_open
write-Wrote io m r v = elim (put_bytes-Put io (encode_record m) r.file) [
  | passed good opened e ↦
      rw (write-good io m r v good)
        (stored refl (record { opened = v.opened; good = good }) e refl refl)
  | torn t bad opened none_left e lt ↦
      rw (write-torn io m r v bad) (lost t refl bad none_left e lt refl refl)
]

pub write-bad :
    (io : Flush) (m : Message) (r : Recorder) → r.file.good ≡ false → write io m r ≡ (r, false)
unfolding write
write-bad io m r e = rw e (ground arith)

pub record_stream-bad :
    (ms : List (Flush × Message)) (r : Recorder)
    → r.file.good ≡ false
    → record_stream ms r ≡ (r, [])
unfolding record_stream
record_stream-bad [] r e = refl
record_stream-bad ((io, m) ∷ ms) r e = rw (write-bad io m r e, record_stream-bad ms r e) refl

Recorded-cons :
    (was : Bytes) (m : Message) (ks : List Message) (last : Recorder)
    → Recorded (was ++ encode_record m) ks last
    → Recorded was (m ∷ ks) last
Recorded-cons was m ks last (whole good e) =
    whole good (e ∙ append_assoc was (encode_record m) (records_of ks))
Recorded-cons was m ks last (cut x t bad none_left e lt) =
    let assoc = append_assoc was (encode_record m) (records_of (ks ++ (x ∷ []))) in
    cut x t bad none_left (e ∙ ap (take t) assoc) (omega (arith, lt, ap length assoc))

-- A run of writes, whatever the environment does in them.
pub record_stream-Recorded :
    (ms : List (Flush × Message)) (r : Recorder)
    → IsReady r
    → let (last, ks) = record_stream ms r in
      Recorded (content r) ks last
      × (last.count ≡ r.count + length ks)
      × (last.file.is_open ≡ r.file.is_open)
unfolding record_stream
record_stream-Recorded [] r v = (whole v.good (sym (append-nil (content r))), omega arith, refl)
record_stream-Recorded ((io, m) ∷ ms) r v = elim (write-Wrote io m r v) [
  | stored done ready e count opened ↦
      let r' = (write io m r).0 in
      let (rec, counted, still) = record_stream-Recorded ms r' ready in
      let (last, ks) = record_stream ms r' in
      rw done (
        Recorded-cons (content r) m ks last (subst (λ b. Recorded b ks last) e rec),
        omega (arith, counted, count),
        still ∙ opened,
      )
  | lost t failed bad none_left e lt count opened ↦
      let r' = (write io m r).0 in
      let one = ap (λ b. content r ++ b) (sym (append-nil (encode_record m))) in
      rw (failed, record_stream-bad ms r' bad)
        (
          cut m t bad none_left (e ∙ ap (take t) one) (omega (arith, lt, ap length one)),
          omega (arith, count),
          opened,
        )
]

-- What was kept is in range if all that was offered is.
pub kept-IsMessage :
    (ms : List (Flush × Message)) (r : Recorder)
    → All (λ p. IsMessage p.1) ms
    → All IsMessage (record_stream ms r).1
unfolding record_stream
kept-IsMessage [] r v = tt
kept-IsMessage ((io, m) ∷ ms) r v =
    let (r', done) = write io m r in keep done (record_stream ms r').1 (kept-IsMessage ms r' v.1)
  where
    keep :
        (done : Bool) (kept : List Message)
        → All IsMessage kept
        → All IsMessage (if done then m ∷ kept else kept)
    keep true kept k = (v.0, k)
    keep false kept k = k
