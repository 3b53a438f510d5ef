-- ===== src/Replay/Replayer/Laws.antt =====
-- include/replay/replayer.hpp: what reading a file to the end yields.
use jisa.Prelude.{
  ℕ, zero, suc, ◌+◌, ◌*◌, ◌/◌, ◌%◌, ◌<◌, ◌≡◌, ◌∙◌, ap, refl, Bool, true, false, Option, none, some,
  inl, inr, List, [], ◌∷◌, ◌++◌, arith, ltb, ◌==◌, if◌then◌else◌, Bool-cases, ==_iff, ltb-false→le,
  lt→ltb, le→ltb-false, append_assoc, All, length, take, drop, length-append, length-take,
  length-drop, take_all, drop_all,
}
use jisa.Core.Message.{Message, IsMessage}
use jisa.Replay.Format.{Bytes, record_size, encode_record, decode_record}
use jisa.Replay.Format.Laws.{
  length-encode_record, decode_record-encode_record, take-encode_record, drop-encode_record,
}
use jisa.Replay.Replayer.{ok, Replayer, next, drain, push_front}

-- The replayer past a whole record, and past the end of the file.
abbrev advance : Replayer → Replayer
advance r = record r { file = drop record_size r.file; messages_replayed = r.messages_replayed + 1 }

abbrev finish : Replayer → Replayer
finish r = record r { file = []; truncated = if ltb 0 (length r.file) then true else r.truncated }

abbrev first_record : Replayer → Message
first_record r = decode_record (take record_size r.file)

next-advance :
    (r : Replayer)
    → r.status ≡ ok
    → ltb (length r.file) record_size ≡ false
    → next r ≡ (some (first_record r), advance r)
unfolding next
next-advance r e h = rw (
  e,
  (==_iff (length (take record_size r.file)) record_size).1
      (omega (arith, length-take record_size r.file, ltb-false→le _ _ h)),
)

next-finish :
    (r : Replayer)
    → r.status ≡ ok
    → ltb (length r.file) record_size ≡ true
    → next r ≡ (none, finish r)
unfolding next
next-finish r e h =
    ground (
      arith,
      take_all record_size r.file (ground arith),
      drop_all record_size r.file (ground arith),
    )

drain-finish :
    (fuel : ℕ) (r : Replayer) {r' : Replayer}
    → next r ≡ (none, r')
    → drain (suc fuel) r ≡ some ([], r')
unfolding drain
drain-finish fuel r e =
    ap
      (λ (t : Option Message × Replayer). elim t.0 [
        | none ↦ some ([], t.1)
        | some x ↦ push_front x (drain fuel t.1)
      ])
      e

drain-advance :
    (fuel : ℕ) (r : Replayer) {r' : Replayer} {m : Message}
    → next r ≡ (some m, r')
    → drain (suc fuel) r ≡ push_front m (drain fuel r')
unfolding drain
drain-advance fuel r e =
    ap
      (λ (t : Option Message × Replayer). elim t.0 [
        | none ↦ some ([], t.1)
        | some x ↦ push_front x (drain fuel t.1)
      ])
      e

-- What reading to the end leaves: a message for each whole record, and the mark of a torn one.
pub record Drained (r : Replayer) (ms : List Message) (last : Replayer) : Type 0 where
  pub records : length ms ≡ length r.file / record_size
  pub replayed : last.messages_replayed ≡ r.messages_replayed + length ms
  pub torn : last.truncated ≡ (if length r.file % record_size == 0 then r.truncated else true)
  pub accepted : last.status ≡ ok

-- From an accepted header, reading to the end ends once the fuel is above the number of records: it
-- yields a message for each 64 bytes, counts them, and marks the stream truncated exactly when bytes
-- are left over (or it was marked before).
pub drain-Drained :
    (fuel : ℕ) (r : Replayer)
    → r.status ≡ ok
    → length r.file < fuel * record_size
    → (ms : List Message) × (last : Replayer) × (drain fuel r ≡ some (ms, last)) × Drained r ms last
drain-Drained zero r e h = absurd (omega arith)
drain-Drained (suc fuel) r e h = elim (Bool-cases (ltb (length r.file) record_size)) [
  | inl short ↦ (
    [],
    finish r,
    drain-finish fuel r (next-finish r e short),
    record { records = ground arith; replayed = omega arith; torn = ground arith; accepted = e },
  )
  | inr whole ↦
      let same_tail : length (drop record_size r.file) % record_size ≡ length r.file % record_size =
        omega (arith, length-drop record_size r.file, ltb-false→le _ _ whole) in
      let (ms, last, run, d) =
        drain-Drained fuel (advance r) e
          (omega (arith, length-drop record_size r.file, ltb-false→le _ _ whole)) in
      (
        first_record r ∷ ms,
        last,
        drain-advance fuel r (next-advance r e whole) ∙ ap (push_front (first_record r)) run,
        record {
          records =
              omega (arith, d.records, length-drop record_size r.file, ltb-false→le _ _ whole);
          replayed = omega (arith, d.replayed);
          torn = d.torn ∙ ap (λ n. if n == 0 then r.truncated else true) same_tail;
          accepted = d.accepted;
        },
      )
]

-- Records written back to back.
abbrev pub records_of : List Message → Bytes
records_of [] = []
records_of (m ∷ ms) = encode_record m ++ records_of ms

pub length-records_of : (ms : List Message) → length (records_of ms) ≡ record_size * length ms
length-records_of [] = omega arith
length-records_of (m ∷ ms) = omega (
  arith,
  length-append (encode_record m) (records_of ms),
  length-encode_record m,
  length-records_of ms,
)

abbrev pub at_end : List Message → Bytes → ℕ → Bool → Replayer
at_end ms tail n t = record {
  file = [];
  status = ok;
  messages_replayed = n + length ms;
  truncated = if ltb 0 (length tail) then true else t;
}

-- They are read back in order, up to a torn one at the end.
pub drain-records_of :
    (fuel : ℕ) (ms : List Message) (tail : Bytes) (n : ℕ) (t : Bool)
    → All IsMessage ms
    → length tail < record_size
    → length ms < fuel
    → drain fuel
        (record { file = records_of ms ++ tail; status = ok; messages_replayed = n; truncated = t })
      ≡ some (ms, at_end ms tail n t)
drain-records_of zero ms tail n t v h lt = absurd (omega arith)
drain-records_of (suc fuel) [] tail n t v h lt =
    drain-finish fuel _ (next-finish _ refl (lt→ltb _ _ h))
    ∙ ap (λ k. some ([], record (at_end [] tail n t) { messages_replayed = k })) add_nothing
  where
    add_nothing : n ≡ n + 0
    add_nothing = omega arith
drain-records_of (suc fuel) (m ∷ ms) tail n t v h lt =
    rw (append_assoc (encode_record m) (records_of ms) tail) (
      drain-advance _ _ (next-advance _ refl whole)
      ∙ rw (take-encode_record, drop-encode_record, decode_record-encode_record m v.0)
          (ap (push_front m) (drain-records_of fuel ms tail (n + 1) t v.1 h (omega arith))
            ∙ ap (λ k. some (m ∷ ms, record (at_end [] tail n t) { messages_replayed = k }))
                one_more))
  where
    after : Bytes
    after = records_of ms ++ tail

    whole : ltb (length (encode_record m ++ after)) record_size ≡ false
    whole =
        le→ltb-false _ record_size
          (omega (arith, length-append (encode_record m) after, length-encode_record m))

    one_more : n + 1 + length ms ≡ n + length (m ∷ ms)
    one_more = omega arith
