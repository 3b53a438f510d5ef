-- ===== src/Replay/Parts.antt =====
-- include/replay/record_format.hpp and replayer.hpp: a recording, or a part of one, is replayed.
use native.Mathlib.Decide.{dec_le}
use jisa.Prelude.{
  [], ◌∷◌, ◌+◌, ◌*◌, ◌-◌, sym, append_assoc, length-take, false, zero, ℕ, suc, ◌<◌, ◌≤◌, ◌≡◌, ◌∙◌,
  ap, refl, false, some, List, ◌++◌, arith, All, length, length-append, take, take_all,
}
use jisa.Core.Message.{Message, IsMessage}
use jisa.Replay.Format.{Bytes, record_size, header_size, put_u32, get_u32}
use jisa.Replay.Recorder.{header}
use jisa.Replay.Format.Laws.{length-encode_record}
use jisa.Replay.Format.{encode_record}
use jisa.Replay.Recorder.Laws.{take_past}
use jisa.Replay.Replayer.{Replayer, ok, check_header, open_replayer, replay}
use jisa.Replay.Replayer.Laws.{records_of, length-records_of, at_end, drain-records_of}

-- The replayer accepts the header that the recorder writes.
check_header-header : (rest : Bytes) → check_header (take header_size (header ++ rest)) ≡ ok
unfolding check_header put_u32 get_u32
check_header-header rest = refl

pub replay-records_of :
    (ms : List Message) (tail : Bytes)
    → All IsMessage ms
    → length tail < record_size
    → replay (some (header ++ (records_of ms ++ tail))) ≡ some (ms, at_end ms tail 0 false)
unfolding replay open_replayer put_u32
replay-records_of ms tail v h =
    rw (check_header-header (records_of ms ++ tail)) (drain-records_of _ ms tail 0 false v h enough)
  where
    enough : length ms < suc (length (header ++ (records_of ms ++ tail)))
    enough = omega (arith, length-append (records_of ms) tail, length-records_of ms)

-- A part of the records of some messages: whole records, and less than one.
record Cut (l : ℕ) (ms : List Message) : Type 0 where
  number : ℕ
  tail : Bytes
  bytes : take l (records_of ms) ≡ records_of (take number ms) ++ tail
  short : length tail < record_size
  inside : number ≤ length ms
  few : number * record_size ≤ l
  all : length ms * record_size ≤ l → number ≡ length ms

records_of-Cut : (l : ℕ) (ms : List Message) → Cut l ms
records_of-Cut l [] = record {
  number = 0;
  tail = [];
  bytes = take_all l [] (omega arith);
  short = omega arith;
  inside = omega arith;
  few = omega arith;
  all = λ h. refl;
}
records_of-Cut l (m ∷ ms) = elim (dec_le record_size l) [
  | no less ↦ record {
    number = 0;
    tail = take l (records_of (m ∷ ms));
    bytes = refl;
    short = omega (arith, less, length-take l (records_of (m ∷ ms)));
    inside = omega arith;
    few = omega arith;
    all = λ h. absurd (omega (arith, h, less));
  }
  | yes enough ↦
      let rest = records_of-Cut (l - record_size) ms in
      let size = length-encode_record m in
      let at : l ≡ length (encode_record m) + (l - record_size) = omega (arith, size, enough) in
      record {
        number = suc rest.number;
        tail = rest.tail;
        bytes =
            ap (λ n. take n (records_of (m ∷ ms))) at
            ∙ take_past (encode_record m) (records_of ms) (l - record_size)
            ∙ ap (λ b. encode_record m ++ b) rest.bytes
            ∙ sym (append_assoc (encode_record m) (records_of (take rest.number ms)) rest.tail);
        short = rest.short;
        inside = omega (arith, rest.inside);
        few = omega (arith, rest.few, enough);
        all = λ h. omega (arith, rest.all (omega (arith, h)));
      }
]

pub take-All : (P : Message → Type 0) (n : ℕ) (ms : List Message) → All P ms → All P (take n ms)
take-All P zero ms v = tt
take-All P (suc n) [] v = tt
take-All P (suc n) (m ∷ ms) v = (v.0, take-All P n ms v.1)

-- A part of a recording that holds its header.
pub replay-take :
    (l : ℕ) (ms : List Message)
    → ((n : ℕ) → header_size + n * record_size ≤ l → All IsMessage (take n ms))
    → header_size ≤ length (take l (header ++ records_of ms))
    → (n : ℕ) × (r : Replayer) × (replay (some (take l (header ++ records_of ms)))
        ≡ some (take n ms, r))
      × (r.status ≡ ok)
      × (r.messages_replayed ≡ n)
      × (n ≤ length ms)
      × (header_size + n * record_size ≤ l)
      × (header_size + length ms * record_size ≤ l → n ≡ length ms)
unfolding put_u32
replay-take l ms v enough =
    let past : header_size ≤ l = omega (arith, enough, length-take l (header ++ records_of ms)) in
    let c = records_of-Cut (l - header_size) ms in
    let at : l ≡ length header + (l - header_size) = omega (arith, past) in
    let few : header_size + c.number * record_size ≤ l = omega (arith, c.few, past) in
    let bytes : take l (header ++ records_of ms)
        ≡ header ++ (records_of (take c.number ms) ++ c.tail) =
      ap (λ n. take n (header ++ records_of ms)) at
      ∙ take_past header (records_of ms) (l - header_size)
      ∙ ap (λ b. header ++ b) c.bytes in
    (
      c.number,
      at_end (take c.number ms) c.tail 0 false,
      ap (λ b. replay (some b)) bytes
          ∙ replay-records_of (take c.number ms) c.tail (v c.number few) c.short,
      refl,
      omega (arith, length-take c.number ms, c.inside),
      c.inside,
      few,
      λ h. c.all (omega (arith, h)),
    )

pub length-recording :
    (ms : List Message) → length (header ++ records_of ms) ≡ header_size + length ms * record_size
unfolding put_u32
length-recording ms = omega (arith, length-append header (records_of ms), length-records_of ms)
