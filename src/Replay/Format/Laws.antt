-- ===== src/Replay/Format/Laws.antt =====
-- include/replay/record_format.hpp: what is written is read back, and a record has 64 bytes.
use jisa.Prelude.{
  ℕ, ◌/◌, ◌%◌, ◌^◌, ◌<◌, ◌≡◌, refl, ◌++◌, arith, length, take, drop, take-append, drop-append, ap,
  subst, ◌∙◌,
}
use jisa.Prelude.Bits.{bit_or_fields}
use jisa.Prelude.Int.{to_u64, of_u64, of_u64-to_u64, to_u64-lt}
use jisa.Core.Message.{Message, IsMessage}
use jisa.Replay.Format.{
  Bytes, record_size, put_u32, put_u64, get_u32, get_u64, encode_record, decode_record,
}

-- A 32-bit number is read back from its four bytes, whatever follows them.
pub get_u32-put_u32 : (v : ℕ) (rest : Bytes) → v < 2 ^ 32 → get_u32 (put_u32 v ++ rest) ≡ v
unfolding get_u32 put_u32
get_u32-put_u32 v rest h = ground (
  arith,
  bit_or_fields 8 (v / 2 ^ 0 % 256) (v / 2 ^ 8 % 256),
  bit_or_fields 16 (v % 2 ^ 16) (v / 2 ^ 16 % 256),
  bit_or_fields 24 (v % 2 ^ 24) (v / 2 ^ 24 % 256),
)

pub get_u64-put_u64 : (v : ℕ) (rest : Bytes) → v < 2 ^ 64 → get_u64 (put_u64 v ++ rest) ≡ v
unfolding get_u64 put_u64
get_u64-put_u64 v rest h = ground (
  arith,
  bit_or_fields 0 0 (v / 2 ^ 0 % 256),
  bit_or_fields 8 (v % 2 ^ 8) (v / 2 ^ 8 % 256),
  bit_or_fields 16 (v % 2 ^ 16) (v / 2 ^ 16 % 256),
  bit_or_fields 24 (v % 2 ^ 24) (v / 2 ^ 24 % 256),
  bit_or_fields 32 (v % 2 ^ 32) (v / 2 ^ 32 % 256),
  bit_or_fields 40 (v % 2 ^ 40) (v / 2 ^ 40 % 256),
  bit_or_fields 48 (v % 2 ^ 48) (v / 2 ^ 48 % 256),
  bit_or_fields 56 (v % 2 ^ 56) (v / 2 ^ 56 % 256),
)

pub length-encode_record : (m : Message) → length (encode_record m) ≡ record_size
unfolding encode_record put_u32 put_u64
length-encode_record m = refl

-- A message in range is read back from its record.
pub decode_record-encode_record : (m : Message) → IsMessage m → decode_record (encode_record m) ≡ m
unfolding encode_record decode_record put_u32 put_u64
decode_record-encode_record m v = λ i. record {
  stream_id = get_u32-put_u32 m.stream_id (drop 4 (encode_record m)) v.stream_id i;
  ts_ns =
      (ap of_u64 (get_u64-put_u64 (to_u64 m.ts_ns) (drop 16 (encode_record m)) ts_fits)
          ∙ of_u64-to_u64 m.ts_ns v.ts_ns)
        i;
  value = get_u64-put_u64 m.value (drop 24 (encode_record m)) v.value i;
  seq = get_u64-put_u64 m.seq (drop 32 (encode_record m)) v.seq i;
}
  where
    ts_fits : to_u64 m.ts_ns < 2 ^ 64
    ts_fits = to_u64-lt m.ts_ns

-- The first record of a buffer is cut off by its size.
pub take-encode_record :
    (m : Message) (rest : Bytes) → take record_size (encode_record m ++ rest) ≡ encode_record m
take-encode_record m rest =
    subst (λ n. take n (encode_record m ++ rest) ≡ encode_record m) (length-encode_record m)
      (take-append (encode_record m) rest)

pub drop-encode_record :
    (m : Message) (rest : Bytes) → drop record_size (encode_record m ++ rest) ≡ rest
drop-encode_record m rest =
    subst (λ n. drop n (encode_record m ++ rest) ≡ rest) (length-encode_record m)
      (drop-append (encode_record m) rest)
