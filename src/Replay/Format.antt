-- ===== src/Replay/Format.antt =====
-- include/replay/record_format.hpp: numbers as little-endian bytes, and the 64-byte record.
-- A buffer is the list of its bytes; `put_u32` and `put_u64` return the bytes that they write, and
-- `get_u32` and `get_u64` read at the front of what they are given.
pub mod Laws
use jisa.Prelude.{
  ℕ, zero, suc, ◌+◌, ◌*◌, ◌/◌, ◌%◌, ◌^◌, List, [], ◌∷◌, ◌++◌, get_or, drop, replicate,
}
use jisa.Prelude.Bits.{bit_or}
use jisa.Prelude.Int.{to_u64, of_u64}
use jisa.Core.Message.{Message}

abbrev pub Bytes : Type 0
Bytes = List ℕ

-- 'T', 'R', 'E', 'C'
abbrev pub magic : Bytes
magic = 0x54 ∷ 0x52 ∷ 0x45 ∷ 0x43 ∷ []

abbrev pub format_version : ℕ
format_version = 1

abbrev pub header_size : ℕ
header_size = 8

abbrev pub record_size : ℕ
record_size = 64

-- `static_cast<std::uint8_t>(v >> k)`
abbrev byte_at : ℕ → ℕ → ℕ
byte_at v k = v / 2 ^ k % 256

unfoldable pub put_u32 : ℕ → Bytes
put_u32 v = byte_at v 0 ∷ byte_at v 8 ∷ byte_at v 16 ∷ byte_at v 24 ∷ []

-- The loop of `put_u64` at `i`, with `left` rounds to go.
put_bytes : ℕ → ℕ → ℕ → Bytes
put_bytes zero i v = []
put_bytes (suc left) i v = byte_at v (8 * i) ∷ put_bytes left (i + 1) v

unfoldable pub put_u64 : ℕ → Bytes
unfolding put_bytes
put_u64 v = put_bytes 8 0 v

-- `static_cast<...>(p[i]) << k`
abbrev field_at : Bytes → ℕ → ℕ → ℕ
field_at p i k = get_or p i 0 * 2 ^ k

unfoldable pub get_u32 : Bytes → ℕ
get_u32 p =
    bit_or (bit_or (bit_or (get_or p 0 0) (field_at p 1 8)) (field_at p 2 16)) (field_at p 3 24)

-- The loop of `get_u64` at `i`, with `left` rounds to go.
get_bytes : ℕ → ℕ → ℕ → Bytes → ℕ
get_bytes zero i v p = v
get_bytes (suc left) i v p = get_bytes left (i + 1) (bit_or v (field_at p i (8 * i))) p

unfoldable pub get_u64 : Bytes → ℕ
unfolding get_bytes
get_u64 p = get_bytes 8 0 0 p

-- The zeros that `memset` leaves are at offsets 4 to 7 and from 32 on.
unfoldable pub encode_record : Message → Bytes
encode_record m =
    put_u32 m.stream_id
    ++ replicate 4 0
    ++ put_u64 (to_u64 m.ts_ns)
    ++ put_u64 m.value
    ++ put_u64 m.seq
    ++ replicate 32 0

unfoldable pub decode_record : Bytes → Message
decode_record buf = record {
  stream_id = get_u32 buf;
  ts_ns = of_u64 (get_u64 (drop 8 buf));
  value = get_u64 (drop 16 buf);
  seq = get_u64 (drop 24 buf);
}
