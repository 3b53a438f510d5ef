-- ===== src/Replay/Checksum.antt =====
-- include/replay/checksum.hpp: StreamChecksum, FNV-1a over the 28 content bytes of each message.
pub mod Laws
use jisa.Prelude.{ℕ, ◌*◌, ◌%◌, ◌^◌, List, [], ◌∷◌, ◌++◌}
use jisa.Prelude.Bits.{bit_xor}
use jisa.Prelude.Int.{to_u64}
use jisa.Core.Message.{Message}
use jisa.Replay.Format.{Bytes, put_u32, put_u64}

abbrev pub fnv_offset_basis : ℕ
fnv_offset_basis = 0xcbf2_9ce4_8422_2325

abbrev pub fnv_prime : ℕ
fnv_prime = 0x100_0000_01b3

-- One round of the loop in `update`.
unfoldable pub fold_byte : ℕ → ℕ → ℕ
fold_byte hash b = bit_xor hash b * fnv_prime % 2 ^ 64

unfoldable pub fold_bytes : ℕ → Bytes → ℕ
fold_bytes hash [] = hash
fold_bytes hash (b ∷ bs) = fold_bytes (fold_byte hash b) bs

unfoldable pub content_bytes : Message → Bytes
content_bytes m =
    put_u32 m.stream_id ++ put_u64 (to_u64 m.ts_ns) ++ put_u64 m.value ++ put_u64 m.seq

unfoldable pub update : ℕ → Message → ℕ
update hash m = fold_bytes hash (content_bytes m)

-- `digest` after a message of each `update`, from a new checksum.
unfoldable pub update_all : ℕ → List Message → ℕ
update_all hash [] = hash
update_all hash (m ∷ ms) = update_all (update hash m) ms

unfoldable pub digest : List Message → ℕ
digest ms = update_all fnv_offset_basis ms
