-- ===== src/Replay/Replayer.antt =====
-- include/replay/replayer.hpp: StreamReplayer. An input stream is the list of the bytes that are
-- left to read; a read past the end takes what is there and leaves nothing.
pub mod Laws
pub mod End
use jisa.Prelude.{
  ℕ, zero, suc, ◌+◌, Bool, true, false, not, Option, none, some, List, [], ◌∷◌, ltb, ◌==◌,
  if◌then◌else◌, length, take, drop,
}
use jisa.Prelude.Dict.{bytes_same}
use jisa.Core.Message.{Message}
use jisa.Replay.Format.{
  Bytes, magic, format_version, header_size, record_size, get_u32, decode_record,
}

pub data Status : Type 0 where
  ok file_not_found bad_magic unsupported_version : Status

pub record Replayer : Type 0 where
  pub file : Bytes
  pub status : Status
  pub messages_replayed : ℕ
  pub truncated : Bool

-- The status after the header is read.
unfoldable pub check_header : Bytes → Status
check_header header =
    if not (length header == header_size)
    then bad_magic
    else if not (bytes_same (take 4 header) magic)
    then bad_magic
    else if not (get_u32 (drop 4 header) == format_version)
    then unsupported_version
    else ok

-- The constructor; `none` is a file that cannot be opened.
unfoldable pub open_replayer : Option Bytes → Replayer
open_replayer none = record {
  file = [];
  status = file_not_found;
  messages_replayed = 0;
  truncated = false;
}
open_replayer (some bytes) = record {
  file = drop header_size bytes;
  status = check_header (take header_size bytes);
  messages_replayed = 0;
  truncated = false;
}

abbrev pub is_ok : Status → Bool
is_ok ok = true
is_ok _ = false

-- `next`: the message, if one was read, and the new replayer.
unfoldable pub next : Replayer → Option Message × Replayer
next r =
    let buf = take record_size r.file in
    let rest : Replayer = record r { file = drop record_size r.file } in
    if not (is_ok r.status)
    then (none, r)
    else if length buf == record_size
    then (some (decode_record buf), record rest { messages_replayed = r.messages_replayed + 1 })
    else if ltb 0 (length buf)
    then (none, record rest { truncated = true })
    else (none, rest)

abbrev pub push_front :
    Message → Option (List Message × Replayer) → Option (List Message × Replayer)
push_front m none = none
push_front m (some (ms, last)) = some (m ∷ ms, last)

-- `while (replayer.next(m)) msgs.push_back(m);` on fuel; `none` means that the fuel ran out.
unfoldable pub drain : ℕ → Replayer → Option (List Message × Replayer)
drain zero r = none
drain (suc fuel) r =
    let (m, r') = next r in elim m [ none ↦ some ([], r') | some x ↦ push_front x (drain fuel r') ]

-- All that a file gives to a client that reads to the end.
unfoldable pub replay : Option Bytes → Option (List Message × Replayer)
replay none = drain 1 (open_replayer none)
replay (some bytes) = drain (suc (length bytes)) (open_replayer (some bytes))
