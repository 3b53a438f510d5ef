-- ===== src/Replay/Recorder.antt =====
-- include/replay/recorder.hpp: StreamRecorder. An output stream has a buffer: `bytes` have reached its
-- file, and `pending` have not yet. The environment says what goes out when, and how much of it the device
-- takes. A device that takes too little leaves the stream bad, and what was pending is lost; a bad stream
-- gives the device nothing more.
pub mod Laws
use jisa.Prelude.{
  ℕ, ◌+◌, Bool, true, false, ◌&&◌, List, [], ◌∷◌, ◌++◌, leb, if◌then◌else◌, length, take, drop, min,
}
use jisa.Core.Message.{Message}
use jisa.Replay.Format.{Bytes, magic, format_version, put_u32, encode_record}

pub record OutStream : Type 0 where
  pub bytes : Bytes
  pub pending : Bytes
  pub is_open : Bool
  pub good : Bool

-- What happens in a write: the first `out` of the bytes that are pending go to the device, which takes at most
-- `room` of them.
pub record Flush : Type 0 where
  pub out : ℕ
  pub room : ℕ

-- Of pending bytes, those that go out.
abbrev pub going : Flush → Bytes → ℕ
going io bs = min io.out (length bs)

-- `file_.write(bytes)` on a good stream.
abbrev pub put_bytes : Flush → Bytes → OutStream → OutStream
put_bytes io bs f =
    let all = f.pending ++ bs in
    record f {
      bytes = f.bytes ++ take (min (going io all) io.room) all;
      pending = if leb (going io all) io.room then drop (going io all) all else [];
      good = leb (going io all) io.room;
    }

-- `file_.write(bytes)`
abbrev pub write_bytes : Flush → Bytes → OutStream → OutStream
write_bytes io bs f = if f.good then put_bytes io bs f else f

pub record Recorder : Type 0 where
  pub file : OutStream
  pub count : ℕ
  pub header_ok : Bool

abbrev pub header : Bytes
header = magic ++ put_u32 format_version

-- The constructor; `opened` says whether the file could be opened.
unfoldable pub open_recorder : Bool → Flush → Recorder
unfolding put_u32
open_recorder opened io =
    let closed : OutStream = record { bytes = []; pending = []; is_open = false; good = false } in
    let fresh : OutStream = record { bytes = []; pending = []; is_open = true; good = true } in
    let file : OutStream = write_bytes io header fresh in
    if opened
    then record { file = file; count = 0; header_ok = file.good }
    else record { file = closed; count = 0; header_ok = false }

unfoldable pub is_open : Recorder → Bool
is_open r = r.file.is_open && r.header_ok

-- `write`: the new recorder, and the result.
unfoldable pub write : Flush → Message → Recorder → Recorder × Bool
unfolding is_open
write io m r =
    let file : OutStream = write_bytes io (encode_record m) r.file in
    if is_open r
    then (if file.good
        then (record r { file = file; count = r.count + 1 }, true)
        else (record r { file = file }, false))
    else (r, false)

-- `close`: the device takes at most `room` of the bytes that are pending; nothing looks at what is lost.
unfoldable pub close : ℕ → Recorder → Recorder
close room r =
    if r.file.is_open
    then record r {
      file = record (r.file) {
        bytes = r.file.bytes ++ take room r.file.pending;
        pending = [];
        is_open = false;
      };
    }
    else r

-- A client that records a stream, one write after the other, whatever they return; the messages
-- whose `write` returned true are beside the recorder.
unfoldable pub record_stream : List (Flush × Message) → Recorder → Recorder × List Message
record_stream [] r = (r, [])
record_stream ((io, m) ∷ ms) r =
    let (r', done) = write io m r in
    let (last, kept) = record_stream ms r' in (last, if done then m ∷ kept else kept)
