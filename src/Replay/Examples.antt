-- ===== src/Replay/Examples.antt =====
-- include/replay: tests, and the theorems at concrete streams.
use jisa.Prelude.{
  ◌≡◌, ◌≢◌, ◌≤◌, length, refl, true, false, some, List, [], ◌∷◌, ◌++◌, arith, replicate,
}
use jisa.Prelude.Int.{pos, negsuc}
use jisa.Core.Message.{Message, IsMessage}
use jisa.Replay.Format.{header_size, encode_record, put_u32, put_u64}
use jisa.Replay.Recorder.{Flush, open_recorder, close, record_stream, write}
use jisa.Replay.Replayer.{Replayer, ok, drain}
use jisa.Replay.Replayer.Laws.{Drained, drain-Drained}
use jisa.Replay.RoundTrip.{Replayed, replay-record_stream}
use jisa.Replay.Checksum.{digest, content_bytes}
use jisa.Replay.Checksum.Laws.{digest_detects_byte}

abbrev tick : Message
tick = record { stream_id = 10; ts_ns = negsuc 4; value = 0x3ff0_0000_0000_0000; seq = 258 }

abbrev tock : Message
tock = record { stream_id = 11; ts_ns = pos 9; value = 0; seq = 259 }

tick-IsMessage : IsMessage tick
tick-IsMessage = omega arith

tock-IsMessage : IsMessage tock
tock-IsMessage = omega arith

-- The header stays in the buffer until the first record goes out; the third stays until `close`.
abbrev buffered : Flush
buffered = record { out = 0; room = 0 }

abbrev attempts : List (Flush × Message)
attempts =
    (record { out = 100; room = 72 }, tick)
    ∷ (record { out = 60; room = 60 }, tock)
    ∷ (buffered, tock)
    ∷ []

-- `close` flushes 50 of 68 bytes.
file_holds_header :
    header_size
    ≤ length (close 50 (record_stream attempts (open_recorder true buffered)).0).file.bytes
unfolding record_stream write open_recorder close encode_record put_u32 put_u64
file_holds_header = omega arith

replay-record_stream_example :
    let (last, kept) = record_stream attempts (open_recorder true buffered) in Replayed kept last 50
replay-record_stream_example =
    replay-record_stream buffered attempts 50
      (tick-IsMessage, (tock-IsMessage, (tock-IsMessage, tt))) file_holds_header

three_messages_kept :
    (record_stream attempts (open_recorder true buffered)).1 ≡ tick ∷ tock ∷ tock ∷ []
unfolding record_stream write open_recorder encode_record put_u32 put_u64
three_messages_kept = refl

abbrev torn : Replayer
torn = record { file = replicate 70 0; status = ok; messages_replayed = 0; truncated = false }

drain-Drained_example :
    (ms : List Message) × (last : Replayer) × (drain 2 torn ≡ some (ms, last))
    × Drained torn ms last
drain-Drained_example = drain-Drained 2 torn refl (omega arith)

abbrev next_tick : Message
next_tick = record tick { seq = 259 }

digest_detects_byte_example : digest (tick ∷ tock ∷ []) ≢ digest (next_tick ∷ tock ∷ [])
unfolding content_bytes put_u32 put_u64
digest_detects_byte_example =
    digest_detects_byte (tick ∷ tock ∷ []) (next_tick ∷ tock ∷ [])
      (10 ∷ 0 ∷ 0 ∷ 0 ∷ 0xfb ∷ replicate 7 0xff ++ (replicate 6 0 ++ (0xf0 ∷ 0x3f ∷ [])))
      (1 ∷ replicate 6 0 ++ content_bytes tock) 2 3 refl refl (omega arith)
