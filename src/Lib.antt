-- ===== src/Lib.antt =====
-- Jisa: a model of the C++ telemetry engine of this repository, and what is proved of it.
--
-- The engine takes samples from live feeds, passes them through a ring buffer to the detectors, and
-- records and replays streams. A feed adapter (include/feed) turns a text into a `Message`
-- (include/core/message.hpp), drops what is old, reports gaps, and pushes into the ring
-- (include/core/ring_buffer.hpp). The consumer's side records (include/replay) and checks every sample
-- with rules, a baseline, a change detector and an adaptive threshold (include/detect).
--
-- Which file models what (paths below include/):
--   Prelude    lists, tests on numbers, 64-bit integers (`ℤ` with `to_u64` and `of_u64`), bits, and
--              the standard library's hash maps as association lists (`Dict`)
--   Double     `double` as its 64-bit pattern: comparisons, sign and the choice of a maximum are
--              written out; the operations that round are the parameter `Arith`. Nan and OneWay: what
--              IEEE 754 says of an operation on a NaN, and in which direction sums and differences go
--   Core       Message: core/message.hpp. Mpsc: MpscRingBuffer of core/ring_buffer.hpp, as a step relation of
--              any number of producers and one consumer; Mpsc/Calls: its two operations as whole
--              calls, and Mpsc/Calls/Single: a buffer of one slot. Spsc: SpscRingBuffer of core/ring_buffer.hpp, whose
--              `try_push` and `try_pop` are whole calls on a record; Spsc/Threads is the same code as a
--              step relation, one memory access of one of the two threads at a time. Pool:
--              core/pool_allocator.hpp, with blocks by index
--   Replay     Format: replay/record_format.hpp; Recorder: replay/recorder.hpp, over an output stream with
--              a buffer; Replayer: replay/replayer.hpp; Parts: the replay of a file that was cut short;
--              Checksum: replay/checksum.hpp; Faults: replay/fault_injector.hpp, with the lines of its
--              labels file in Faults/LabelLines, and inject_impl with the files it reads and writes in
--              Faults/Files
--   Feed       Time: the timestamps of feed/coinbase.hpp; Gridradar/Time: those of feed/gridradar.hpp,
--              which has a parser of its own; Handler: feed/handler.hpp; Coinbase, Gridradar and Adsb: the
--              three adapters; Json: simdjson, a parameter
--   Detect     Rules: RuleChecker of detect/rules.hpp; Config: its reader of YAML; Baseline:
--              detect/baseline.hpp; Cusum: detect/cusum.hpp; Conformal: detect/conformal.hpp;
--              PerStream: what they share, a state per stream
--   Daemon     the programs of src/feed. Of coinbase_daemon_main.cpp, Args: parse_args and build_subscribe;
--              Clock: iso8601_utc; Alerts: the lines of alerts.jsonl, and AlertWriter with the threads that
--              call it; Pipeline: the detection layers, message by message; Drain: the consumer's inner loop;
--              Events: the WebSocket client's callback; EndToEnd, Session and Streams: these together;
--              Consumer: the flag g_running, signals, and where the consumer thread stands; Stats:
--              write_stats, call by call on a disk, and the thread that calls it; Startup: main until the
--              threads start; Shutdown: the last snapshot. Live: coinbase_live_main.cpp
--   Bindings   src/bindings/bindings.cpp: the constructor of Message and the iteration over a replayer
--
-- The daemon's counters are one object in the source; here each thread has a copy of which it changes its own
-- part, and Shutdown puts them together. The arguments of the alert writer's calls carry the time that the
-- clock gives in them.
--
-- State is a record that an operation takes and returns. Callbacks and `emit` are lists of the calls
-- made. Counters of w bits are taken modulo 2 ^ w. A function that the source makes virtual, a device or a
-- library is an argument.
--
-- Output streams: `write` of a recorder is true as soon as the record is in the stream's buffer. What goes out
-- of the buffer in each write and in the flush of `close`, and how much of it the device takes, are
-- arguments. A device that takes too little leaves the stream bad; the bytes then pending are lost, and a bad
-- stream gives the device nothing more. `close` looks at no result, nor does the alert writer, whose calls
-- say how many bytes of their line the device takes.
--
-- A program of two threads is a sequence of whole calls of either; inside the rings the calls are taken
-- apart into single memory accesses.
--
-- Bounds and fuel: the loop over the fraction of a timestamp has fuel 10 for at most 9 rounds; the loops that
-- read a recording to its end, or drain a ring, have a fuel that is proved enough, as has the loop of
-- MpscRingBuffer's `try_push` when nothing else runs and one of its exchanges does not fail spuriously (which
-- exchanges do is an argument). A ring of 2 ^ k slots has k at most 63, as its size is a `size_t`; positions
-- in an MpscRingBuffer are checked below 2 ^ 63, since `try_push` compares them as signed numbers. The parsers
-- of timestamps compute on exact integers: dates are checked before 11 April 2262, from which day on the
-- source's `int64_t` overflows. The difference of two samples' times in feed/gridradar.hpp wraps at 64 bits. A
-- pool's size in bytes is a product that can wrap, as in the source.
--
-- Not modelled: what the programs print to the terminal, the summary of the live client included; sleeps, and
-- mutexes but for the order in which they are taken; the WebSocket client, gmtime_r and pybind11's conversions,
-- which are other libraries', enter by events and as parameters. The Python module's other functions pass
-- calls on to operations that are modelled in place, and the benchmarks only time them. Memory orders weaker
-- than acquire and release do not occur in the model: a load sees the last store. Running out of memory is not
-- modelled.
pub mod Prelude
pub mod Double
pub mod Core
pub mod Replay
pub mod Feed
pub mod Detect
pub mod Daemon
pub mod Bindings
