-- ===== src/Replay.antt =====
-- include/replay: recorded streams, their checksum and the faults that are put into them.
pub mod Format
pub mod Recorder
pub mod Replayer
pub mod Checksum
pub mod Parts
pub mod RoundTrip
pub mod Faults
mod Examples
