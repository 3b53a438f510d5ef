-- ===== src/Detect.antt =====
-- include/detect: the four detection layers.
pub mod PerStream
pub mod Rules
pub mod Config
pub mod Baseline
pub mod Cusum
pub mod Conformal
mod Examples
