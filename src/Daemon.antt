-- ===== src/Daemon.antt =====
-- src/feed: the programs around the engine's parts.
pub mod Args
pub mod Alerts
pub mod Pipeline
pub mod Drain
pub mod Events
pub mod EndToEnd
pub mod Streams
pub mod Live
pub mod Stats
pub mod Startup
pub mod Session
pub mod Consumer
pub mod Shutdown
pub mod Clock
mod Examples
