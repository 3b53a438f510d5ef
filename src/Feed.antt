-- ===== src/Feed.antt =====
-- include/feed: the feed adapters and what they share.
pub mod Time
pub mod Handler
pub mod Json
pub mod Coinbase
pub mod Gridradar
pub mod Adsb
mod Examples
