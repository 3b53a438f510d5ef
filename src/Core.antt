-- ===== src/Core.antt =====
-- include/core: the message, the lock-free rings and the block pool.
pub mod Message
pub mod Spsc
pub mod Pool
pub mod Mpsc
