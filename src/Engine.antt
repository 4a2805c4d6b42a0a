-- ===== src/Engine.antt =====
-- crates/memhunt-core/src/engine.rs: the hunt for cipher keys.
pub mod Choice
pub mod Config
pub mod Padding
pub mod Counter
pub mod Finish
pub mod IvScan
pub mod Hunt
pub mod StreamHunt
pub mod Scan
pub mod Blocks
pub mod Keystream
