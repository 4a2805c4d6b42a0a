-- ===== src/KeySched.antt =====
-- crates/memhunt-core/src/keysched.rs: key schedules found with no ciphertext.
pub mod Tables
pub mod Aes
pub mod Sm4
pub mod Scan
pub mod Heads
pub mod Sm4Heads
pub mod Passes
pub mod Hits
