-- ===== src/HashScan.antt =====
-- crates/memhunt-core/src/hash_scan.rs: preimages and HMAC keys.
pub mod Algos
pub mod Scan
pub mod Lengths
pub mod Sizes
pub mod Preimages
pub mod Limits
pub mod Total
pub mod HmacKeys
