-- ===== src/Cli.antt =====
-- crates/memhunt-cli/src/main.rs: the command line, behind the parsing of its options.
pub mod Decode
pub mod Print
pub mod Run
pub mod Exit
pub mod Searches
pub mod Scans
