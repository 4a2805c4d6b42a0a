-- ===== src/Examples.antt =====
-- Runs of the model on concrete inputs, and the theorems at inputs that meet their hypotheses.
pub mod KeySchedules
pub mod Oracles
pub mod Hunts
pub mod Hashes
pub mod Scans
pub mod Streams
pub mod Lists
pub mod StreamCiphers
pub mod Machine
pub mod Commands
pub mod Server
pub mod ToolCalls
