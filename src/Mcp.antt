-- ===== src/Mcp.antt =====
-- crates/memhunt-cli/src/mcp.rs: the server that answers JSON-RPC requests on stdin.
pub mod Json
pub mod Schema
pub mod Tools
pub mod Dispatch
pub mod Serve
pub mod Total
pub mod Replies
pub mod Session
pub mod Calls
pub mod Capacity
pub mod HashCalls
pub mod ScanCalls
