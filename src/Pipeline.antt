-- ===== src/Pipeline.antt =====
-- crates/executor-mcp/src/tools.rs: the pipeline of one strategy run, from the call of the tool to the
-- receipts.
pub mod Types
pub mod Journal
pub mod Output
pub mod Gates
pub mod Execute
pub mod Start
pub mod Closed
pub mod Silent
pub mod Sends
pub mod Safety
pub mod Filed
