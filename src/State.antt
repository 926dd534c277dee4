-- ===== src/State.antt =====
-- crates/executor-state: the tables of the store and the functions that read and write them.
pub mod Table
pub mod Keys
pub mod Error
pub mod Status
pub mod Runs
pub mod Executions
pub mod Strategies
pub mod Triggers
pub mod Revisions
